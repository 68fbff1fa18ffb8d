-- ===== src/Migrations/Moves.antt =====
-- The rewrites of agent_runner/migrations.py that move a key to another table, or wrap its value in a list.
use cli_agent_runner.Prelude.{
  ◌&&◌, ◌++◌, ◌==◌, Bool, List, Option, [], any, drop, if◌then◌else◌, false, is_some, is_space,
  last_n, none, not, same_codes, some, ◌||◌, ℕ, ◌∷◌,
}
use cli_agent_runner.Migrations.{Line, TableSpec, literal}
use cli_agent_runner.Migrations.Lines.{
  join_lines, split_lines, header_of, match_assign, assigns, span_blank,
}
use cli_agent_runner.Migrations.Edits.{edit_marked, drop_marked, find_table_hits}

-- The lines at the marks.
unfoldable pub marked : List Bool → List Line → List Line
marked [] ls = []
marked (b ∷ bs) [] = []
marked (b ∷ bs) (l ∷ ls) = let rest = marked bs ls in if b then l ∷ rest else rest

-- The line that is moved, under its new key and without its indent.
unfoldable pub moved_line : Line → Line → Line → Line
moved_line old new line = elim (match_assign old line) [
  | none ↦ line
  | some (indent, tail) ↦ new ++ tail
]

-- Behind the last line of the table that the lines are in.
unfoldable pub place_in : Line → List Line → List Line
place_in new [] = new ∷ []
place_in new (l ∷ ls) =
    let rest = place_in new ls in if is_some (header_of l) then new ∷ l ∷ ls else l ∷ rest

abbrev pub opens : Line → Line → Bool
opens table line = elim (header_of line) [ none ↦ false | some name ↦ same_codes name table ]

-- Behind the last line of the first table of a name, if there is one.
unfoldable pub place : Line → Line → List Line → Option (List Line)
unfolding place_in
place table new [] = none
place table new (l ∷ ls) =
    let rest = place table new ls in
    if opens table l
    then some (l ∷ place_in new ls)
    else elim rest [ none ↦ none | some ls' ↦ some (l ∷ ls') ]

abbrev pub ends_in_line_feed : Line → Bool
ends_in_line_feed line = same_codes (last_n 1 line) (10 ∷ [])

-- The last line gets a line feed if it has none.
unfoldable pub terminated : List Line → List Line
terminated [] = []
terminated (l ∷ []) = (if ends_in_line_feed l then l else l ++ 10 ∷ []) ∷ []
terminated (l ∷ m ∷ ls) = l ∷ terminated (m ∷ ls)

-- A new table at the end.
unfoldable pub append_table : Line → Line → List Line → List Line
unfolding terminated
append_table table new ls = terminated ls ++ (b'[' ∷ table ++ b']' ∷ 10 ∷ []) ∷ new ∷ []

unfoldable pub relocate_lines : Line → Line → Line → Line → List Line → List Line
unfolding place append_table moved_line marked
relocate_lines old new from_table to_table ls =
    elim (find_table_hits (assigns old) (literal from_table) ls) [
      | none ↦ ls
      | some ms ↦ elim (marked ms ls) [
        | [] ↦ ls
        | l ∷ more ↦ elim (place to_table (moved_line old new l) (drop_marked ms ls)) [
          | none ↦ append_table to_table (moved_line old new l) (drop_marked ms ls)
          | some ls' ↦ ls'
        ]
      ]
    ]

unfoldable pub relocate_key : Line → Line → Line → Line → List ℕ → List ℕ
unfolding relocate_lines
relocate_key old new from_table to_table text =
    join_lines (relocate_lines old new from_table to_table (split_lines [] text))

-- The text up to the next quote, and behind it; a line feed ends the search.
unfoldable pub until_quote : ℕ → Line → Option (Line × Line)
until_quote q [] = none
until_quote q (c ∷ cs) =
    let rest = until_quote q cs in
    if c == q
    then some ([], cs)
    else if c == 10
    then none
    else elim rest [ none ↦ none | some (val, more) ↦ some (c ∷ val, more) ]

abbrev pub is_quote : ℕ → Bool
is_quote c = c == b'\"' || c == b'\''

-- An assignment of a quoted text: what stands before the value, the quote, the value, and the rest.
pub record Quoted : Type 0 where
  pub before : Line
  pub quote : ℕ
  pub val : Line
  pub rest : Line

-- From behind the equals sign and its blanks; `head` and `gap` are what stands before.
abbrev pub quoted_at : Line → Line → Line → Option Quoted
quoted_at head gap [] = none
quoted_at head gap (c ∷ cs) =
    if is_quote c
    then elim (until_quote c cs) [
      | none ↦ none
      | some (v, more) ↦ some (record { before = head ++ gap; quote = c; val = v; rest = more })
    ]
    else none

unfoldable pub match_quoted : Line → Line → Option Quoted
unfolding until_quote
match_quoted key line = elim (match_assign key line) [
  | none ↦ none
  | some (indent, tail) ↦
      let (blanks, from_equals) = span_blank tail in
      let behind = drop 1 from_equals in
      quoted_at (indent ++ (key ++ (blanks ++ b'=' ∷ []))) (span_blank behind).0
        (span_blank behind).1
]

unfoldable pub wrappable : Line → Bool → Line → Bool
unfolding match_quoted
wrappable key skip_space line = elim (match_quoted key line) [
  | none ↦ false
  | some w ↦ not (skip_space && any is_space w.val)
]

unfoldable pub wrap_in : Line → Line → Line
unfolding match_quoted
wrap_in key line = elim (match_quoted key line) [
  | none ↦ line
  | some w ↦ w.before ++ (b'[' ∷ w.quote ∷ w.val ++ (w.quote ∷ b']' ∷ w.rest))
]

unfoldable pub wrap_bare_string_list : Line → TableSpec → Bool → List ℕ → List ℕ
unfolding wrappable wrap_in
wrap_bare_string_list key spec skip_space text =
    let ls = split_lines [] text in
    elim (find_table_hits (wrappable key skip_space) spec ls) [
      | none ↦ text
      | some ms ↦ join_lines (edit_marked (wrap_in key) ms ls)
    ]
