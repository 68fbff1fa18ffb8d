-- ===== src/Migrations/Lines.antt =====
-- The lines of a configuration file, their table headers and assignments, as agent_runner/migrations.py
-- reads them.
use cli_agent_runner.Prelude.{
  ◌&&◌, ◌++◌, ◌==◌, Bool, List, Option, [], if◌then◌else◌, false, is_empty, is_some, leb, none, not,
  some, strip, strip_left, ◌||◌, ℕ, ◌∷◌,
}
use cli_agent_runner.Migrations.{Line}

-- The line ends of `str.splitlines`.
unfoldable pub is_break : ℕ → Bool
is_break c = (leb 10 c && leb c 13) || (leb 28 c && leb c 30) || c == 133 || c == 8232 || c == 8233

abbrev pub line_feed_next : List ℕ → Bool
line_feed_next [] = false
line_feed_next (c ∷ cs) = c == 10

-- `text.splitlines(keepends=True)`, from what has been read of the first line; CR LF is one end.
unfoldable pub split_lines : List ℕ → List ℕ → List Line
unfolding is_break
split_lines acc [] = if is_empty acc then [] else acc ∷ []
split_lines acc (c ∷ cs) =
    let ended = split_lines [] cs in
    let more = split_lines (acc ++ c ∷ []) cs in
    if is_break c && not (c == 13 && line_feed_next cs) then (acc ++ c ∷ []) ∷ ended else more

-- `"".join(lines)`.
unfoldable pub join_lines : List Line → List ℕ
join_lines [] = []
join_lines (l ∷ ls) = l ++ join_lines ls

-- The text before the first closing bracket.
unfoldable pub until_bracket : Line → Option Line
until_bracket [] = none
until_bracket (c ∷ cs) =
    let rest = until_bracket cs in
    if c == b']' then some [] else elim rest [ none ↦ none | some n ↦ some (c ∷ n) ]

-- `_TABLE_HEADER`, with the name that it captures, stripped.
abbrev pub bracketed : Option Line → Option Line
bracketed none = none
bracketed (some []) = none
bracketed (some (c ∷ cs)) = some (strip (c ∷ cs))

abbrev pub header_at : Line → Option Line
header_at [] = none
header_at (c ∷ cs) = if c == b'[' then bracketed (until_bracket cs) else none

unfoldable pub header_of : Line → Option Line
unfolding until_bracket
header_of line = header_at (strip_left line)

-- Spaces and tabs, and what follows them.
abbrev pub is_blank : ℕ → Bool
is_blank c = c == 32 || c == 9

unfoldable pub span_blank : Line → Line × Line
span_blank [] = ([], [])
span_blank (c ∷ cs) =
    let (blanks, rest) = span_blank cs in if is_blank c then (c ∷ blanks, rest) else ([], c ∷ cs)

unfoldable pub after_prefix : Line → Line → Option Line
after_prefix [] cs = some cs
after_prefix (p ∷ ps) [] = none
after_prefix (p ∷ ps) (c ∷ cs) = let rest = after_prefix ps cs in if p == c then rest else none

abbrev pub starts_equals : Line → Bool
starts_equals [] = false
starts_equals (c ∷ cs) = c == b'='

-- An assignment of a key: its indent, and what follows the key.
unfoldable pub match_assign : Line → Line → Option (Line × Line)
unfolding span_blank after_prefix
match_assign key line = elim (after_prefix key (span_blank line).1) [
  | none ↦ none
  | some tail ↦ if starts_equals (span_blank tail).1 then some ((span_blank line).0, tail) else none
]

unfoldable pub assigns : Line → Line → Bool
unfolding match_assign
assigns key line = is_some (match_assign key line)
