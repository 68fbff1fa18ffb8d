-- ===== src/Migrations/Edits.antt =====
-- The rewrites of agent_runner/migrations.py that rename a key or drop it.
use cli_agent_runner.Prelude.{
  ◌&&◌, ◌++◌, ◌==◌, Bool, List, Option, [], count_if, if◌then◌else◌, false, none, not, same_codes,
  some, true, ℕ, ◌∷◌,
}
use cli_agent_runner.Migrations.{Line, TableSpec, literal, matching}
use cli_agent_runner.Migrations.Lines.{join_lines, split_lines, header_of, match_assign, assigns}

unfoldable pub in_table : TableSpec → Option Line → Bool
in_table spec none = false
in_table (literal name) (some cur) = same_codes cur name
in_table (matching fullmatch) (some cur) = fullmatch cur

-- The hits, as a mark on every line; `cur` is the table that the lines are in, `assign` the
-- pattern of the assignment.
unfoldable pub marks : (Line → Bool) → TableSpec → Option Line → List Line → List Bool
unfolding in_table
marks assign spec cur [] = []
marks assign spec cur (l ∷ ls) = elim (header_of l) [
  | some name ↦ false ∷ marks assign spec (some name) ls
  | none ↦ (assign l && in_table spec cur) ∷ marks assign spec cur ls
]

abbrev pub is_literal : TableSpec → Bool
is_literal (literal name) = true
is_literal (matching fullmatch) = false

unfoldable pub find_table_hits : (Line → Bool) → TableSpec → List Line → Option (List Bool)
unfolding marks
find_table_hits assign spec ls =
    let hits = count_if (λ b. b) (marks assign spec none ls) in
    if hits == 0
    then none
    else if is_literal spec && not (hits == 1)
    then none
    else some (marks assign spec none ls)

unfoldable pub edit_marked : (Line → Line) → List Bool → List Line → List Line
edit_marked f [] ls = ls
edit_marked f (b ∷ bs) [] = []
edit_marked f (b ∷ bs) (l ∷ ls) = (if b then f l else l) ∷ edit_marked f bs ls

unfoldable pub drop_marked : List Bool → List Line → List Line
drop_marked [] ls = ls
drop_marked (b ∷ bs) [] = []
drop_marked (b ∷ bs) (l ∷ ls) = let rest = drop_marked bs ls in if b then rest else l ∷ rest

unfoldable pub rename_in : Line → Line → Line → Line
rename_in old new line = elim (match_assign old line) [
  | none ↦ line
  | some (indent, tail) ↦ indent ++ (new ++ tail)
]

unfoldable pub rename_lines : Line → Line → TableSpec → List Line → List Line
unfolding find_table_hits edit_marked rename_in
rename_lines old new spec ls = elim (find_table_hits (assigns old) spec ls) [
  | none ↦ ls
  | some ms ↦ edit_marked (rename_in old new) ms ls
]

unfoldable pub rename_key : Line → Line → TableSpec → List ℕ → List ℕ
unfolding rename_lines
rename_key old new spec text = join_lines (rename_lines old new spec (split_lines [] text))

unfoldable pub drop_lines : Line → TableSpec → List Line → List Line
unfolding find_table_hits drop_marked
drop_lines key spec ls = elim (find_table_hits (assigns key) spec ls) [
  | none ↦ ls
  | some ms ↦ drop_marked ms ls
]

unfoldable pub drop_key : Line → TableSpec → List ℕ → List ℕ
unfolding drop_lines
drop_key key spec text = join_lines (drop_lines key spec (split_lines [] text))
