-- ===== src/Migrations/Dropped.antt =====
-- A key that agent_runner/migrations.py drops is gone.
use cli_agent_runner.Prelude.{
  ◌&&◌, Bool, Bool-cases, List, Option, Option-cases, [], arith, count_if, inl, inr, none, refl,
  some, ℕ, ◌∷◌, ◌≡◌, ap, false, sym, ◌∙◌,
}
use cli_agent_runner.Migrations.{Line, TableSpec}
use cli_agent_runner.Migrations.Lines.{header_of, assigns}
use cli_agent_runner.Migrations.Edits.{in_table, marks, find_table_hits, drop_marked, drop_lines}

abbrev hits_of : List Bool → ℕ
hits_of ms = count_if (λ b. b) ms

marks-header :
    (assign : Line → Bool) (spec : TableSpec) (cur : Option Line) (l : Line) (ls : List Line)
    (name : Line)
    → header_of l ≡ some name
    → marks assign spec cur (l ∷ ls) ≡ false ∷ marks assign spec (some name) ls
unfolding marks
marks-header assign spec cur l ls name e = rw (e, marks) refl

marks-other :
    (assign : Line → Bool) (spec : TableSpec) (cur : Option Line) (l : Line) (ls : List Line)
    → header_of l ≡ none
    → marks assign spec cur (l ∷ ls) ≡ (assign l && in_table spec cur) ∷ marks assign spec cur ls
unfolding marks
marks-other assign spec cur l ls e = rw (e, marks) refl

marks-drop_marked :
    (assign : Line → Bool) (spec : TableSpec) (cur : Option Line) (ls : List Line)
    → hits_of (marks assign spec cur (drop_marked (marks assign spec cur ls) ls)) ≡ 0
unfolding drop_marked
marks-drop_marked assign spec cur [] = unfold marks in refl
marks-drop_marked assign spec cur (l ∷ ls) = elim (Option-cases (header_of l)) [
  | inr (name, e) ↦
      rw (marks-header assign spec cur l ls name e, marks-header assign spec cur l _ name e)
        (omega (arith, marks-drop_marked assign spec (some name) ls))
  | inl e ↦ elim (Bool-cases (assign l && in_table spec cur)) [
    | inl h ↦ rw (marks-other assign spec cur l ls e, h) (marks-drop_marked assign spec cur ls)
    | inr h ↦
        rw (marks-other assign spec cur l ls e, h, marks-other assign spec cur l _ e, h)
          (omega (arith, marks-drop_marked assign spec cur ls))
  ]
]

find_table_hits-none :
    (assign : Line → Bool) (spec : TableSpec) (ls : List Line)
    → hits_of (marks assign spec none ls) ≡ 0
    → find_table_hits assign spec ls ≡ none
unfolding find_table_hits
find_table_hits-none assign spec ls h = ground (arith, h)

find_table_hits-some :
    (assign : Line → Bool) (spec : TableSpec) (ls : List Line) (ms : List Bool)
    → find_table_hits assign spec ls ≡ some ms
    → marks assign spec none ls ≡ ms
unfolding find_table_hits
find_table_hits-some assign spec ls ms h = ground (arith, h)

drop_lines-none :
    (key : Line) (spec : TableSpec) (ls : List Line)
    → find_table_hits (assigns key) spec ls ≡ none
    → drop_lines key spec ls ≡ ls
unfolding drop_lines
drop_lines-none key spec ls e = rw (e, drop_lines) refl

drop_lines-some :
    (key : Line) (spec : TableSpec) (ls : List Line) (ms : List Bool)
    → find_table_hits (assigns key) spec ls ≡ some ms
    → drop_lines key spec ls ≡ drop_marked ms ls
unfolding drop_lines
drop_lines-some key spec ls ms e = rw (e, drop_lines) refl

-- To drop a key from a file once is to drop it for good: a second run finds nothing to drop, also where
-- the first one refused.
pub drop_lines-settled :
    (key : Line) (spec : TableSpec) (ls : List Line)
    → drop_lines key spec (drop_lines key spec ls) ≡ drop_lines key spec ls
drop_lines-settled key spec ls = elim (Option-cases (find_table_hits (assigns key) spec ls)) [
  | inl e ↦ ap (drop_lines key spec) (drop_lines-none key spec ls e)
  | inr (ms, e) ↦ drop_lines-none key spec _ (
      find_table_hits-none (assigns key) spec _ (
        ap (λ l. hits_of (marks (assigns key) spec none l))
          (drop_lines-some key spec ls ms e
            ∙ ap (λ m. drop_marked m ls) (sym (find_table_hits-some (assigns key) spec ls ms e)))
        ∙ marks-drop_marked (assigns key) spec none ls))
]
