-- ===== src/RoundLog/Numbers.antt =====
-- The number of the next round, in agent_runner/round_log.py: no round log has it yet.
use cli_agent_runner.EventLog.{names}
use cli_agent_runner.RoundLog.{file_num, max_num, next_round_num, round_current_link}
use cli_agent_runner.Prelude.{
  ◌&&◌, ◌<◌, ◌==◌, Bool, Bool-cases, List, String, [], any, arith, false, inl, inr, not, pos, some,
  str_eq, true, ℕ, ◌∷◌, ◌≡◌, ◌≤◌,
}

abbrev pub has_num : ℕ → String → Bool
has_num n name =
    not (str_eq name round_current_link)
    && elim (file_num name) [ some (pos m) ↦ m == n | _ ↦ false ]

max_num-ge : (m : ℕ) (names : List String) → m ≤ max_num m names
unfolding max_num
max_num-ge m [] = omega arith
max_num-ge m (name ∷ names) = ground (arith, max_num-ge m names)

max_num-has : (m n : ℕ) (names : List String) → any (has_num n) names ≡ true → n ≤ max_num m names
unfolding max_num
max_num-has m n [] h = absurd (ground arith)
max_num-has m n (name ∷ names) h = elim (Bool-cases (has_num n name)) [
  | inl e ↦ ground (arith, e)
  | inr e ↦ ground (arith, max_num-has m n names (ground (arith, e, h)))
]

-- The next round's number is above that of the status, and above that of every round log, so that no
-- existing log is written over, also where the status was lost.
pub next_round_num-fresh :
    (status_num n : ℕ) (names : List String)
    → any (has_num n) names ≡ true
    → (status_num < next_round_num status_num names) × (n < next_round_num status_num names)
unfolding next_round_num
next_round_num-fresh status_num n names h =
    omega (arith, max_num-ge status_num names, max_num-has status_num n names h)
