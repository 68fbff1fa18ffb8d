-- ===== src/Goal.antt =====
-- agent_runner/goal.py: the assessor that notices rounds which keep busy and reach nothing, and the
-- ledger of its advisories.
--
-- The value of a check is null or a number, as `run_goal_checks` emits it; a git head is a text or null.
-- The sentences of an advisory are texts made of the names of its checks and are left out.
pub mod Assess
pub mod Once
pub mod Ledger
mod Tests
use cli_agent_runner.Prelude.{ℕ, Bool, Option, List, String, ℤ, Dict}

-- A finite float, numerator / 2^scale.
pub record Number : Type 0 where
  pub numerator : ℤ
  pub scale : ℕ

-- What a check said in one round: whether it is satisfied, and its value.
abbrev pub CheckEntry : Type 0
CheckEntry = Bool × Option Number

abbrev pub Signature : Type 0
Signature = Dict CheckEntry

-- There is nothing in it that could end a round.
pub record Advisory : Type 0 where
  pub rounds : ℕ
  pub checks : List String
