-- ===== src/Config/Bounds.antt =====
-- The bounds of the single fields of a [monitor] table, and that the validators of agent_runner/config keep
-- them.
use cli_agent_runner.Monitor.Rounds.{window}
use cli_agent_runner.Config.Accept.{
  Holds, at_most-Holds, if-Holds, then-Holds, then_any, unless-Holds,
}
use cli_agent_runner.Config.Monitor.{auto_stop_of, can_fire}
use cli_agent_runner.Prelude.{
  ◌<◌, Option, arith, false, ltb, none, pos, refl, some, true, ◌≡◌, ◌≤◌, String, any, codes,
  same_codes, ◌*◌, Bool-cases, List, [], ◌^◌, inl, inr, negsuc, take, ℕ, ℤ, ◌∷◌, ◌≢◌, ◌⊎◌,
}
use cli_agent_runner.Config.{Real, finite, infinity}
use cli_agent_runner.Config.Values.{TomlValue, whole, real, infinite}
use cli_agent_runner.Config.Validators.{
  in_pct, is_positive, positive, require_positive_int, require_pct, require_positive_pct,
  require_positive_float, validate_brake_step_pct, at_most, validate_remote_failure_tolerance,
  require_non_negative_int, is_goal_kind, validate_auto_stop_on, without_goals,
}

-- The number is between 0 and 100.
abbrev pub InPct : Real → Type 0
InPct (finite (pos n) k) = n ≤ 100 * 2 ^ k
InPct (finite (negsuc n) k) = ⊥
InPct infinity = ⊥

-- The number is greater than 0.
abbrev pub IsPositive : Real → Type 0
IsPositive (finite (pos n) k) = 0 < n
IsPositive (finite (negsuc n) k) = ⊥
IsPositive infinity = Unit

abbrev pub InPositivePct : Real → Type 0
InPositivePct r = InPct r × IsPositive r

in_pct-InPct : (z : ℤ) (k : ℕ) → in_pct z k ≡ true → InPct (finite z k)
unfolding in_pct
in_pct-InPct (pos n) k e = ground (arith, e)
in_pct-InPct (negsuc n) k e = absurd (ground (arith, e))

is_positive-IsPositive : (r : Real) → is_positive r ≡ true → IsPositive r
is_positive-IsPositive (finite (pos n) k) e = ground (arith, e)
is_positive-IsPositive (finite (negsuc n) k) e = absurd (ground (arith, e))
is_positive-IsPositive infinity e = tt

pub require_pct-InPct : (v : TomlValue) → Holds InPct (require_pct v)
unfolding require_pct
require_pct-InPct (whole z) = if-Holds InPct (in_pct z 0) (finite z 0) (in_pct-InPct z 0)
require_pct-InPct (real z k r) = if-Holds InPct (in_pct z k) (finite z k) (in_pct-InPct z k)
require_pct-InPct _ = tt

positive-Holds : (r : Real) → Holds IsPositive (positive r)
positive-Holds r = if-Holds IsPositive (is_positive r) r (is_positive-IsPositive r)

pub require_positive_pct-Holds : (v : TomlValue) → Holds InPositivePct (require_positive_pct v)
unfolding require_positive_pct
require_positive_pct-Holds v =
    then-Holds InPositivePct InPct (require_pct v) positive (require_pct-InPct v)
      (λ r h. if-Holds InPositivePct (is_positive r) r (λ e. (h, is_positive-IsPositive r e)))

pub require_positive_float-Holds : (v : TomlValue) → Holds IsPositive (require_positive_float v)
unfolding require_positive_float
require_positive_float-Holds (whole z) = positive-Holds (finite z 0)
require_positive_float-Holds (real z k r) = positive-Holds (finite z k)
require_positive_float-Holds (infinite true) = tt
require_positive_float-Holds (infinite false) = tt
require_positive_float-Holds _ = tt

pub require_positive_int-Holds : (v : TomlValue) → Holds (λ n. 0 < n) (require_positive_int v)
unfolding require_positive_int
require_positive_int-Holds (whole (pos n)) =
    if-Holds (λ m. 0 < m) (ltb 0 n) n (λ e. ground (arith, e))
require_positive_int-Holds _ = tt

pub brake_step-Holds : (v : TomlValue) → Holds (λ n. n ≤ 50) (validate_brake_step_pct v)
unfolding validate_brake_step_pct
brake_step-Holds (whole (pos n)) = at_most-Holds 50 n
brake_step-Holds _ = tt

pub tolerance-Holds : (v : TomlValue) → Holds (λ n. n ≤ 3600) (validate_remote_failure_tolerance v)
unfolding validate_remote_failure_tolerance
tolerance-Holds v =
    then_any (λ n. n ≤ 3600) (require_non_negative_int v) (at_most 3600) (at_most-Holds 3600)

-- No text of the list begins with the letters of goal.
abbrev pub NoGoals : List String → Type 0
NoGoals [] = Unit
NoGoals (s ∷ ss) = ((rest : List ℕ) → codes s ≢ b'g' ∷ b'o' ∷ b'a' ∷ b'l' ∷ rest) × NoGoals ss

goal_codes :
    (cs rest : List ℕ)
    → cs ≡ b'g' ∷ b'o' ∷ b'a' ∷ b'l' ∷ rest
    → same_codes (take 4 cs) (codes "goal") ≡ true
goal_codes cs rest e = rw e (unfold same_codes codes in refl)

is_goal_kind-goal :
    (s : String) (rest : List ℕ)
    → codes s ≡ b'g' ∷ b'o' ∷ b'a' ∷ b'l' ∷ rest
    → is_goal_kind s ≡ true
unfolding is_goal_kind
is_goal_kind-goal s rest e = goal_codes (codes s) rest e

any-NoGoals : (ns : List String) → any is_goal_kind ns ≡ false → NoGoals ns
any-NoGoals [] h = tt
any-NoGoals (s ∷ ss) h = elim (Bool-cases (is_goal_kind s)) [
  | inl e ↦ absurd (ground (arith, e, h))
  | inr e ↦ (
    λ rest g. ground (arith, e, is_goal_kind-goal s rest g),
    any-NoGoals ss (ground (arith, e, h)),
  )
]

stop_names-Holds : (v : TomlValue) → Holds NoGoals (validate_auto_stop_on v)
unfolding validate_auto_stop_on
stop_names-Holds v =
    then_any NoGoals _ without_goals
      (λ ns. unless-Holds NoGoals (any is_goal_kind ns) ns (any-NoGoals ns))

defaults_no_goals : any is_goal_kind ("oauth_fail" ∷ "disk_critical" ∷ []) ≡ false
unfolding is_goal_kind codes same_codes
defaults_no_goals = refl

pub auto_stop-Holds : (v : Option TomlValue) → Holds NoGoals (auto_stop_of v)
auto_stop-Holds none = any-NoGoals ("oauth_fail" ∷ "disk_critical" ∷ []) defaults_no_goals
auto_stop-Holds (some v) = stop_names-Holds v

-- A repetition threshold is met by the events of its window, unless one of the two is 0, which turns the
-- detector off.
abbrev pub IsReachable : ℕ → ℕ → Type 0
IsReachable threshold window = (threshold ≤ window) ⊎ ((threshold ≡ 0) ⊎ (window ≡ 0))

pub can_fire-IsReachable : (t w : ℕ) → can_fire t w ≡ true → IsReachable t w
can_fire-IsReachable t w e = elim (Bool-cases (ltb 0 t)) [
  | inr p ↦ inr (inl (ground (arith, p)))
  | inl p ↦ elim (Bool-cases (ltb 0 w)) [
    | inr q ↦ inr (inr (ground (arith, q)))
    | inl q ↦ inl (ground (arith, p, q, e))
  ]
]
