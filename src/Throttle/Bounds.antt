-- ===== src/Throttle/Bounds.antt =====
-- Bounds on the ladder and on the throttles of agent_runner/_throttle.py.
use cli_agent_runner.Throttle.View.{entry_state, lookup-active}
use cli_agent_runner.Clock.{ticks}
use native.Mathlib.Nat.{mul-le-mul_left, pow-le-pow_right}
use cli_agent_runner.Throttle.Coerce.{
  coerce_epoch_int, epoch_sanity_window_s, coerce_int, in_sane_range,
}
use cli_agent_runner.Throttle.Ladder.{
  absolute_cap_s, back_off_default, compute_adjusted_reset_at, exp_cap, extend_by, extend_reset,
  adjust_by, cached_exponent, events_derived_reset,
}
use cli_agent_runner.Event.{Value, Event, get_str}
use cli_agent_runner.Throttle.Active.{TransientErrorState, active_throttles, throttle_of}
use cli_agent_runner.Throttle.Scan.{Log, backoff_exponent, latest_transient_per_agent}
use cli_agent_runner.Prelude.{
  ◌*◌, ◌+◌, ◌-◌, ◌/◌, ◌<◌, Bool, Option, String, ◌^◌, arith, false, lookup, min, none, some, suc,
  true, zero, ℕ, ◌≡◌, ◌≤◌, Bool-cases, [], inl, inr, negsuc, pos, str_eq, str_eq_iff, sym, ℤ, ◌∙◌,
  ◌⊎◌,
}

two_pow_mono : (a b : ℕ) → a ≤ b → 2 ^ a ≤ 2 ^ b
two_pow_mono a b h = pow-le-pow_right (omega arith) h

-- The ladder never moves a reset back, and never by more than the absolute cap.
pub extend_reset_bounds :
    (c : String) (reset n : ℕ)
    → (reset ≤ extend_reset c reset n) × (extend_reset c reset n ≤ reset + absolute_cap_s)
unfolding extend_reset
extend_reset_bounds c reset n = ground arith

extend_by_mono :
    (base : Option ℕ) (account : Bool) (reset n m : ℕ)
    → n ≤ m
    → extend_by base account reset n ≤ extend_by base account reset m
unfolding extend_by
extend_by_mono none account reset n m h = omega arith
extend_by_mono (some b) true reset n m h = omega arith
extend_by_mono (some b) false reset zero m h = ground arith
extend_by_mono (some b) false reset (suc n) zero h = absurd (omega arith)
extend_by_mono (some b) false reset (suc n) (suc m) h =
    let le = two_pow_mono (min (suc n) exp_cap) (min (suc m) exp_cap) (omega arith) in
    let times : b * (2 ^ min (suc n) exp_cap - 1) ≤ b * (2 ^ min (suc m) exp_cap - 1) =
      mul-le-mul_left b (omega (arith, le)) in
    ground (arith, times)

-- More failures in a row never bring the reset forward.
pub extend_reset_mono :
    (c : String) (reset n m : ℕ) → n ≤ m → extend_reset c reset n ≤ extend_reset c reset m
unfolding extend_reset
extend_reset_mono c reset n m h = extend_by_mono _ _ reset n m h

account_has_no_base : (base : ℕ) → back_off_default "rate_limit_account" ≡ some base → ⊥
unfolding back_off_default str_eq
account_has_no_base base h = cc

-- The classes with a base are estimated ones, and their bases are these.
default_estimated :
    (c : String) (base : ℕ)
    → back_off_default c ≡ some base
    → (str_eq c "rate_limit_account" ≡ false) × ((base ≡ 60) ⊎ (base ≡ 30))
unfolding back_off_default
default_estimated c base h = elim (Bool-cases (str_eq c "rate_limit_account")) [
  | inl e ↦ absurd (account_has_no_base base (rw ((str_eq_iff c _).0 e) at h))
  | inr e ↦ (e, ground arith)
]

wait_agrees :
    (c agent : String) (original n now base : ℕ)
    → (base ≡ 60) ⊎ (base ≡ 30)
    → let wait =
        (adjust_by (some base) false c original agent n now).applied_reset_at - now / ticks in
      let extension = extend_by (some base) false original n - original in
      (base ≤ wait) × (wait ≤ absolute_cap_s) × (extension ≤ wait) × (wait ≤ extension + base)
unfolding adjust_by extend_by
wait_agrees c agent original zero now base h = ground arith
wait_agrees c agent original (suc n) now base h =
    let one = two_pow_mono 0 (min (suc n) exp_cap) (omega arith) in ground (arith, one)

-- For an estimated class, the wait that the back-off applies lies between the base and the cap, and
-- exceeds the extension of the events-derived ladder by at most the base.
pub ladder_agrees :
    (c agent : String) (log : Log) (original now base : ℕ)
    → back_off_default c ≡ some base
    → let wait =
        (compute_adjusted_reset_at c original agent log now).applied_reset_at - now / ticks in
      let extension = extend_reset c original (backoff_exponent log agent) - original in
      (base ≤ wait) × (wait ≤ absolute_cap_s) × (extension ≤ wait) × (wait ≤ extension + base)
unfolding compute_adjusted_reset_at extend_reset
ladder_agrees c agent log original now base h =
    let (estimated, bases) = default_estimated c base h in
    rw (h, estimated) (wait_agrees c agent original (backoff_exponent log agent) now base bases)

in_range-le :
    (z : ℤ) (now : ℕ) → in_sane_range z 0 now * ticks ≤ now + epoch_sanity_window_s * ticks
unfolding in_sane_range
in_range-le (pos n) now = ground arith
in_range-le (negsuc n) now = omega arith

pub coerce_epoch_int-le :
    (v : Option Value) (now : ℕ)
    → coerce_epoch_int v 0 now * ticks ≤ now + epoch_sanity_window_s * ticks
unfolding coerce_epoch_int
coerce_epoch_int-le v now = in_range-le (coerce_int v (pos 0)) now

pub throttle_of_bounds :
    (log : Log) (now : ℕ) (a : String) (ev : Event) (s : TransientErrorState)
    → throttle_of log [] now a ev ≡ some s
    → (now < s.reset_at_epoch * ticks)
      × (s.reset_at_epoch * ticks ≤ now + (epoch_sanity_window_s + absolute_cap_s) * ticks)
unfolding throttle_of events_derived_reset
throttle_of_bounds log now a ev s h =
    let c = get_str "classification" "rate_limit_account" ev in
    let raw = coerce_epoch_int (lookup "reset_at_epoch" ev) 0 now in
    ground (
      arith,
      extend_reset_bounds c raw (cached_exponent [] log a),
      coerce_epoch_int-le (lookup "reset_at_epoch" ev) now,
    )

entry_bounds :
    (log : Log) (now : ℕ) (a : String) (s : TransientErrorState) (latest : Option (Option Event))
    → entry_state log [] now a latest none ≡ some s
    → (now < s.reset_at_epoch * ticks)
      × (s.reset_at_epoch * ticks ≤ now + (epoch_sanity_window_s + absolute_cap_s) * ticks)
entry_bounds log now a s none h = absurd (ground arith)
entry_bounds log now a s (some none) h = absurd (ground arith)
entry_bounds log now a s (some (some ev)) h = throttle_of_bounds log now a ev s (ground arith)

-- A throttle in force ends in the future, and no later than the sanity window and the cap allow.
pub active_bounds :
    (log : Log) (now : ℕ) (a : String) (s : TransientErrorState)
    → lookup a (active_throttles log now) ≡ some s
    → (now < s.reset_at_epoch * ticks)
      × (s.reset_at_epoch * ticks ≤ now + (epoch_sanity_window_s + absolute_cap_s) * ticks)
active_bounds log now a s h =
    entry_bounds log now a s (lookup a (latest_transient_per_agent log))
      (sym (lookup-active log now a) ∙ h)
