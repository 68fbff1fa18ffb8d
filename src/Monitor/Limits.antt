-- ===== src/Monitor/Limits.antt =====
-- `detect_rate_limit_active` of agent_runner/_monitor_detectors.py against the throttle state that serve
-- reads.
use cli_agent_runner.Throttle.Bounds.{coerce_epoch_int-le, extend_reset_bounds}
use cli_agent_runner.Throttle.Coerce.{coerce_epoch_int, epoch_sanity_window_s}
use cli_agent_runner.Clock.{ticks}
use cli_agent_runner.Throttle.Active.{throttle_of, check_throttle_state, TransientErrorState}
use cli_agent_runner.Throttle.Merge.{or_else, scan_from-or_else, to_option, latest_unrecovered-tail}
use cli_agent_runner.Monitor.Failures.{limit_of, newest_limit, detect_rate_limit_active}
use cli_agent_runner.Monitor.Stale.{is_alert}
use cli_agent_runner.Throttle.Ladder.{
  back_off_default, events_derived_reset, extend_by, extend_reset, absolute_cap_s, cached_exponent,
}
use mathlib.Core.List.{append_assoc, reverse, reverse-append, append-nil}
use cli_agent_runner.Event.{Event, get_str, is_kind-ne, Value}
use cli_agent_runner.Prelude.{
  ◌*◌, ◌++◌, List, Option-cases, String, [], ◌^◌, ap, arith, if◌then◌else◌, inl, inr, is_some,
  lookup, refl, str_eq, ℕ, ◌∙◌, ◌∷◌, ◌≡◌, ◌≤◌, ◌+◌, Bool-cases, Option, false, none, some, sym,
  true,
}
use cli_agent_runner.Monitor.{Detected, quiet}
use cli_agent_runner.Throttle.Scan.{
  Transient, no_transient, recovered, detected, Log, is_detected, is_recovered, scan_from,
  tail_events,
}

-- The verdict on the newest transient event, d where there is none.
abbrev verdict_or : Log → ℕ → Transient → Detected → Detected
verdict_or log now no_transient d = d
verdict_or log now recovered d = quiet
verdict_or log now (detected ev) d = limit_of log now ev

detected-ne_recovered : (e : Event) → is_detected e ≡ true → is_recovered e ≡ false
detected-ne_recovered e h =
    is_kind-ne "transient_error_detected" "transient_error_recovered" e h (unfold str_eq in refl)

abbrev said : Event → Transient
said e = if is_detected e then detected e else if is_recovered e then recovered else no_transient

newest_limit-cons :
    (log : Log) (now : ℕ) (t : Transient) (e : Event) (ys : List Event)
    → verdict_or log now t (newest_limit log now (e ∷ ys))
      ≡ verdict_or log now (or_else t (said e)) (newest_limit log now ys)
unfolding newest_limit
newest_limit-cons log now no_transient e ys = elim (Bool-cases (is_detected e)) [
  | inl d ↦ rw (d, detected-ne_recovered e d) refl
  | inr d ↦ ground (arith, d)
]
newest_limit-cons log now recovered e ys = refl
newest_limit-cons log now (detected ev) e ys = refl

newest_limit-reverse :
    (log : Log) (now : ℕ) (es ys : List Event)
    → newest_limit log now (reverse es ++ ys)
      ≡ verdict_or log now (scan_from no_transient es) (newest_limit log now ys)
newest_limit-reverse log now [] ys = unfold scan_from in refl
newest_limit-reverse log now (e ∷ es) ys =
    ap (λ l. newest_limit log now (l ++ ys)) (reverse-append (e ∷ []) es)
    ∙ ap (newest_limit log now) (append_assoc (reverse es) (e ∷ []) ys)
    ∙ newest_limit-reverse log now es (e ∷ ys)
    ∙ newest_limit-cons log now (scan_from no_transient es) e ys
    ∙ ap (λ t. verdict_or log now t (newest_limit log now ys))
        (sym (unfold scan_from in scan_from-or_else es (said e)))

extend_reset-no_base :
    (reset n : ℕ) → extend_reset "unknown" reset n ≡ extend_reset "rate_limit_account" reset n
unfolding extend_reset extend_by back_off_default str_eq
extend_reset-no_base reset n = refl

-- The two readers put a missing class under different names, and neither name has a ladder.
unknown_class :
    (log : Log) (agent : String) (ev : Event) (raw : ℕ)
    → events_derived_reset log [] agent (get_str "classification" "unknown" ev) raw
      ≡ events_derived_reset log [] agent (get_str "classification" "rate_limit_account" ev) raw
unfolding events_derived_reset get_str back_off_default
unknown_class log agent ev raw = elim (Option-cases (lookup "classification" ev)) [
  | inl q ↦ rw (get_str, q) (extend_reset-no_base raw (cached_exponent [] log agent))
  | inr (v, q) ↦ rw (get_str, q) refl
]

derived-le :
    (log : Log) (agent c : String) (v : Option Value) (now : ℕ)
    → events_derived_reset log [] agent c (coerce_epoch_int v 0 now) * ticks
      ≤ now + (epoch_sanity_window_s + absolute_cap_s) * ticks
unfolding events_derived_reset
derived-le log agent c v now = omega (
  arith,
  extend_reset_bounds c (coerce_epoch_int v 0 now) (cached_exponent [] log agent),
  coerce_epoch_int-le v now,
)

limit_of-throttle_of :
    (log : Log) (now : ℕ) (ev : Event)
    → now ≤ 2 ^ 31 * ticks
    → is_alert (limit_of log now ev)
      ≡ is_some (throttle_of log [] now (get_str "agent" "unknown" ev) ev)
unfolding limit_of throttle_of
limit_of-throttle_of log now ev h =
    let agent = get_str "agent" "unknown" ev in
    let raw = lookup "reset_at_epoch" ev in
    let c = get_str "classification" "rate_limit_account" ev in
    ground (
      arith,
      unknown_class log agent ev (coerce_epoch_int raw 0 now),
      derived-le log agent c raw now,
      h,
    )

abbrev throttle_by : Log → ℕ → Option Event → Option TransientErrorState
throttle_by log now none = none
throttle_by log now (some ev) = throttle_of log [] now (get_str "agent" "unknown" ev) ev

verdict-throttle :
    (log : Log) (now : ℕ) (t : Transient)
    → now ≤ 2 ^ 31 * ticks
    → is_alert (verdict_or log now t quiet) ≡ is_some (throttle_by log now (to_option t))
verdict-throttle log now no_transient h = refl
verdict-throttle log now recovered h = refl
verdict-throttle log now (detected ev) h = limit_of-throttle_of log now ev h

-- On the newest two monthly files, up to the year 2038, the monitor warns of a rate limit exactly where
-- serve holds a throttle.
pub rate_limit-throttle :
    (log : Log) (now : ℕ)
    → now ≤ 2 ^ 31 * ticks
    → is_alert (detect_rate_limit_active (tail_events log) now log)
      ≡ is_some (check_throttle_state log now)
unfolding detect_rate_limit_active check_throttle_state newest_limit
rate_limit-throttle log now h =
    let events = tail_events log in
    ap is_alert (
      ap (newest_limit log now) (sym (append-nil (reverse events)))
      ∙ newest_limit-reverse log now events [])
    ∙ verdict-throttle log now (scan_from no_transient events) h
    ∙ ap (λ o. is_some (throttle_by log now o)) (sym (latest_unrecovered-tail log))
