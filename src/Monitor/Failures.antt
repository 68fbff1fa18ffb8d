-- ===== src/Monitor/Failures.antt =====
-- The detectors of agent_runner/_monitor_detectors.py that look for the cause of failing rounds: the
-- credentials, the network, and the provider's limits.
use cli_agent_runner.Clock.{ticks}
use mathlib.Core.List.{reverse}
use cli_agent_runner.Event.Fields.{less_or_zero, nonzero, round_of}
use cli_agent_runner.Throttle.Ladder.{events_derived_reset}
use cli_agent_runner.Throttle.Coerce.{coerce_epoch_int}
use cli_agent_runner.Throttle.Scan.{Log, is_detected, is_recovered}
use cli_agent_runner.Event.{Event, get_str, is_kind, truthy}
use cli_agent_runner.Prelude.{
  ◌&&◌, ◌*◌, ◌+◌, ◌==◌, Bool, List, Option, String, [], any, if◌then◌else◌, false, leb, length,
  lookup, ltb, none, not, some, true, ℕ, ◌∷◌,
}
use cli_agent_runner.Monitor.{
  Detected, crash, quiet, warn, stop, oauth_fail, network_fail, rate_limit_active, share, throttled,
  last_n_round_exits, reaches_fifth,
}
use cli_agent_runner.Monitor.Rounds.{window, same_round}

abbrev pub Pattern : Type 0
Pattern = String → Bool

abbrev pub short_exit_threshold_s : ℕ
short_exit_threshold_s = 60

-- `log_tails.get(e.get("round_num"), "")`.
unfoldable pub tail_of : Option ℕ → List (ℕ × String) → String
tail_of none tails = ""
tail_of (some rn) [] = ""
tail_of (some rn) ((n, text) ∷ tails) = if n == rn then text else tail_of (some rn) tails

-- A short exit with an error code, one of whose patterns is found in the log's tail. `none` is a
-- duration that is no number.
unfoldable pub short_failure : List (ℕ × String) → List Pattern → Event → Option Bool
short_failure tails patterns e = elim (less_or_zero "duration_s" short_exit_threshold_s e) [
  | none ↦ none
  | some short ↦ some (
      short
      && nonzero "exit_code" e
      && not (truthy (lookup "timed_out" e))
      && any (λ p. p (tail_of (round_of e) tails)) patterns)
]

-- `e.get("round_num") in auth_rounds`.
unfoldable pub auth_reported : List Event → Event → Bool
auth_reported events e = elim (round_of e) [
  | none ↦ false
  | some rn ↦
      any (λ a. is_kind "agent_auth_error_detected" a && same_round (round_of a) (some rn)) events
]

abbrev pub or_failed : Bool → Option Bool → Option Bool
or_failed true failed = some true
or_failed false failed = failed

-- `sum(1 for e in recent if test(e))`, where the test can raise.
unfoldable pub count_matches : (Event → Option Bool) → List Event → Option ℕ
count_matches test [] = some 0
count_matches test (e ∷ es) =
    let rest = count_matches test es in
    elim (test e) [
      | none ↦ none
      | some hit ↦ elim rest [ none ↦ none | some n ↦ some ((if hit then 1 else 0) + n) ]
    ]

abbrev pub enough : ℕ → ℕ → Bool
enough matches total = leb window total && reaches_fifth matches total

abbrev pub oauth_test : List Event → List (ℕ × String) → List Pattern → Event → Option Bool
oauth_test events tails patterns e =
    or_failed (auth_reported events e) (short_failure tails patterns e)

unfoldable pub detect_oauth_fail : List Event → List (ℕ × String) → List Pattern → Detected
detect_oauth_fail events tails patterns =
    let recent = last_n_round_exits events window in
    let total = length recent in
    elim (count_matches (oauth_test events tails patterns) recent) [
      | none ↦ crash
      | some matches ↦ if enough matches total then stop oauth_fail (share matches total) else quiet
    ]

unfoldable pub detect_network_fail : List Event → List (ℕ × String) → Pattern → Detected
detect_network_fail events tails network_patterns =
    let recent = last_n_round_exits events window in
    let total = length recent in
    elim (count_matches (short_failure tails (network_patterns ∷ [])) recent) [
      | none ↦ crash
      | some matches ↦
          if enough matches total then warn network_fail (share matches total) else quiet
    ]

-- The verdict on the newest detection. `_safe_epoch_iso` is None past the year 9999.
unfoldable pub limit_of : Log → ℕ → Event → Detected
limit_of log now ev =
    let agent = get_str "agent" "unknown" ev in
    let classification = get_str "classification" "unknown" ev in
    let reset =
      events_derived_reset log [] agent classification
        (coerce_epoch_int (lookup "reset_at_epoch" ev) 0 now) in
    if ltb now (reset * ticks)
    then (if leb 253402300800 reset
        then quiet
        else warn rate_limit_active (throttled reset classification agent))
    else quiet

unfoldable pub newest_limit : Log → ℕ → List Event → Detected
newest_limit log now [] = quiet
newest_limit log now (ev ∷ evs) =
    let rest = newest_limit log now evs in
    if is_recovered ev then quiet else if is_detected ev then limit_of log now ev else rest

-- With a log directory, as `run_all_detectors` has it; `now` is in ticks.
unfoldable pub detect_rate_limit_active : List Event → ℕ → Log → Detected
unfolding newest_limit
detect_rate_limit_active events now log = newest_limit log now (reverse events)
