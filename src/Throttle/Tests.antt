-- ===== src/Throttle/Tests.antt =====
-- Small logs, and the theorems about agent_runner/_throttle.py at them.
use cli_agent_runner.Throttle.View.{check-active}
use cli_agent_runner.Clock.{ticks}
use cli_agent_runner.Event.Time.{parse_iso_ms, unix_epoch_ms}
use cli_agent_runner.Throttle.Recovery.{maybe_emit_recovered, pending-maybe_emit_recovered}
use cli_agent_runner.Throttle.Coerce.{coerce_epoch_int}
use cli_agent_runner.Throttle.Sleep.Laws.{back_off_ends}
use cli_agent_runner.Throttle.Ladder.{
  back_off_default, compute_adjusted_reset_at, events_derived_reset,
}
use cli_agent_runner.Throttle.Active.{
  TransientErrorState, active_throttles, check_throttle_state, effective_throttle_view,
  pending_recovered, throttle_of, throttled_for_s,
}
use cli_agent_runner.Throttle.Sleep.{Readings, Slice, apply_back_off, interruptible_sleep, sleeping}
use cli_agent_runner.Throttle.Scan.{
  Log, backoff_exponent, concat, count_detection, latest_transient_per_agent,
  latest_unrecovered_detected, newest_month_files, note_transient, scan_events_for_transient,
  tail_events,
}
use cli_agent_runner.Event.{Event, bool, get_str, int, is_kind, str, truthy}
use cli_agent_runner.Prelude.{
  ◌*◌, ◌+◌, List, String, [], arith, false, has_key, insert, lookup, none, pos, refl, some, str_eq,
  true, ℕ, ◌∷◌, ◌≡◌, ◌≢◌,
}

abbrev failed : String → ℕ → Event
failed agent reset =
    ("ts", str "1970-01-01T00:10:00.000Z")
    ∷ ("event", str "transient_error_detected")
    ∷ ("agent", str agent)
    ∷ ("classification", str "api_timeout")
    ∷ ("reset_at_epoch", int (pos reset))
    ∷ []

abbrev good_round : String → Event
good_round agent =
    ("event", str "agent_usage_recorded") ∷ ("agent", str agent) ∷ ("success", bool true) ∷ []

-- Two monthly files: `pi` failed twice, `kimi` failed, `pi` had a good round and failed twice more.
abbrev sample : Log
sample =
    (failed "pi" 500 ∷ failed "kimi" 400 ∷ good_round "pi" ∷ [])
    ∷ (failed "pi" 900 ∷ failed "pi" 1000 ∷ [])
    ∷ []

abbrev seconds : ℕ → ℕ
seconds s = s * ticks

program : Unit {0}
unfolding effective_throttle_view active_throttles check_throttle_state throttle_of
    latest_unrecovered_detected latest_transient_per_agent note_transient tail_events
    newest_month_files concat scan_events_for_transient events_derived_reset back_off_default
    backoff_exponent count_detection is_kind get_str truthy str_eq coerce_epoch_int lookup insert
    has_key pending_recovered throttled_for_s parse_iso_ms maybe_emit_recovered
    compute_adjusted_reset_at apply_back_off interruptible_sleep
program = tt

abbrev pi_state : TransientErrorState
pi_state = record {
  reset_at_epoch = 1030;
  classification = "api_timeout";
  agent = "pi";
  since_round = pos 0;
  phase = "";
}

sample_view : effective_throttle_view sample (seconds 1010) ≡ (some pi_state, ("pi", pi_state) ∷ [])
unfolding program
sample_view = refl

check-active_example : lookup "pi" (active_throttles sample (seconds 1010)) ≡ some pi_state
unfolding program
check-active_example = check-active sample (seconds 1010) pi_state refl

pending-maybe_emit_recovered_example :
    pending_recovered
      (maybe_emit_recovered "1970-01-01T00:17:00.000Z" sample
        (("pi", pi_state) ∷ [])
        (seconds 1010))
      (("pi", pi_state) ∷ [])
      (seconds 1020)
    ≡ []
pending-maybe_emit_recovered_example =
    pending-maybe_emit_recovered "1970-01-01T00:17:00.000Z" sample (("pi", pi_state) ∷ [])
      (seconds 1010) (seconds 1020)

abbrev slice : ℕ → Slice
slice elapsed = record { stop_requested = false; should_stop = false; epoch = 0; elapsed = elapsed }

-- A live listener that wakes at once, twice, before it sleeps on.
abbrev stray : List Slice
stray = slice 0 ∷ slice 1 ∷ slice 30 ∷ slice 30 ∷ []

abbrev readings : Readings
readings = record {
  at_raw = seconds 1010;
  at_adjust = seconds 1010;
  at_request = seconds 1010;
  at_start = seconds 1010;
  at_end = seconds 1080;
}

-- One slice of eight hours is enough for any back-off.
back_off_ends_example :
    (apply_back_off sample pi_state readings (seconds 7) (seconds 28800) (slice 0 ∷ [])).result
    ≢ sleeping
back_off_ends_example =
    back_off_ends sample pi_state readings (seconds 7) (seconds 28800) (slice 0 ∷ []) (omega arith)

first_second : parse_iso_ms (str "1970-01-01T00:00:00.000Z") ≡ some unix_epoch_ms
unfolding program
first_second = refl

leap_day : parse_iso_ms (str "2024-02-29T12:00:00.500Z") ≡ some (unix_epoch_ms + 1709208000500)
unfolding program
leap_day = refl

no_leap_day : parse_iso_ms (str "2023-02-29T12:00:00.500Z") ≡ none
unfolding program
no_leap_day = refl
