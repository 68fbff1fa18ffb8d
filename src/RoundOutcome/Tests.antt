-- ===== src/RoundOutcome/Tests.antt =====
-- A log, and the theorems about agent_runner/_round_outcome.py at it.
use cli_agent_runner.RoundOutcome.Unlabelled.{unlabelled_diverges}
use cli_agent_runner.Clock.{ticks}
use cli_agent_runner.Event.Time.{parse_iso_ms}
use cli_agent_runner.RoundOutcome.OneScan.{round_scan-throttled}
use cli_agent_runner.Throttle.Coerce.{coerce_epoch_int}
use cli_agent_runner.Throttle.Ladder.{back_off_default, events_derived_reset}
use cli_agent_runner.Throttle.Active.{active_throttles, active_throttles_of, throttle_of}
use cli_agent_runner.RoundOutcome.{
  RoundOutcome, fold_event, round_had_no_progress, round_outcome, round_scan, count_of,
}
use cli_agent_runner.Throttle.Scan.{
  Log, backoff_exponent, concat, count_detection, count_detections, latest_transient_per_agent,
  newest_month_files, note_transient, tail_events,
}
use cli_agent_runner.Event.{Event, get_str, int, is_kind, str, truthy}
use cli_agent_runner.Prelude.{
  ◌*◌, String, [], false, has_key, insert, lookup, pos, refl, some, str_eq, true, ◌∷◌, ◌≡◌, none,
}

abbrev failed : String → Event
failed agent =
    ("ts", str "1970-01-01T00:10:00.000Z")
    ∷ ("event", str "transient_error_detected")
    ∷ ("agent", str agent)
    ∷ ("classification", str "api_timeout")
    ∷ ("reset_at_epoch", int (pos 900))
    ∷ []

abbrev stamped : String → String → Event
stamped kind stamp = ("ts", str stamp) ∷ ("event", str kind) ∷ ("agent", str "pi") ∷ []

abbrev sample : Log
sample =
    (failed "pi"
      ∷ stamped "agent_usage_recorded" "1970-01-01T00:08:00.000Z"
      ∷ stamped "round_substrate_before" "1970-01-01T00:09:00.000Z"
      ∷ failed "pi"
      ∷ [])
    ∷ []

program : Unit {0}
unfolding round_scan fold_event round_had_no_progress tail_events newest_month_files concat
    note_transient active_throttles_of active_throttles throttle_of events_derived_reset
    back_off_default backoff_exponent count_detection latest_transient_per_agent coerce_epoch_int
    is_kind get_str truthy str_eq lookup insert has_key parse_iso_ms count_detections
program = tt

abbrev pi_outcome : RoundOutcome
pi_outcome = record {
  mem_terminated = false;
  usage_capable = true;
  newest_usage_ts = some (str "1970-01-01T00:08:00.000Z");
  newest_substrate_before_ts = some (str "1970-01-01T00:09:00.000Z");
  latest_transient_per_agent = ("pi", some (failed "pi")) ∷ [];
  ran_agent = some "pi";
  usage_capable_by_agent = ("pi", true) ∷ [];
  newest_usage_ts_by_agent = ("pi", str "1970-01-01T00:08:00.000Z") ∷ [];
  backoff_exponent_by_agent = ("pi", 1) ∷ [];
}

scanned : round_outcome sample (some "pi") ≡ some pi_outcome
unfolding program
scanned = refl

round_scan-throttled_example : true ≡ has_key "pi" (active_throttles sample (920 * ticks))
unfolding program
round_scan-throttled_example =
    round_scan-throttled sample (some "pi") pi_outcome scanned (920 * ticks) "pi" true (refl, refl)
      refl refl

-- Three detections without an agent.
abbrev bare : Event
bare = ("event", str "transient_error_detected") ∷ []

abbrev bare_log : Log
bare_log = (bare ∷ bare ∷ bare ∷ []) ∷ []

abbrev bare_outcome : RoundOutcome
bare_outcome = record {
  mem_terminated = false;
  usage_capable = false;
  newest_usage_ts = none;
  newest_substrate_before_ts = none;
  latest_transient_per_agent = ("unknown", some bare) ∷ [];
  ran_agent = none;
  usage_capable_by_agent = [];
  newest_usage_ts_by_agent = [];
  backoff_exponent_by_agent = ("unknown", 2) ∷ [];
}

bare_scanned : round_outcome bare_log none ≡ some bare_outcome
unfolding program
bare_scanned = refl

unlabelled_diverges_example :
    (count_of "unknown" (("unknown", 2) ∷ []) ≡ 2) × (backoff_exponent bare_log "unknown" ≡ 0)
unfolding program
unlabelled_diverges_example = unlabelled_diverges bare_log none bare_outcome bare_scanned refl
