-- ===== src/ServeLoop/Tests.antt =====
-- A loop over two phases, `plan` of the agent pi, which is throttled, and `build` of the agent kimi.
use cli_agent_runner.Clock.{ticks}
use cli_agent_runner.RoundOutcome.{round_outcome, fold_event, round_had_no_progress}
use cli_agent_runner.ServeRound.{post_round_verdicts}
use cli_agent_runner.ServeLoop.Routing.{launched-unthrottled}
use cli_agent_runner.ServeLoop.Rounds.{launched-le_max}
use cli_agent_runner.ServeLoop.Calm.{is_stopping}
use cli_agent_runner.ServeLoop.Exit.{gives_up_once}
use cli_agent_runner.Schedule.{evaluate, should_run}
use cli_agent_runner.Throttle.Coerce.{coerce_epoch_int}
use cli_agent_runner.Throttle.Ladder.{back_off_default, events_derived_reset}
use cli_agent_runner.ServeLoop.Pass.{at_boot, ended, serve}
use cli_agent_runner.Throttle.Active.{
  active_throttles, active_throttles_of, pending_recovered, throttle_of,
}
use cli_agent_runner.ServeLoop.{ServeConfig, back_off}
use cli_agent_runner.HostHealth.{Sample, memory_pressure}
use cli_agent_runner.ServeLoop.Selecting.{Readout}
use cli_agent_runner.PhaseSelect.{
  Profile, better, candidate_phases, decision_for, runnable, select_phase,
}
use cli_agent_runner.Throttle.Scan.{
  Log, backoff_exponent, concat, count_detection, latest_transient_per_agent, newest_month_files,
  note_transient, tail_events,
}
use cli_agent_runner.Event.{Event, get_str, int, is_kind, str, truthy}
use cli_agent_runner.Prelude.{
  ◌*◌, List, Option, String, [], count_if, if◌then◌else◌, false, has_key, insert, length, lookup,
  none, pos, refl, some, str_eq, true, ℕ, ℤ, ◌∷◌, ◌≡◌, ◌≤◌,
}

abbrev seconds : ℕ → ℕ
seconds s = s * ticks

abbrev failed : Event
failed =
    ("ts", str "1970-01-01T00:10:00.000Z")
    ∷ ("event", str "transient_error_detected")
    ∷ ("agent", str "pi")
    ∷ ("classification", str "api_timeout")
    ∷ ("reset_at_epoch", int (pos 1030))
    ∷ []

abbrev log : Log
log = (failed ∷ []) ∷ []

abbrev always : Profile
always = record { run_windows = []; pause_windows = []; timezone = none }

binaries : Option String → String
unfolding str_eq
binaries none = "pi"
binaries (some phase) = if str_eq phase "plan" then "pi" else "kimi"

abbrev host : Sample
host = record {
  psi_some = some 0;
  psi_full = some 0;
  swap_sout = some 0;
  mem_free_mb = some 100;
  mem_available_mb = some 300;
}

abbrev config : ServeConfig
config = record {
  phases = record {
    phases = "plan" ∷ "build" ∷ [];
    skips = true;
    overrides = [];
    profile_for = λ phase. always;
  };
  binary = binaries;
  ignore_schedule = false;
  once = false;
  max_rounds = some 2;
  transient_error_action = back_off;
  schedule_enabled = false;
  schedule = always;
  restart_delay_s = 10;
  health = record {
    full_critical = 6000;
    some_warning = 500;
    swap_out_noise_floor_mb = 32;
    free_low_mb = 16;
    avail_min_mb = 200;
    critical_consecutive_samples = 3;
    in_round_terminate = true;
    in_round_nudge = false;
    growth_rate_warning = 51200;
    warning_consecutive_samples = 3;
  };
}

abbrev readout : ℕ → ℤ → Readout
readout n returncode = record {
  stop_at_top = false;
  sentinel = false;
  log_before = log;
  now_before = seconds 1010;
  back_off = record {
    clock = record {
      at_raw = seconds 1010;
      at_adjust = seconds 1010;
      at_request = seconds 1010;
      at_start = seconds 1010;
      at_end = seconds 1010;
    };
    jitter = 0;
    chunk = seconds 30;
    slices = [];
  };
  stop_file = false;
  round_num = n;
  sample = host;
  zones = record { now_in_zone = λ tz. record { minutes = 480; seconds = 0 }; instant = λ tz m. m };
  span = record { started = 0; ended = 0 };
  polls = [];
  stop_after_selection = false;
  returncode = returncode;
  duration = seconds 100;
  log_after = log;
  now_after = seconds 1020;
  cgroup_events = [];
  stop_after_round = false;
}

program : Unit {0}
unfolding serve at_boot binaries active_throttles throttle_of latest_transient_per_agent
    note_transient tail_events newest_month_files concat events_derived_reset back_off_default
    backoff_exponent count_detection is_kind get_str truthy str_eq coerce_epoch_int lookup insert
    has_key pending_recovered round_outcome active_throttles_of select_phase candidate_phases
    runnable better decision_for evaluate should_run memory_pressure post_round_verdicts fold_event
    round_had_no_progress
program = tt

abbrev two_rounds : List Readout
two_rounds = readout 1 (pos 0) ∷ readout 2 (pos 0) ∷ readout 3 (pos 0) ∷ []

builds_only : (serve config two_rounds at_boot).launched ≡ some "build" ∷ some "build" ∷ []
unfolding program
builds_only = refl

stops_at_limit : (serve config two_rounds at_boot).flow ≡ ended 0
unfolding program
stops_at_limit = refl

broken_config : (serve config (readout 1 (pos 78) ∷ []) at_boot).flow ≡ ended 78
unfolding program
broken_config = refl

launched-unthrottled_example :
    (p : String) × (some "build" ≡ some p)
    × (lookup (binaries (some p)) (active_throttles log (seconds 1010)) ≡ none)
unfolding program
launched-unthrottled_example =
    launched-unthrottled config (readout 1 (pos 0)) at_boot (some "build") refl refl

launched-le_max_example : length (serve config two_rounds at_boot).launched ≤ 2
launched-le_max_example = launched-le_max config two_rounds 2 refl

gives_up_once_example :
    count_if is_stopping (serve config (readout 1 (pos 78) ∷ []) at_boot).events ≡ 1
unfolding program
gives_up_once_example = gives_up_once config (readout 1 (pos 78) ∷ []) at_boot
