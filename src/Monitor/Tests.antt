-- ===== src/Monitor/Tests.antt =====
-- Small histories, and the theorems about the monitor at them.
use cli_agent_runner.Monitor.OwnEvents.{of_monitor}
use cli_agent_runner.Migrations.Stamp.{stamp}
use mathlib.Core.List.{Mem}
use cli_agent_runner.Clock.{ticks}
use cli_agent_runner.Throttle.Scan.{tail_events, Log}
use cli_agent_runner.Monitor.Poll.{run_all_detectors, Poll}
use cli_agent_runner.Event.Fields.{round_of}
use cli_agent_runner.Monitor.Limits.{rate_limit-throttle}
use cli_agent_runner.Event.Time.{parse_iso_ms}
use cli_agent_runner.Monitor.Stale.{is_alert, stale_alert_stands}
use cli_agent_runner.Monitor.AutoStop.{fatal, stops_fatal-listed}
use cli_agent_runner.Monitor.Silence.{
  detect_supervisor_stale, first_pause, latest_stale_pause_event, max_text, monitor_self, resumes,
  stamps, suppresses, silent_since, still_paused,
}
use cli_agent_runner.Monitor.Hanging.{detect_hung-last_start, highest_started, last_start}
use cli_agent_runner.Monitor.Rounds.{
  detect_hung, open_of, overdue, phase_timeout, pop_open, set_open, track, track_all,
}
use cli_agent_runner.Throttle.Active.{check_throttle_state}
use cli_agent_runner.Monitor.Failures.{detect_rate_limit_active}
use cli_agent_runner.Monitor.Rearm.{among, draining-triggered, drains, none_yet, poll_raised}
use cli_agent_runner.Monitor.Alerting.{
  StopResult, listed, name_of, on_alert, pid_file, stop_then_record, stopped, triggered,
}
use cli_agent_runner.Monitor.Episodes.{Firing, monitor_loop, remembers}
use cli_agent_runner.Event.{Event, int, is_kind, str}
use cli_agent_runner.Monitor.Host.{
  DiskConfig, Metric, baseline_of, detect_disk_growth, growth_since, latest,
}
use cli_agent_runner.Prelude.{
  ◌&&◌, ◌*◌, List, Option, String, [], arith, count_if, false, is_some, lookup, map, none, pos,
  refl, some, str_eq, true, ℕ, ◌∷◌, ◌≡◌, ◌+◌, codes, text_less, ◌++◌, any, not,
}
use cli_agent_runner.Monitor.{
  Alert, disk_critical, hung, disk_level, stop_service, disk_growth, growth, open_round, quiet,
  warn,
}
use cli_agent_runner.HostHealth.{critical}
use cli_agent_runner.HostHealth.Tests.{defaults, stalled_host}

abbrev event_at : String → String → ℕ → Event
event_at stamp kind rn = ("ts", str stamp) ∷ ("event", str kind) ∷ ("round_num", int (pos rn)) ∷ []

abbrev at_11 : String
at_11 = "2026-03-04T05:11:00.000Z"

abbrev instant : String → ℕ
instant stamp = elim (parse_iso_ms (str stamp)) [ none ↦ 0 | some ms ↦ ms * 1000 ]

-- Round 7 ended, round 8 never did.
abbrev history : List Event
history =
    event_at "2026-03-04T05:00:00.000Z" "round_start" 7
    ∷ event_at "2026-03-04T05:10:00.000Z" "round_end" 7
    ∷ event_at at_11 "round_start" 8
    ∷ []

hung_after_budget :
    detect_hung history (instant "2026-03-04T05:16:00.000Z") 180 []
    ≡ warn hung (open_round 8 300000000 270000000)
unfolding detect_hung track_all track open_of set_open pop_open overdue phase_timeout parse_iso_ms
    round_of is_kind lookup str_eq
hung_after_budget = refl

detect_hung-last_start_example :
    detect_hung history (instant "2026-03-04T05:16:00.000Z") 180 []
    ≡ elim (highest_started none history) [
      | none ↦ quiet
      | some rn ↦ elim (last_start rn none history) [
        | none ↦ quiet
        | some e ↦ overdue (instant "2026-03-04T05:16:00.000Z") 180 [] rn e
      ]
    ]
detect_hung-last_start_example =
    detect_hung-last_start history (instant "2026-03-04T05:16:00.000Z") 180 []

abbrev disk : DiskConfig
disk = record {
  warning_pct = 9000;
  critical_pct = 9500;
  growth_window_s = 1800;
  disk_growth_per_hr = 500;
  inode_growth_per_hr = 500;
}

abbrev metric : String → ℕ → Metric
metric stamp pct = record {
  ts = some (str stamp);
  disk = some (some pct);
  inode = none;
  new_shape = true;
  sample = stalled_host;
}

abbrev metrics : List Metric
metrics = metric "2026-03-04T05:00:00.000Z" 9200 ∷ metric "2026-03-04T05:10:00.000Z" 9610 ∷ []

disk_grows : detect_disk_growth metrics disk ≡ warn disk_growth (growth (pos 410) none 600000)
unfolding detect_disk_growth latest baseline_of growth_since parse_iso_ms
disk_grows = refl

abbrev exit : ℕ → Event
exit rn =
    ("event", str "agent_exit") ∷ ("round_num", int (pos rn)) ∷ ("exit_code", int (pos 0)) ∷ []

abbrev auth_error : ℕ → Event
auth_error rn = ("event", str "agent_auth_error_detected") ∷ ("round_num", int (pos rn)) ∷ []

-- Ten clean exits, two of whose rounds reported an authentication error.
abbrev rejected : List Event
rejected = auth_error 3 ∷ auth_error 4 ∷ map exit (1 ∷ 2 ∷ 3 ∷ 4 ∷ 5 ∷ 6 ∷ 7 ∷ 8 ∷ 9 ∷ 10 ∷ [])

abbrev poll : Poll
poll = record {
  events = rejected;
  metrics = metrics;
  log_tails = [];
  round_budget_s = 1800;
  supervisor_stale_threshold_s = some 0;
  now_us = instant "2026-03-04T05:16:00.000Z";
  now = 0;
  auth_fail_patterns = [];
  network_patterns = λ s. false;
  phases_overrides = [];
  disk = disk;
  health = defaults;
  log = rejected ∷ [];
}

stops_fatal-listed_example :
    count_if
      (λ a. (on_alert a (some ("disk_critical" ∷ [])) (stopped pid_file true)).stop_called)
      (run_all_detectors poll)
    ≡ count_if
        (λ a. fatal a.detector && listed (name_of a.detector) ("disk_critical" ∷ []))
        (run_all_detectors poll)
stops_fatal-listed_example = stops_fatal-listed ("disk_critical" ∷ []) (stopped pid_file true) poll

abbrev later_instant : ℕ
later_instant = instant "2026-03-04T05:59:00.000Z"

abbrev alert_record : Event
alert_record = ("event", str "monitor_alert_emitted") ∷ ("ts", str "2026-03-04T05:59:01.000Z") ∷ []

alarm : is_alert (detect_supervisor_stale history later_instant 600) ≡ true
unfolding detect_supervisor_stale silent_since still_paused latest_stale_pause_event first_pause
    suppresses resumes stamps monitor_self max_text text_less codes is_kind lookup str_eq
    parse_iso_ms
alarm = refl

own_record : any (λ m. not (of_monitor m)) (alert_record ∷ []) ≡ false
unfolding is_kind lookup str_eq
own_record = refl

stale_alert_stands_example :
    is_alert (detect_supervisor_stale (history ++ alert_record ∷ []) (later_instant + 60000000) 600)
    ≡ true
stale_alert_stands_example =
    stale_alert_stands history (alert_record ∷ []) later_instant (later_instant + 60000000) 600
      own_record (omega arith) alarm

abbrev seconds : ℕ → ℕ
seconds s = s * ticks

abbrev sample : Log
sample =
    ((("event", str "transient_error_detected")
        ∷ ("agent", str "pi")
        ∷ ("reset_at_epoch", int (pos 900))
        ∷ [])
      ∷ [])
    ∷ []

rate_limit-throttle_example :
    is_alert (detect_rate_limit_active (tail_events sample) (seconds 700) sample)
    ≡ is_some (check_throttle_state sample (seconds 700))
rate_limit-throttle_example = rate_limit-throttle sample (seconds 700) (omega arith)

abbrev full : Alert
full = record {
  severity = critical;
  detector = disk_critical;
  context = disk_level 9610 9500;
  auto_action = stop_service;
}

abbrev alone : StopResult → Option (List Firing)
alone r = some ((full, some r) ∷ [])

draining-triggered_example :
    Mem
      (full, triggered)
      (monitor_loop none []
        (alone (stopped pid_file true) ∷ none ∷ alone (stopped pid_file false) ∷ [])).1
draining-triggered_example =
    draining-triggered none full pid_file (unfold on_alert stop_then_record name_of str_eq in refl)
      (drains (among [] [] tt tt) (poll_raised none_yet)) [] (unfold remembers in refl)
      (among [] [] tt tt)

resume_east_of_utc : parse_iso_ms (str "2026-03-04T07:11:00+02:00") ≡ parse_iso_ms (str at_11)
unfolding parse_iso_ms
resume_east_of_utc = refl
