-- ===== src/Lib.antt =====
-- The supervisor of cli-agent-runner: what it decides between two rounds of an autonomous agent.
--
-- `serve` runs an agent round after round. After each round it scans the newest two monthly files of its
-- own event stream, decides whether to go on, and with which delay; before each round it asks which phase
-- may run now, given the schedule's windows and the agents that are throttled. A round that leaves its work
-- tree dirty has it stashed or committed. `monitor`, another process, follows the same event stream, raises
-- alerts, and stops the service on the two that are fatal.
--
--   Prelude        shared names, lists over the native numbers, dicts with text keys, integers, texts
--   Clock          agent_runner/clock.py: readings as ticks of 2^-22 s
--   Event          agent_runner/events.py: the JSON values of an event, `ev.get`, the stamps
--   ServePolicy    agent_runner/_serve_policy.py: post_round_decision, the give-up caps, exit codes, budget
--   Throttle       agent_runner/_throttle.py and builtin_plugins/_constants.py: Coerce (_coerce_int,
--                  _coerce_epoch_int), Scan (the scans of the events tail), Ladder (_extend_reset,
--                  compute_adjusted_reset_at), Active (_active_throttles, _check_throttle_state,
--                  effective_throttle_view, pending_recovered), Window (mem_loop_events_in_window), Sleep
--                  (_interruptible_sleep, _apply_back_off); the proofs stand in Merge, View, Bounds, Recovery
--                  and Sleep/Laws
--   RoundOutcome   agent_runner/_round_outcome.py, with _round_scan and _ran_agent_throttled of
--                  agent_runner/cli/serve_cmd.py
--   ServeRound     agent_runner/cli/_serve_round.py: post_round_verdicts, and runs of rounds under it
--   HostHealth     agent_runner/host_health.py: memory_pressure and the gate beside it
--   MidRound       agent_runner/cli/_serve_round.py: _mid_round_action and the loop of _spawn_round: Stages
--                  (one memory check) and Watching (the passes); the proofs stand in Brake (the memory.high
--                  brake), Floor (the hard floor), Nudge, FirstSample and Tiers
--   ServeLoop      agent_runner/cli/serve_cmd.py: Pause (_pause_poll and the pauses), Gate (the throttle gate),
--                  Selecting (_select_and_gate), Pass (the loop of cmd); the proofs stand in Rounds, Calm,
--                  Exit, Around and Routing
--   Schedule       agent_runner/schedule.py: windows, should_run, next_resume_at, evaluate; Parse (parse_window)
--                  with the proofs in Reading, Weekdays and Writing
--   PhaseSelect    agent_runner/phase_select.py: candidate_phases, select_phase, and the window check in Overlap
--   EventLog       agent_runner/event_log.py and the line format of agent_runner/events.py: emit, read_new,
--                  scan, follow, replay_since, with the buffer of agent_runner/_monitor_state.py; the proofs
--                  stand in Tail
--   Monitor        agent_runner/_monitor_detectors.py: Rounds, Host, Failures and Silence (the detectors);
--                  agent_runner/monitor.py: Poll (run_all_detectors) and Alerting (on_alert);
--                  agent_runner/_monitor_registry.py and _observe.py: Episodes (the loop); the proofs stand in
--                  Hanging, OwnEvents, Stale, Limits, Levels, AutoStop and Rearm
--   RoundLog       agent_runner/round_log.py: pruning and numbering; the proofs stand in Prune and Numbers
--   Vcs            agent_runner/vcs_state.py: Porcelain, Stash, Dirty; the proofs stand in Locks and Named
--   Migrations     agent_runner/migrations.py: Lines, Edits, Moves and Stamp (the rewrites), Engine
--                  (run_migrations); the proofs stand in Dropped and Settled
--   Config         agent_runner/config/validators.py and parsers.py: Values (what tomllib reads), Validators,
--                  Tables, Monitor, Agent, Runtime and Phases (the parsers); the proofs stand in Bounds,
--                  Accepted and Delivery
--   Goal           agent_runner/goal.py: Assess (assess_treadmill) with the proofs in Once, and
--                  Ledger (write_ledger_advisory)
--
-- State. What the decisions between rounds keep is the event log, the streaks, the count of rounds and the
-- last memory sample; within a round it is the variables of its watch. A log is the list of its monthly
-- files, each the list of its events, and an event is a dict of JSON values. Functions that emit return the
-- events, or the new log. A Python exception that can escape (a stamp that does not parse) is `none`.
--
-- Numbers. Epochs and durations are counted in ticks of 2^-22 s: every double between 2^30 and 2^31, the
-- epochs of 2004 to 2038, is a whole number of ticks. A finite JSON float is an exact dyadic number. A local
-- time is its minutes on the wall clock; the time zone database is the parameter `Zones`. Memory stall
-- figures are in hundredths of a percent, and growth rates are fractions, not floats.
--
-- Loops. The loops over events, windows and candidates are recursions on the list; the search for the next
-- opening recurs on its horizon of eight days, as the source does. The loops that wait on the outside (a
-- sleep, a pause, the watch of a round, serve itself) recur on the list of what their passes read, and say
-- so in their result where the list ends before they do; a theorem shows that enough slices end a back-off.
--
-- Migrations run at most twelve passes, as the source does, and a run that needs more is one of its results.
--
-- Not modelled: processes, signals, files and sockets, the rendering of texts, exceptions of an emit or of a
-- memory sample, the texts of alerts, the checks of goals, the loader of the configuration, the registry of
-- migrations, and the environment of the round's child. `int(text)` reads ASCII digits, and the stamp parser
-- the extended ISO formats with seconds. git, the json and TOML modules, pathlib and compiled patterns are
-- parameters; texts that they see are code points.
pub mod Prelude
pub mod Clock
pub mod ServePolicy
pub mod Event
pub mod EventLog
pub mod RoundLog
pub mod Vcs
pub mod Goal
pub mod Migrations
pub mod Config
pub mod Throttle
pub mod RoundOutcome
pub mod ServeRound
pub mod Schedule
pub mod PhaseSelect
pub mod HostHealth
pub mod MidRound
pub mod Monitor
pub mod ServeLoop
