-- ===== src/Monitor/Poll.antt =====
-- `run_all_detectors` of agent_runner/monitor.py, and the alerts that it returns.
use cli_agent_runner.Throttle.Scan.{Log}
use cli_agent_runner.HostHealth.{HealthConfig}
use cli_agent_runner.Event.{Event}
use cli_agent_runner.Prelude.{◌*◌, ◌/◌, Dict, List, Option, String, [], none, some, ℕ, ◌∷◌}
use cli_agent_runner.Monitor.{Alert, Detected, fires}
use cli_agent_runner.Monitor.Rounds.{
  detect_timeout_rate, detect_hung, detect_orphan_chain, detect_anomaly_repetitive_active,
}
use cli_agent_runner.Monitor.Host.{
  Metric, DiskConfig, detect_disk_warning, detect_disk_critical, detect_disk_growth,
  detect_mem_pressure, detect_mem_pressure_gate_inert,
}
use cli_agent_runner.Monitor.Failures.{
  Pattern, detect_oauth_fail, detect_network_fail, detect_rate_limit_active,
}
use cli_agent_runner.Monitor.Silence.{detect_supervisor_stale}

-- What a poll reads, with the arguments that `_poll_once` takes from the configuration. `now_us` and
-- `now` are one time in microseconds since year 1 and in ticks of the epoch.
pub record Poll : Type 0 where
  pub events : List Event
  pub metrics : List Metric
  pub log_tails : List (ℕ × String)
  pub round_budget_s : ℕ
  pub supervisor_stale_threshold_s : Option ℕ
  pub now_us : ℕ
  pub now : ℕ
  pub auth_fail_patterns : List Pattern
  pub network_patterns : Pattern
  pub phases_overrides : Dict (Option ℕ)
  pub disk : DiskConfig
  pub health : HealthConfig
  pub log : Log

-- `int(round_budget_s * 1.5)`.
abbrev pub stale_threshold : Poll → ℕ
stale_threshold p = elim p.supervisor_stale_threshold_s [
  | none ↦ p.round_budget_s * 3 / 2
  | some s ↦ s
]

-- The detectors in their order.
unfoldable pub verdicts : Poll → List Detected
verdicts p =
    detect_timeout_rate p.events
    ∷ detect_hung p.events p.now_us p.round_budget_s p.phases_overrides
    ∷ detect_orphan_chain p.events
    ∷ detect_disk_warning p.metrics p.disk
    ∷ detect_disk_critical p.metrics p.disk
    ∷ detect_disk_growth p.metrics p.disk
    ∷ detect_mem_pressure p.metrics p.health
    ∷ detect_mem_pressure_gate_inert p.metrics p.health
    ∷ detect_oauth_fail p.events p.log_tails p.auth_fail_patterns
    ∷ detect_network_fail p.events p.log_tails p.network_patterns
    ∷ detect_rate_limit_active p.events p.now p.log
    ∷ detect_anomaly_repetitive_active p.events
    ∷ detect_supervisor_stale p.events p.now_us (stale_threshold p)
    ∷ []

-- `_run_detector`, with the events `detector_error` counted by the caller: a crash is dropped.
unfoldable pub raised : List Detected → List Alert
raised [] = []
raised (fires a ∷ ds) = a ∷ raised ds
raised (d ∷ ds) = raised ds

unfoldable pub run_all_detectors : Poll → List Alert
unfolding raised verdicts
run_all_detectors p = raised (verdicts p)
