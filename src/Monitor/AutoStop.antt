-- ===== src/Monitor/AutoStop.antt =====
-- Which alerts of agent_runner/monitor.py stop the service, and what is recorded of it.
use cli_agent_runner.Monitor.Poll.{run_all_detectors, verdicts, Poll, raised}
use cli_agent_runner.Monitor.Silence.{detect_supervisor_stale, silent_since}
use cli_agent_runner.Monitor.Rounds.{
  detect_anomaly_repetitive_active, detect_hung, detect_orphan_chain, detect_timeout_rate, overdue,
}
use cli_agent_runner.Monitor.Failures.{
  Pattern, detect_network_fail, detect_oauth_fail, detect_rate_limit_active, limit_of, newest_limit,
}
use cli_agent_runner.Throttle.Scan.{Log}
use cli_agent_runner.HostHealth.{HealthConfig}
use cli_agent_runner.Event.{Event}
use cli_agent_runner.Monitor.Host.{
  DiskConfig, Metric, detect_disk_critical, detect_disk_growth, detect_disk_warning,
  detect_mem_pressure, detect_mem_pressure_gate_inert, growth_since, mem_verdict,
}
use cli_agent_runner.Prelude.{
  ◌&&◌, Bool, Dict, List, Option, String, [], arith, count_if, false, refl, some, true, ℕ, ◌∷◌, ◌≡◌,
}
use cli_agent_runner.Monitor.{
  Alert, Detected, crash, quiet, fires, Detector, oauth_fail, disk_critical,
}
use cli_agent_runner.Monitor.Alerting.{StopResult, is_stop, name_of, on_alert, listed}

abbrev pub fatal : Detector → Bool
fatal oauth_fail = true
fatal disk_critical = true
fatal _ = false

-- The alert asks for a stop exactly where its detector is one of the two.
abbrev Sound : Detected → Type 0
Sound (fires a) = is_stop a.auto_action ≡ fatal a.detector
Sound _ = Unit

abbrev AllSound : List Detected → Type 0
AllSound [] = Unit
AllSound (d ∷ ds) = Sound d × AllSound ds

timeout_rate-Sound : (es : List Event) → Sound (detect_timeout_rate es)
unfolding detect_timeout_rate
timeout_rate-Sound es = ground arith

overdue-Sound :
    (now budget : ℕ) (o : Dict (Option ℕ)) (rn : ℕ) (e : Event) → Sound (overdue now budget o rn e)
unfolding overdue
overdue-Sound now budget o rn e = ground arith

hung-Sound :
    (es : List Event) (now budget : ℕ) (o : Dict (Option ℕ)) → Sound (detect_hung es now budget o)
unfolding detect_hung
hung-Sound es now budget o = grind (arith, overdue-Sound now budget o)

orphan_chain-Sound : (es : List Event) → Sound (detect_orphan_chain es)
unfolding detect_orphan_chain
orphan_chain-Sound es = ground arith

repetitive-Sound : (es : List Event) → Sound (detect_anomaly_repetitive_active es)
unfolding detect_anomaly_repetitive_active
repetitive-Sound es = ground arith

disk_warning-Sound : (ms : List Metric) (cfg : DiskConfig) → Sound (detect_disk_warning ms cfg)
unfolding detect_disk_warning
disk_warning-Sound ms cfg = ground arith

disk_critical-Sound : (ms : List Metric) (cfg : DiskConfig) → Sound (detect_disk_critical ms cfg)
unfolding detect_disk_critical
disk_critical-Sound ms cfg = ground arith

growth_since-Sound :
    (ms : List Metric) (cfg : DiskConfig) (ts disk : ℕ) (b : Metric) (bts : ℕ)
    → Sound (growth_since ms cfg ts disk b bts)
unfolding growth_since
growth_since-Sound ms cfg ts disk b bts = ground arith

disk_growth-Sound : (ms : List Metric) (cfg : DiskConfig) → Sound (detect_disk_growth ms cfg)
unfolding detect_disk_growth
disk_growth-Sound ms cfg = grind (arith, growth_since-Sound ms cfg)

mem_pressure-Sound : (ms : List Metric) (cfg : HealthConfig) → Sound (detect_mem_pressure ms cfg)
unfolding detect_mem_pressure mem_verdict
mem_pressure-Sound ms cfg = ground arith

gate_inert-Sound :
    (ms : List Metric) (cfg : HealthConfig) → Sound (detect_mem_pressure_gate_inert ms cfg)
unfolding detect_mem_pressure_gate_inert
gate_inert-Sound ms cfg = ground arith

oauth_fail-Sound :
    (es : List Event) (tails : List (ℕ × String)) (ps : List Pattern)
    → Sound (detect_oauth_fail es tails ps)
unfolding detect_oauth_fail
oauth_fail-Sound es tails ps = ground arith

network_fail-Sound :
    (es : List Event) (tails : List (ℕ × String)) (p : Pattern)
    → Sound (detect_network_fail es tails p)
unfolding detect_network_fail
network_fail-Sound es tails p = ground arith

limit_of-Sound : (log : Log) (now : ℕ) (e : Event) → Sound (limit_of log now e)
unfolding limit_of
limit_of-Sound log now e = ground arith

newest_limit-Sound : (log : Log) (now : ℕ) (es : List Event) → Sound (newest_limit log now es)
unfolding newest_limit
newest_limit-Sound log now [] = tt
newest_limit-Sound log now (e ∷ es) =
    ground (arith, limit_of-Sound log now e, newest_limit-Sound log now es)

silent_since-Sound :
    (es : List Event) (now threshold_s : ℕ) (last : String)
    → Sound (silent_since es now threshold_s last)
unfolding silent_since
silent_since-Sound es now threshold_s last = ground arith

stale-Sound :
    (es : List Event) (now threshold_s : ℕ) → Sound (detect_supervisor_stale es now threshold_s)
unfolding detect_supervisor_stale
stale-Sound es now threshold_s = grind (arith, silent_since-Sound es now threshold_s)

verdicts-Sound : (p : Poll) → AllSound (verdicts p)
unfolding verdicts detect_rate_limit_active
verdicts-Sound p = search (
  timeout_rate-Sound, hung-Sound, orphan_chain-Sound, disk_warning-Sound, disk_critical-Sound,
  disk_growth-Sound, mem_pressure-Sound, gate_inert-Sound, oauth_fail-Sound, network_fail-Sound,
  newest_limit-Sound, repetitive-Sound, stale-Sound,
)

module _ (allow : List String) (r : StopResult) where
  abbrev stops : Alert → Bool
  stops a = (on_alert a (some allow) r).stop_called

  abbrev due : Alert → Bool
  due a = fatal a.detector && listed (name_of a.detector) allow

  on_alert-stops : (a : Alert) → is_stop a.auto_action ≡ fatal a.detector → stops a ≡ due a
  unfolding on_alert
  on_alert-stops a h = ground (arith, h)

  count-raised :
      (ds : List Detected) → AllSound ds → count_if stops (raised ds) ≡ count_if due (raised ds)
  unfolding raised
  count-raised [] h = refl
  count-raised (fires a ∷ ds) h = rw (on_alert-stops a h.0, count-raised ds h.1) refl
  count-raised (crash ∷ ds) h = count-raised ds h.1
  count-raised (quiet ∷ ds) h = count-raised ds h.1

  -- Over the alerts of any poll, the stop is called for exactly those of the two fatal detectors that
  -- the operator lists.
  pub stops_fatal-listed :
      (p : Poll)
      → count_if (λ a. (on_alert a (some allow) r).stop_called) (run_all_detectors p)
        ≡ count_if
            (λ a. fatal a.detector && listed (name_of a.detector) allow)
            (run_all_detectors p)
  unfolding run_all_detectors
  stops_fatal-listed p = count-raised (verdicts p) (verdicts-Sound p)
