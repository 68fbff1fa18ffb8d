-- ===== src/Monitor.antt =====
-- agent_runner/_monitor_detectors.py and agent_runner/monitor.py: what a poll of the monitor makes of
-- the events and the metrics.
--
-- A detector is isolated by `_run_detector`, so an exception is a value, `crash`. The message of an
-- alert is a text made of its context and is left out, and so is its stamp. The regular expressions are
-- the standard library's: a pattern is its search, a test on a text.
pub mod Rounds
pub mod Host
pub mod Failures
pub mod Silence
pub mod Poll
pub mod Alerting
pub mod Episodes
pub mod Hanging
pub mod OwnEvents
pub mod Stale
pub mod AutoStop
pub mod Rearm
pub mod Levels
pub mod Limits
mod Tests
use cli_agent_runner.HostHealth.{Severity, warning, critical, Context as HealthContext}
use cli_agent_runner.Event.{Value, Event, is_kind}
use cli_agent_runner.Prelude.{ℕ, ◌*◌, Bool, Option, List, String, last_n, leb, select, ℤ}

pub data Detector : Type 0 where
  timeout_rate hung orphan_chain disk_warning disk_critical disk_growth mem_pressure : Detector
  mem_signal_unavailable mem_pressure_gate_inert oauth_fail network_fail : Detector
  rate_limit_active anomaly_repetitive_active supervisor_stale : Detector

pub data AutoAction : Type 0 where
  no_action stop_service : AutoAction

-- The context dicts, by the keys that they hold.
pub data Context : Type 0 where
  share : (hits total : ℕ) → Context
  open_round : (round_num elapsed_us threshold_us : ℕ) → Context
  orphans : (streak : ℕ) (last_round : Option ℕ) → Context
  disk_level : (value threshold : ℕ) → Context
  growth : (disk_delta : ℤ) (inode_delta : Option ℤ) (elapsed_ms : ℕ) → Context
  host : HealthContext → Context
  available : (mem_available_mb : Option ℕ) → Context
  throttled : (until : ℕ) (classification agent : String) → Context
  repeats : (count : ℕ) (tool target : Option Value) → Context
  silence : (age_us : ℕ) (last_ts : Value) → Context

pub record Alert : Type 0 where
  pub severity : Severity
  pub detector : Detector
  pub context : Context
  pub auto_action : AutoAction

pub data Detected : Type 0 where
  crash quiet : Detected
  fires : Alert → Detected

-- `_alert` with the default action.
abbrev pub warn : Detector → Context → Detected
warn d c = fires (record { severity = warning; detector = d; context = c; auto_action = no_action })

abbrev pub stop : Detector → Context → Detected
stop d c =
    fires (record { severity = critical; detector = d; context = c; auto_action = stop_service })

unfoldable pub last_n_round_exits : List Event → ℕ → List Event
last_n_round_exits events n = last_n n (select (is_kind "agent_exit") events)

-- `hits / total >= 0.2`: the quotient by a window of ten is the double nearest to the fraction.
abbrev pub reaches_fifth : ℕ → ℕ → Bool
reaches_fifth hits total = leb total (hits * 5)
