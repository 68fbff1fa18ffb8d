-- ===== src/Monitor/Alerting.antt =====
-- What agent_runner/monitor.py does about an alert: the verdict, the breadcrumbs, and the stop.
use cli_agent_runner.Prelude.{
  ◌&&◌, Bool, List, Option, String, [], any, if◌then◌else◌, false, none, some, str_eq, true, ◌∷◌,
}
use cli_agent_runner.Monitor.{
  Alert, AutoAction, stop_service, no_action, Detector, timeout_rate, hung, orphan_chain,
  disk_warning, disk_critical, disk_growth, mem_pressure, mem_signal_unavailable,
  mem_pressure_gate_inert, oauth_fail, network_fail, rate_limit_active, anomaly_repetitive_active,
  supervisor_stale,
}

pub data ServiceMode : Type 0 where
  systemd_user pid_file unmanaged : ServiceMode

-- What `api.stop` comes to: an exception, or a status.
pub data StopResult : Type 0 where
  stop_failed : StopResult
  stopped : (mode : ServiceMode) (active : Bool) → StopResult

pub data OnAlertVerdict : Type 0 where
  triggered failed draining not_eligible : OnAlertVerdict

pub data Breadcrumb : Type 0 where
  alert_emitted : Alert → Breadcrumb
  auto_stop_failed auto_stop_triggered : Detector → Breadcrumb

-- `stop_called` says whether `api.stop` was called.
pub record Dispatched : Type 0 where
  pub verdict : OnAlertVerdict
  pub emitted : List Breadcrumb
  pub stop_called : Bool

abbrev pub is_pid_file : ServiceMode → Bool
is_pid_file pid_file = true
is_pid_file _ = false

unfoldable pub stop_then_record : Detector → StopResult → OnAlertVerdict × List Breadcrumb
stop_then_record d stop_failed = (failed, auto_stop_failed d ∷ [])
stop_then_record d (stopped mode true) =
    if is_pid_file mode then (draining, []) else (failed, auto_stop_failed d ∷ [])
stop_then_record d (stopped mode false) = (triggered, auto_stop_triggered d ∷ [])

-- A detector by its name, by which `auto_stop_on` lists it.
unfoldable pub name_of : Detector → String
name_of timeout_rate = "timeout_rate"
name_of hung = "hung"
name_of orphan_chain = "orphan_chain"
name_of disk_warning = "disk_warning"
name_of disk_critical = "disk_critical"
name_of disk_growth = "disk_growth"
name_of mem_pressure = "mem_pressure"
name_of mem_signal_unavailable = "mem_signal_unavailable"
name_of mem_pressure_gate_inert = "mem_pressure_gate_inert"
name_of oauth_fail = "oauth_fail"
name_of network_fail = "network_fail"
name_of rate_limit_active = "rate_limit_active"
name_of anomaly_repetitive_active = "anomaly_repetitive_active"
name_of supervisor_stale = "supervisor_stale"

abbrev pub is_stop : AutoAction → Bool
is_stop stop_service = true
is_stop no_action = false

abbrev pub listed : String → List String → Bool
listed s names = any (str_eq s) names

abbrev pub auto_stop_alerts : List String
auto_stop_alerts = "oauth_fail" ∷ "disk_critical" ∷ []

-- The breadcrumbs are those that are written where the log directory can be.
unfoldable pub on_alert : Alert → Option (List String) → StopResult → Dispatched
unfolding stop_then_record name_of
on_alert alert allow result =
    let names : List String = elim allow [ none ↦ auto_stop_alerts | some ns ↦ ns ] in
    if is_stop alert.auto_action && listed (name_of alert.detector) names
    then record {
      verdict = (stop_then_record alert.detector result).0;
      emitted = alert_emitted alert ∷ (stop_then_record alert.detector result).1;
      stop_called = true;
    }
    else record { verdict = not_eligible; emitted = alert_emitted alert ∷ []; stop_called = false }
