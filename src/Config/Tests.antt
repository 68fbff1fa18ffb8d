-- ===== src/Config/Tests.antt =====
-- Small tables, and the theorem about the [monitor] table at one.
use cli_agent_runner.Config.Phases.{parse_phase_overrides}
use cli_agent_runner.Config.Agent.{default_terminal_marker, parse_agent, has_prompt}
use cli_agent_runner.Config.Delivery.{Delivers, parse_agent-Delivers}
use cli_agent_runner.Config.Validators.{
  reject_unknown_fields, require_bool, require_non_negative_int, require_pct,
  require_positive_float, require_positive_int, require_positive_pct, require_table,
  validate_auto_stop_on, validate_brake_step_pct, ◌>>=◌, guard, validate_remote_failure_tolerance,
  require_str_list, validate_sigterm_grace_s,
}
use cli_agent_runner.Prelude.{
  Bool, String, [], none, pos, refl, true, ◌∷◌, ◌≡◌, false, lookup, same_codes, some, str_eq, List,
  insert, starts_with,
}
use cli_agent_runner.Config.{MonitorSection, finite, AgentSection}
use cli_agent_runner.Config.Values.{
  TomlTable, whole, text, array, table, nil, item, empty, entry, TomlEntries, TomlItems,
}
use cli_agent_runner.Config.Monitor.{parse_monitor, default_auth_patterns}
use cli_agent_runner.Config.Tables.{parse_vcs}
use cli_agent_runner.Config.Accepted.{MonitorBounds, parse_monitor-MonitorBounds}

abbrev any_pattern : String → Bool
any_pattern s = true

-- [monitor] auto_stop_on = ["disk_critical"], with [monitor.host_health.brake] memory_high_step_pct = 10.
abbrev brake_table : TomlEntries
brake_table = entry "memory_high_step_pct" (whole (pos 10)) empty

abbrev monitor_table : TomlTable
monitor_table =
    ("auto_stop_on", array "['disk_critical']" (item (text "disk_critical") nil))
    ∷ ("host_health", table "" (entry "brake" (table "" brake_table) empty))
    ∷ []

goal_stop_is_rejected :
    parse_monitor any_pattern
      (("auto_stop_on", array "['goal_check']" (item (text "goal_check") nil)) ∷ [])
    ≡ none
unfolding parse_monitor ◌>>=◌ reject_unknown_fields str_eq require_table lookup require_pct
    require_positive_int require_positive_float require_non_negative_int require_positive_pct
    require_bool validate_brake_step_pct validate_auto_stop_on same_codes
goal_stop_is_rejected = refl

unknown_action_is_rejected : parse_vcs (("dirty_action", text "discard") ∷ []) ≡ none
unfolding parse_vcs ◌>>=◌ guard lookup str_eq reject_unknown_fields
unknown_action_is_rejected = refl

abbrev accepted : MonitorSection
accepted = record {
  auth_fail_patterns = default_auth_patterns;
  auth_fail_hint = "";
  auto_stop_on = "disk_critical" ∷ [];
  remote_failure_tolerance_s = 90;
  anomaly_repetitive_window = 0;
  anomaly_repetitive_threshold = 0;
  host_health = record {
    disk = record {
      warning_pct = finite (pos 90) 0;
      critical_pct = finite (pos 95) 0;
      growth_window_s = 1800;
      disk_growth = finite (pos 5) 0;
      inode_growth = finite (pos 5) 0;
    };
    memory = record { avail_min_mb = 200; free_low_mb = 16; swap_out_noise_floor_mb = 32 };
    pressure = record {
      full_avg10_critical = finite (pos 60) 0;
      some_avg10_warning = finite (pos 5) 0;
      critical_consecutive_samples = 3;
      in_round_terminate = true;
      cgroup_growth_rate = finite (pos 512) 0;
      in_round_nudge = false;
    };
    brake = record {
      memory_high = false;
      memory_high_step_pct = 10;
      warning_consecutive_samples = 3;
    };
  };
  round_progress_interval_s = 0;
  supervisor_stale_threshold_s = none;
}

monitor_table_is_accepted : parse_monitor any_pattern monitor_table ≡ some accepted
unfolding parse_monitor ◌>>=◌ reject_unknown_fields str_eq require_table lookup require_pct
    require_positive_int require_positive_float require_non_negative_int require_positive_pct
    require_bool validate_brake_step_pct validate_auto_stop_on same_codes
    validate_remote_failure_tolerance
monitor_table_is_accepted = refl

parse_monitor-MonitorBounds_example : MonitorBounds accepted
parse_monitor-MonitorBounds_example =
    parse_monitor-MonitorBounds any_pattern monitor_table accepted monitor_table_is_accepted

abbrev words : List String → TomlItems
words [] = nil
words (s ∷ ss) = item (text s) (words ss)

abbrev claude : TomlTable
claude =
    ("command", array "['claude']" (words ("claude" ∷ [])))
    ∷ ("prompt_arg_template", array "['-p', '{prompt}']" (words ("-p" ∷ "{prompt}" ∷ [])))
    ∷ []

abbrev claude_agent : AgentSection
claude_agent = record {
  command = "claude" ∷ [];
  prompt_arg_template = "-p" ∷ "{prompt}" ∷ [];
  agent_name = none;
  env = [];
  prompt_delivery = "argv";
  exec_prefix = [];
  terminal_marker = default_terminal_marker;
  sigterm_grace_s = 10;
}

claude_is_accepted : parse_agent true claude ≡ some claude_agent
unfolding parse_agent ◌>>=◌ reject_unknown_fields str_eq lookup require_str_list has_prompt
    starts_with require_table validate_sigterm_grace_s
claude_is_accepted = refl

-- An override merges its fields into the base table.
stdin_override_is_rejected :
    parse_phase_overrides
      (λ s. s)
      any_pattern
      claude
      ("dev" ∷ [])
      ((
        "dev",
        table "" (entry "agent" (table "" (entry "prompt_delivery" (text "stdin") empty)) empty),
      )
        ∷ [])
    ≡ none
unfolding parse_phase_overrides str_eq ◌>>=◌ guard reject_unknown_fields require_table lookup
    parse_agent insert require_str_list has_prompt starts_with
stdin_override_is_rejected = refl

parse_agent-Delivers_example : Delivers claude_agent
parse_agent-Delivers_example = parse_agent-Delivers claude claude_agent claude_is_accepted
