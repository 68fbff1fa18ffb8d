-- ===== src/Config.antt =====
-- agent_runner/config: what its parsers accept of a configuration file.
--
-- A file is a tree of TOML values. A ConfigError is `none`; the messages are left out. Paths are
-- resolved by pathlib, a parameter.
pub mod Values
pub mod Validators
pub mod Tables
pub mod Monitor
pub mod Accept
pub mod Bounds
pub mod Accepted
pub mod Agent
pub mod Runtime
pub mod Phases
pub mod Delivery
mod Tests
use cli_agent_runner.PhaseSelect.{Config}
use cli_agent_runner.Config.Values.{TomlValue}
use cli_agent_runner.Schedule.{Window}
use cli_agent_runner.Prelude.{Dict, ℕ, Bool, Option, List, String, ℤ}

-- The value of a float field.
pub data Real : Type 0 where
  finite : (numerator : ℤ) (scale : ℕ) → Real
  infinity : Real

pub record DiskSection : Type 0 where
  pub warning_pct : Real
  pub critical_pct : Real
  pub growth_window_s : ℕ
  pub disk_growth : Real
  pub inode_growth : Real

pub record MemorySection : Type 0 where
  pub avail_min_mb : ℕ
  pub free_low_mb : ℕ
  pub swap_out_noise_floor_mb : ℕ

pub record PressureSection : Type 0 where
  pub full_avg10_critical : Real
  pub some_avg10_warning : Real
  pub critical_consecutive_samples : ℕ
  pub in_round_terminate : Bool
  pub cgroup_growth_rate : Real
  pub in_round_nudge : Bool

pub record BrakeSection : Type 0 where
  pub memory_high : Bool
  pub memory_high_step_pct : ℕ
  pub warning_consecutive_samples : ℕ

pub record HostHealthSection : Type 0 where
  pub disk : DiskSection
  pub memory : MemorySection
  pub pressure : PressureSection
  pub brake : BrakeSection

pub record MonitorSection : Type 0 where
  pub auth_fail_patterns : List String
  pub auth_fail_hint : String
  pub auto_stop_on : List String
  pub remote_failure_tolerance_s : ℕ
  pub anomaly_repetitive_window : ℕ
  pub anomaly_repetitive_threshold : ℕ
  pub host_health : HostHealthSection
  pub round_progress_interval_s : ℕ
  pub supervisor_stale_threshold_s : Option ℕ

pub record VcsSection : Type 0 where
  pub stash_idempotency_s : ℕ
  pub dirty_action : String

pub record GoalCheck : Type 0 where
  pub name : String
  pub cmd : List String
  pub cwd : Option String
  pub timeout_s : ℕ

-- The name is any value that the file gives.
pub record AgentSection : Type 0 where
  pub command : List String
  pub prompt_arg_template : List String
  pub agent_name : Option TomlValue
  pub env : Dict String
  pub prompt_delivery : String
  pub exec_prefix : List String
  pub terminal_marker : String
  pub sigterm_grace_s : ℕ

pub record RuntimeSection : Type 0 where
  pub log_dir : String
  pub round_budget_s : ℕ
  pub restart_delay_s : ℕ
  pub round_log_retention : ℕ
  pub narrative_file : Option String
  pub transient_error_action : String
  pub max_rounds : Option ℕ
  pub stop_file : Option String
  pub substrate_fingerprint_paths : List String
  pub fresh_eyes_every_n : Option ℕ
  pub dry_run : Bool
  pub max_grace_after_result_s : ℕ
  pub grace_kill_ignore_patterns : List String

pub record PromptSection : Type 0 where
  pub file : Option String
  pub files : List String
  pub inject_context : Bool
  pub context_injection_mode : String
  pub concat_separator : String
  pub strip_yaml_frontmatter : Bool

pub record PhaseSection : Type 0 where
  pub round_budget_s : Option ℕ
  pub prompt_files : Option (List String)
  pub agent : Option AgentSection
  pub windows : Option (Option String × List Window × List Window)
