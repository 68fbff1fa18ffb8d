-- ===== src/Config/Monitor.antt =====
-- `_parse_monitor` of agent_runner/config/parsers.py, table by table.
use cli_agent_runner.Monitor.Rounds.{window}
use cli_agent_runner.Prelude.{
  ◌&&◌, Bool, List, Option, String, [], false, lookup, ltb, none, not, pos, some, true, ℕ, ◌∷◌,
}
use cli_agent_runner.Config.{
  DiskSection, MemorySection, PressureSection, BrakeSection, HostHealthSection, MonitorSection,
}
use cli_agent_runner.Config.Values.{TomlValue, TomlTable, flag, whole, real, text, get_or, str_of}
use cli_agent_runner.Config.Validators.{
  ◌>>=◌, guard, reject_unknown_fields, require_table, require_positive_int,
  require_non_negative_int, require_bool, require_pct, require_positive_pct, require_positive_float,
  validate_regex_list, validate_brake_step_pct, validate_remote_failure_tolerance,
  validate_auto_stop_on,
}

-- The default of a float field, which is a whole number.
abbrev whole_float : ℕ → String → TomlValue
whole_float n r = real (pos n) 0 r

unfoldable pub parse_disk : TomlTable → Option DiskSection
unfolding get_or
parse_disk d = do
  _ ← reject_unknown_fields d (
      "warning_pct" ∷ "critical_pct" ∷ "growth_window_s" ∷ "disk_growth_pct_per_hr_warning"
      ∷ "inode_growth_pct_per_hr_warning" ∷ [])
  w ← require_pct (get_or "warning_pct" (whole_float 90 "90.0") d)
  c ← require_pct (get_or "critical_pct" (whole_float 95 "95.0") d)
  g ← require_positive_int (get_or "growth_window_s" (whole (pos 1800)) d)
  dg ← require_positive_float (get_or "disk_growth_pct_per_hr_warning" (whole_float 5 "5.0") d)
  ig ← require_positive_float (get_or "inode_growth_pct_per_hr_warning" (whole_float 5 "5.0") d)
  some (record {
    warning_pct = w;
    critical_pct = c;
    growth_window_s = g;
    disk_growth = dg;
    inode_growth = ig;
  })

unfoldable pub parse_memory : TomlTable → Option MemorySection
unfolding get_or
parse_memory d = do
  _ ← reject_unknown_fields d ("avail_min_mb" ∷ "free_low_mb" ∷ "swap_out_noise_floor_mb" ∷ [])
  a ← require_non_negative_int (get_or "avail_min_mb" (whole (pos 200)) d)
  f ← require_positive_int (get_or "free_low_mb" (whole (pos 16)) d)
  s ← require_positive_int (get_or "swap_out_noise_floor_mb" (whole (pos 32)) d)
  some (record { avail_min_mb = a; free_low_mb = f; swap_out_noise_floor_mb = s })

unfoldable pub parse_pressure : TomlTable → Option PressureSection
unfolding get_or
parse_pressure d = do
  _ ← reject_unknown_fields d (
      "full_avg10_critical" ∷ "some_avg10_warning" ∷ "critical_consecutive_samples"
      ∷ "in_round_terminate" ∷ "cgroup_growth_rate_warning_mb_per_min" ∷ "in_round_nudge" ∷ [])
  f ← require_positive_pct (get_or "full_avg10_critical" (whole_float 60 "60.0") d)
  s ← require_positive_pct (get_or "some_avg10_warning" (whole_float 5 "5.0") d)
  n ← require_positive_int (get_or "critical_consecutive_samples" (whole (pos 3)) d)
  t ← require_bool (get_or "in_round_terminate" (flag true) d)
  g ←
      require_positive_float
        (get_or "cgroup_growth_rate_warning_mb_per_min" (whole_float 512 "512.0") d)
  u ← require_bool (get_or "in_round_nudge" (flag false) d)
  some (record {
    full_avg10_critical = f;
    some_avg10_warning = s;
    critical_consecutive_samples = n;
    in_round_terminate = t;
    cgroup_growth_rate = g;
    in_round_nudge = u;
  })

unfoldable pub parse_brake : TomlTable → Option BrakeSection
unfolding get_or
parse_brake d = do
  _ ←
      reject_unknown_fields d
        ("memory_high" ∷ "memory_high_step_pct" ∷ "warning_consecutive_samples" ∷ [])
  h ← require_bool (get_or "memory_high" (flag false) d)
  p ← validate_brake_step_pct (get_or "memory_high_step_pct" (whole (pos 0)) d)
  n ← require_positive_int (get_or "warning_consecutive_samples" (whole (pos 3)) d)
  some (record { memory_high = h; memory_high_step_pct = p; warning_consecutive_samples = n })

unfoldable pub parse_host_health : TomlTable → Option HostHealthSection
unfolding parse_disk parse_memory parse_pressure parse_brake
parse_host_health d = do
  _ ← reject_unknown_fields d ("disk" ∷ "memory" ∷ "pressure" ∷ "brake" ∷ [])
  disk_d ← require_table d "disk"
  mem_d ← require_table d "memory"
  pres_d ← require_table d "pressure"
  brake_d ← require_table d "brake"
  k ← parse_disk disk_d
  m ← parse_memory mem_d
  p ← parse_pressure pres_d
  b ← parse_brake brake_d
  some (record { disk = k; memory = m; pressure = p; brake = b })

abbrev pub default_auth_patterns : List String
default_auth_patterns =
    "\\b(oauth|unauthorized|401|api[_ ]key|auth(entication)?[_ -]?(failed|error|expired)|session.*expired)\\b"
    ∷ []

abbrev pub patterns_of : (String → Bool) → Option TomlValue → Option (List String)
patterns_of compiles none = some default_auth_patterns
patterns_of compiles (some v) = validate_regex_list compiles v

abbrev pub auto_stop_of : Option TomlValue → Option (List String)
auto_stop_of none = some ("oauth_fail" ∷ "disk_critical" ∷ [])
auto_stop_of (some v) = validate_auto_stop_on v

abbrev pub stale_of : Option TomlValue → Option (Option ℕ)
stale_of none = some none
stale_of (some v) = require_non_negative_int v >>= (λ n. some (some n))

-- The detector of repetitive tools can fire, or is off.
abbrev pub can_fire : ℕ → ℕ → Bool
can_fire threshold window = not (ltb 0 threshold && ltb 0 window && ltb window threshold)

unfoldable pub parse_monitor : (String → Bool) → TomlTable → Option MonitorSection
unfolding parse_host_health get_or str_of
parse_monitor compiles d = do
  _ ← reject_unknown_fields d (
      "auth_fail_patterns" ∷ "auth_fail_hint" ∷ "auto_stop_on" ∷ "remote_failure_tolerance_s"
      ∷ "anomaly_repetitive_window" ∷ "anomaly_repetitive_threshold" ∷ "host_health"
      ∷ "round_progress_interval_s" ∷ "supervisor_stale_threshold_s" ∷ [])
  hh_d ← require_table d "host_health"
  h ← parse_host_health hh_d
  ps ← patterns_of compiles (lookup "auth_fail_patterns" d)
  ns ← auto_stop_of (lookup "auto_stop_on" d)
  r ← validate_remote_failure_tolerance (get_or "remote_failure_tolerance_s" (whole (pos 90)) d)
  w ← require_non_negative_int (get_or "anomaly_repetitive_window" (whole (pos 0)) d)
  t ← require_non_negative_int (get_or "anomaly_repetitive_threshold" (whole (pos 0)) d)
  i ← require_non_negative_int (get_or "round_progress_interval_s" (whole (pos 0)) d)
  s ← stale_of (lookup "supervisor_stale_threshold_s" d)
  _ ← guard (can_fire t w)
  some (record {
    auth_fail_patterns = ps;
    auth_fail_hint = str_of (get_or "auth_fail_hint" (text "") d);
    auto_stop_on = ns;
    remote_failure_tolerance_s = r;
    anomaly_repetitive_window = w;
    anomaly_repetitive_threshold = t;
    host_health = h;
    round_progress_interval_s = i;
    supervisor_stale_threshold_s = s;
  })
