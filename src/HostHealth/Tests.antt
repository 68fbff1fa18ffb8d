-- ===== src/HostHealth/Tests.antt =====
-- Samples of hosts, and what the ladder says of them.
use cli_agent_runner.Prelude.{false, none, pos, refl, some, true, ℕ, ◌≡◌}
use cli_agent_runner.HostHealth.{
  HealthConfig, Pressure, Sample, critical, memory_pressure, swap_context, swap_out_rate,
}

abbrev pub defaults : HealthConfig
defaults = record {
  full_critical = 6000;
  some_warning = 500;
  swap_out_noise_floor_mb = 32;
  free_low_mb = 16;
  avail_min_mb = 200;
  critical_consecutive_samples = 3;
  in_round_terminate = true;
  in_round_nudge = false;
  growth_rate_warning = 51200;
  warning_consecutive_samples = 3;
}

abbrev pub stalled_host : Sample
stalled_host = record {
  psi_some = some 8000;
  psi_full = some 7000;
  swap_sout = some 0;
  mem_free_mb = some 10;
  mem_available_mb = some 300;
}

abbrev swapping_host : ℕ → Sample
swapping_host sout = record {
  psi_some = none;
  psi_full = none;
  swap_sout = some sout;
  mem_free_mb = some 10;
  mem_available_mb = some 300;
}

abbrev dying : Pressure
dying = record {
  severity = critical;
  signal = swap_out_rate;
  context = swap_context (pos 40000000) (some 10);
}

swapping_is_critical :
    memory_pressure (swapping_host 41000000) (swapping_host 1000000) defaults ≡ some dying
unfolding memory_pressure
swapping_is_critical = refl
