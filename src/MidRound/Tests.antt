-- ===== src/MidRound/Tests.antt =====
-- Rounds under pressure.
use cli_agent_runner.MidRound.Tiers.{floor_acts_iff}
use cli_agent_runner.MidRound.Watching.{at_spawn, check, spawn_round, tick}
use cli_agent_runner.MidRound.{
  Tick, Wake, Watch, engaged_from, exited, mem_critical_sample, mem_terminated, memory_high_engaged,
  memory_high_released, nudge_tier, round_end, sigterm_leader, terminate_round, terminate_tier,
  terminated, timeout, recovered,
}
use cli_agent_runner.Clock.{ticks}
use cli_agent_runner.MidRound.Floor.{is_terminated, samples}
use cli_agent_runner.MidRound.Nudge.{is_nudge}
use cli_agent_runner.MidRound.Brake.{brake_released, is_engage, is_release}
use cli_agent_runner.HostHealth.{HealthConfig, Sample, memory_pressure, psi}
use cli_agent_runner.Prelude.{
  ◌*◌, List, [], arith, count_if, false, negsuc, none, pos, refl, some, true, ℕ, ◌∷◌, ◌≡◌,
}

abbrev quiet_host : Sample
quiet_host = record {
  psi_some = some 0;
  psi_full = some 0;
  swap_sout = some 0;
  mem_free_mb = some 100;
  mem_available_mb = some 300;
}

abbrev stalling_host : Sample
stalling_host = record {
  psi_some = some 8000;
  psi_full = some 7000;
  swap_sout = some 0;
  mem_free_mb = some 10;
  mem_available_mb = some 300;
}

abbrev config : HealthConfig
config = record {
  full_critical = 6000;
  some_warning = 500;
  swap_out_noise_floor_mb = 32;
  free_low_mb = 16;
  avail_min_mb = 200;
  critical_consecutive_samples = 2;
  in_round_terminate = true;
  in_round_nudge = true;
  growth_rate_warning = 51200;
  warning_consecutive_samples = 1;
}

abbrev watch : Watch
watch = record {
  cfg = config;
  defer_to_cgroup = false;
  deadline = 1000 * ticks;
  has_cgroup = true;
  brake_step = some 0;
}

abbrev at : ℕ → Wake → Sample → Tick
at now wake sample = record {
  wake = wake;
  at_deadline = now * ticks;
  at_check = now * ticks;
  sample = sample;
  cg_current = some 1000;
  cg_swap = some 0;
  rss_sum = none;
  at_growth = now * ticks;
  restored = true;
  engage = engaged_from "max" 900 1000;
  terminate_returncode = negsuc 14;
  at_end = now * ticks;
}

abbrev stalling : List Tick
stalling = at 10 timeout stalling_host ∷ at 20 timeout stalling_host ∷ []

abbrev passing : List Tick
passing =
    at 10 timeout stalling_host ∷ at 20 timeout quiet_host ∷ at 25 (exited (pos 0)) quiet_host ∷ []

program : Unit {0}
unfolding spawn_round at_spawn tick check samples memory_pressure
program = tt

killed : spawn_round watch true stalling (at_spawn 0 500 0) ≡ record {
  effects =
      memory_high_engaged "max" 900 1000 psi
      ∷ mem_critical_sample 1
      ∷ sigterm_leader
      ∷ mem_terminated 1 nudge_tier
      ∷ mem_critical_sample 2
      ∷ terminate_round
      ∷ mem_terminated 2 terminate_tier
      ∷ memory_high_released round_end
      ∷ [];
  ending = some (terminated (negsuc 14));
  stashed = some (1000, 0);
}
unfolding program
killed = refl

recovers :
    (spawn_round watch true passing (at_spawn 0 500 0)).effects
    ≡ memory_high_engaged "max" 900 1000 psi
      ∷ mem_critical_sample 1
      ∷ sigterm_leader
      ∷ mem_terminated 1 nudge_tier
      ∷ memory_high_released recovered
      ∷ []
unfolding program
recovers = refl

floor_acts_iff_example :
    (is_terminated (spawn_round watch true stalling (at_spawn 0 500 0)).ending ≡ true)
    × (count_if is_nudge (spawn_round watch true stalling (at_spawn 0 500 0)).effects ≡ 1)
unfolding program
floor_acts_iff_example = floor_acts_iff watch true stalling 0 500 0 (omega arith)

brake_released_example :
    count_if is_engage (spawn_round watch true stalling (at_spawn 0 500 0)).effects
    ≡ count_if is_release (spawn_round watch true stalling (at_spawn 0 500 0)).effects
unfolding program
brake_released_example = brake_released watch stalling 0 500 0 (terminated (negsuc 14)) refl
