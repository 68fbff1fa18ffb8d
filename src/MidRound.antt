-- ===== src/MidRound.antt =====
-- `_spawn_round` of agent_runner/cli/_serve_round.py from the spawn on: the round is watched under a
-- deadline, and every ten seconds the memory is sampled. A tick is one pass of its loop, with what it
-- reads of the clock, the host and the cgroup files; what it does to the outside is a list of effects.
mod Tests
pub mod Stages
pub mod Watching
pub mod Steps
pub mod Brake
pub mod Floor
pub mod Nudge
pub mod FirstSample
pub mod Tiers
use cli_agent_runner.Clock.{ticks}
use cli_agent_runner.HostHealth.{
  HealthConfig, Pressure, Rate, Sample, Signal, cgroup_growth_rate_pressure, memory_pressure,
  or_zero, pressure_is_critical,
}
use cli_agent_runner.Prelude.{
  ◌&&◌, ◌*◌, ◌+◌, ◌++◌, ◌-◌, ◌==◌, Bool, List, Option, String, [], if◌then◌else◌, false, leb, max,
  none, not, some, true, ℕ, ℤ, ◌∷◌, is_some,
}

abbrev pub mem_check_interval_s : ℕ
mem_check_interval_s = 10

pub data Action : Type 0 where
  terminate defer count_only nudge : Action

unfoldable pub mid_round_action : HealthConfig → Bool → ℕ → Bool → Action
mid_round_action cfg defer_to_cgroup critical_streak nudged =
    if cfg.in_round_terminate && leb cfg.critical_consecutive_samples critical_streak
    then (if defer_to_cgroup then defer else terminate)
    else if cfg.in_round_nudge
        && not nudged
        && critical_streak == 1
        && cfg.in_round_terminate
        && not defer_to_cgroup
    then nudge
    else count_only

-- What the round's loop does not change. `has_cgroup` says that the first read of the cgroup was not
-- empty, `brake_step` is the result of `_brake_step_for`.
pub record Watch : Type 0 where
  pub cfg : HealthConfig
  pub defer_to_cgroup : Bool
  pub deadline : ℕ
  pub has_cgroup : Bool
  pub brake_step : Option ℕ

-- The variables of the loop. The bytes and the reading of the last memory sample are set together.
pub record Loop : Type 0 where
  pub brake_engaged : Bool
  pub brake_previous : Option String
  pub brake_disarmed : Bool
  pub brake_restore_failed : Bool
  pub warning_streak : ℕ
  pub none_streak : ℕ
  pub next_mem_check : ℕ
  pub prev_tick_sample : Option Sample
  pub critical_streak : ℕ
  pub nudged : Bool
  pub cgroup_defer_notified : Bool
  pub prev_mem : Option (ℕ × ℕ)
  pub growth_warned : Bool
  pub cg_peak_current : ℕ
  pub cg_peak_swap : ℕ

-- `metrics.engage_leaf_memory_high`: engaged, refused by the system, or nothing to do.
pub data Engage : Type 0 where
  engaged_from : (previous : String) (written memory_current : ℕ) → Engage
  refused : (errno : ℕ) → Engage
  skipped : Engage

-- `wait_exit`, with the exit code where it is reaped; `raised` is an exception out of the wait.
pub data Wake : Type 0 where
  exited : (returncode : ℤ) → Wake
  timeout raised : Wake

pub record Tick : Type 0 where
  pub wake : Wake
  pub at_deadline : ℕ
  pub at_check : ℕ
  pub sample : Sample
  pub cg_current : Option ℕ
  pub cg_swap : Option ℕ
  pub rss_sum : Option ℕ
  pub at_growth : ℕ
  pub restored : Bool
  pub engage : Engage
  pub terminate_returncode : ℤ
  pub at_end : ℕ

pub data Reason : Type 0 where
  recovered round_end : Reason

pub data Tier : Type 0 where
  nudge_tier terminate_tier : Tier

-- The events, `_terminate_round`, and the bare SIGTERM to the leader.
pub data Effect : Type 0 where
  growth_rate_warning : (rate : Rate) → Effect
  memory_high_engaged : (previous : String) (written memory_current : ℕ) (signal : Signal) → Effect
  memory_high_released : (reason : Reason) → Effect
  memory_high_write_failed : (errno : Option ℕ) → Effect
  mem_critical_sample : (consecutive : ℕ) → Effect
  mem_terminated : (consecutive : ℕ) (tier : Tier) → Effect
  deferred_to_cgroup supervisor_wedged terminate_round sigterm_leader : Effect

pub record Stage : Type 0 where
  pub state : Loop
  pub effects : List Effect

pub data Ending : Type 0 where
  finished terminated : (returncode : ℤ) → Ending
  wedged reraised : Ending

pub record Step : Type 0 where
  pub state : Loop
  pub effects : List Effect
  pub ending : Option Ending

pub record Run : Type 0 where
  pub effects : List Effect
  pub ending : Option Ending
  pub stashed : Option (ℕ × ℕ)
