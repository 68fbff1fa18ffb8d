-- ===== src/ServeLoop.antt =====
-- The loop of `cmd` of agent_runner/cli/serve_cmd.py: the gates before a round, the phase it launches,
-- and what its end does to the loop. A pass of the loop reads its surroundings from a `Pass`; what it
-- emits is a list of events. The round itself is MidRound, its verdicts are ServeRound.
mod Tests
pub mod Pause
pub mod Gate
pub mod Selecting
pub mod Pass
pub mod Around
pub mod Routing
pub mod Rounds
pub mod Calm
pub mod Exit
use cli_agent_runner.MidRound.{skipped}
use cli_agent_runner.HostHealth.{HealthConfig, Pressure}
use cli_agent_runner.ServeRound.{GiveUp}
use cli_agent_runner.Throttle.Sleep.{Emission}
use cli_agent_runner.PhaseSelect.{Config, Profile}
use cli_agent_runner.Throttle.Active.{Cleared}
use cli_agent_runner.Prelude.{
  ◌%◌, ◌&&◌, ◌==◌, Bool, List, Option, String, any, if◌then◌else◌, false, is_empty, negsuc, none,
  not, pos, some, ◌||◌, ℕ, ℤ, is_some,
}

-- `transient_error_action`.
pub data ErrorAction : Type 0 where
  back_off skip stop : ErrorAction

-- What the loop reads of the config and the arguments. `binary` is the agent of a phase,
-- `cfg.profile_for(phase).agent.binary`.
pub record ServeConfig : Type 0 where
  pub phases : Config
  pub binary : Option String → String
  pub ignore_schedule : Bool
  pub once : Bool
  pub max_rounds : Option ℕ
  pub transient_error_action : ErrorAction
  pub schedule_enabled : Bool
  pub schedule : Profile
  pub restart_delay_s : ℕ
  pub health : HealthConfig

pub data ServeEvent : Type 0 where
  rate_limit_stop : ServeEvent
  back_off_event : Emission → ServeEvent
  recovered_breadcrumb : Cleared → ServeEvent
  round_deferred : Pressure → ServeEvent
  round_resumed : (deferred_for_s : ℕ) → ServeEvent
  schedule_paused :
      (active_window : String) (resume_at : Option ℕ) (timezone phase : Option String) → ServeEvent
  schedule_resumed : (paused_for_s : ℕ) → ServeEvent
  schedule_phase_skipped : (skipped : List String) (chosen : Option String) → ServeEvent
  stop_file_detected : (rounds_completed : ℕ) → ServeEvent
  max_rounds_reached : (rounds_completed max_rounds : ℕ) → ServeEvent
  give_up : GiveUp → ServeEvent

-- The effective limit; `none` as a result is the ValueError of a limit below one.
unfoldable pub resolve_max_rounds : Option ℤ → Option ℕ → Option (Option ℕ)
resolve_max_rounds none config_value = elim config_value [
  | none ↦ some none
  | some n ↦ if n == 0 then none else some (some n)
]
resolve_max_rounds (some (negsuc n)) config_value = none
resolve_max_rounds (some (pos n)) config_value = if n == 0 then none else some (some n)

unfoldable pub phase_aware : ServeConfig → Bool
phase_aware cfg =
    not (is_empty cfg.phases.phases)
    && (cfg.phases.skips || any (λ entry. is_some entry.1.schedule) cfg.phases.overrides)

unfoldable pub skip_around : ServeConfig → Bool
unfolding phase_aware
skip_around cfg = phase_aware cfg && cfg.phases.skips && not cfg.ignore_schedule

unfoldable pub is_fresh_eyes_round : ℕ → Option ℕ → Bool
is_fresh_eyes_round round_num none = false
is_fresh_eyes_round round_num (some n) = if round_num == 0 then false else round_num % n == 0
