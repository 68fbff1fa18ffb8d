-- ===== src/MidRound/Stages.antt =====
-- The stages of one memory check of `_spawn_round`, agent_runner/cli/_serve_round.py.
use cli_agent_runner.HostHealth.{
  Pressure, Rate, Signal, cgroup_growth_rate_pressure, memory_pressure, or_zero,
  pressure_is_critical,
}
use cli_agent_runner.MidRound.{
  Action, Effect, Engage, Loop, Stage, Step, Tick, Watch, count_only, defer, deferred_to_cgroup,
  engaged_from, growth_rate_warning, mem_critical_sample, mem_terminated, memory_high_engaged,
  memory_high_released, memory_high_write_failed, mid_round_action, nudge, nudge_tier, refused,
  sigterm_leader, skipped, terminate, terminate_round, terminate_tier, terminated, recovered,
}
use cli_agent_runner.Prelude.{
  ◌&&◌, ◌*◌, ◌+◌, ◌++◌, ◌-◌, ◌==◌, Bool, List, Option, [], if◌then◌else◌, false, is_some, leb, max,
  none, not, some, true, ℕ, ◌∷◌,
}

unfoldable pub note_peaks : Watch → Tick → Loop → Loop
note_peaks w t s =
    if w.has_cgroup
    then record s {
      cg_peak_current = max s.cg_peak_current (or_zero t.cg_current);
      cg_peak_swap = max s.cg_peak_swap (or_zero t.cg_swap);
    }
    else s

-- MB per minute since the last reading; 0 where no time has passed or the memory shrank.
unfoldable pub growth_rate : Option (ℕ × ℕ) → ℕ → ℕ → Option Rate
growth_rate none bytes now = none
growth_rate (some (before, since)) bytes now =
    if now - since == 0
    then some (record { bytes = 0; elapsed = 1 })
    else some (record { bytes = bytes - before; elapsed = now - since })

unfoldable pub warn_growth : Bool → Option Rate → Option Pressure → Bool × List Effect
warn_growth warned (some rate) (some p) =
    (true, if warned then [] else growth_rate_warning rate ∷ [])
warn_growth warned _ _ = (false, [])

unfoldable pub note_growth : Watch → Tick → Loop → Stage
unfolding growth_rate warn_growth cgroup_growth_rate_pressure
note_growth w t s = elim (if w.has_cgroup then t.cg_current else t.rss_sum) [
  | none ↦ record { state = s; effects = [] }
  | some bytes ↦
      let rate = growth_rate s.prev_mem bytes t.at_growth in
      let (warned, effects) =
        warn_growth s.growth_warned rate (cgroup_growth_rate_pressure rate w.cfg) in
      record {
        state = record s { growth_warned = warned; prev_mem = some (bytes, t.at_growth) };
        effects = effects;
      }
]

-- The streaks of the brake, and its release once the pressure is gone for long enough.
unfoldable pub note_pressure : Watch → Tick → Option Pressure → Loop → Stage
note_pressure w t (some p) s = record {
  state = record s { warning_streak = s.warning_streak + 1; none_streak = 0 };
  effects = [];
}
note_pressure w t none s =
    let s = record s { warning_streak = 0; none_streak = s.none_streak + 1 } in
    if s.brake_engaged
      && is_some s.brake_previous
      && not s.brake_restore_failed
      && leb w.cfg.warning_consecutive_samples s.none_streak
    then (if t.restored
        then record {
          state = record s { brake_engaged = false; brake_previous = none };
          effects = memory_high_released recovered ∷ [];
        }
        else record {
          state = record s { brake_restore_failed = true };
          effects = memory_high_write_failed none ∷ [];
        })
    else record { state = s; effects = [] }

unfoldable pub apply_engage : Engage → Signal → Loop → Stage
apply_engage (engaged_from previous written current) signal s = record {
  state = record s { brake_engaged = true; brake_previous = some previous };
  effects = memory_high_engaged previous written current signal ∷ [];
}
apply_engage (refused errno) signal s = record {
  state = record s { brake_disarmed = true };
  effects = memory_high_write_failed (some errno) ∷ [];
}
apply_engage skipped signal s = record { state = s; effects = [] }

unfoldable pub engage_brake : Watch → Tick → Option Pressure → Loop → Stage
unfolding apply_engage
engage_brake w t none s = record { state = s; effects = [] }
engage_brake w t (some p) s =
    if is_some w.brake_step
      && not s.brake_disarmed
      && not s.brake_engaged
      && leb w.cfg.warning_consecutive_samples s.warning_streak
    then apply_engage t.engage p.signal s
    else record { state = s; effects = [] }

unfoldable pub act_on : Action → Tick → Loop → Step
act_on nudge t s = record {
  state = record s { nudged = true };
  effects = sigterm_leader ∷ mem_terminated s.critical_streak nudge_tier ∷ [];
  ending = none;
}
act_on terminate t s = record {
  state = s;
  effects = terminate_round ∷ mem_terminated s.critical_streak terminate_tier ∷ [];
  ending = some (terminated t.terminate_returncode);
}
act_on defer t s = record {
  state = record s { cgroup_defer_notified = true };
  effects = if s.cgroup_defer_notified then [] else deferred_to_cgroup ∷ [];
  ending = none;
}
act_on count_only t s = record { state = s; effects = []; ending = none }

unfoldable pub note_critical : Watch → Tick → Option Pressure → Loop → Step
unfolding act_on mid_round_action pressure_is_critical
note_critical w t p s =
    if pressure_is_critical p
    then (let s = record s { critical_streak = s.critical_streak + 1 } in
        let acted =
          act_on (mid_round_action w.cfg w.defer_to_cgroup s.critical_streak s.nudged) t s in
        record acted {
          effects =
              (if leb s.critical_streak (2 * w.cfg.critical_consecutive_samples)
                then mem_critical_sample s.critical_streak ∷ []
                else [])
              ++ acted.effects;
        })
    else record {
      state = record s { critical_streak = 0; cgroup_defer_notified = false };
      effects = [];
      ending = none;
    }

-- The sample of a tick against the one before it, or against itself on the first.
unfoldable pub pressure_at : Watch → Tick → Loop → Option Pressure
unfolding memory_pressure
pressure_at w t s = elim s.prev_tick_sample [
  | none ↦ memory_pressure t.sample t.sample w.cfg
  | some before ↦ memory_pressure t.sample before w.cfg
]
