-- ===== src/MidRound/Watching.antt =====
-- The passes of the loop of `_spawn_round`, agent_runner/cli/_serve_round.py, and what follows it.
use cli_agent_runner.Clock.{ticks}
use cli_agent_runner.MidRound.Stages.{
  engage_brake, note_critical, note_growth, note_peaks, note_pressure, pressure_at,
}
use cli_agent_runner.MidRound.{
  Effect, Ending, Loop, Run, Step, Tick, Watch, exited, finished, mem_check_interval_s,
  memory_high_released, memory_high_write_failed, raised, reraised, round_end, supervisor_wedged,
  terminate_round, timeout, wedged,
}
use cli_agent_runner.Prelude.{
  ◌&&◌, ◌*◌, ◌+◌, ◌++◌, Bool, List, Option, [], if◌then◌else◌, false, is_some, leb, none, some, ℕ,
  ◌∷◌,
}

-- One memory check.
unfoldable pub check : Watch → Tick → Loop → Step
unfolding pressure_at note_peaks note_growth note_pressure engage_brake note_critical
check w t s =
    let p = pressure_at w t s in
    let grown = note_growth w t (note_peaks w t (record s { prev_tick_sample = some t.sample })) in
    let noted = note_pressure w t p grown.state in
    let braked = engage_brake w t p noted.state in
    let last = note_critical w t p braked.state in
    record last {
      state = record last.state { next_mem_check = t.at_end + mem_check_interval_s * ticks };
      effects = grown.effects ++ (noted.effects ++ (braked.effects ++ last.effects));
    }

unfoldable pub tick : Watch → Tick → Loop → Step
unfolding check
tick w t s =
    let quiet : Step = record { state = s; effects = []; ending = none } in
    elim t.wake [
      | exited rc ↦ record quiet { ending = some (finished rc) }
      | raised ↦ record quiet { effects = terminate_round ∷ []; ending = some reraised }
      | timeout ↦
          if leb w.deadline t.at_deadline
          then record quiet { ending = some wedged }
          else if leb s.next_mem_check t.at_check
          then check w t s
          else quiet
    ]

-- The restore of the `finally` block; `restored` says whether the write succeeds.
unfoldable pub final_release : Bool → Loop → List Effect
final_release restored s =
    if s.brake_engaged && is_some s.brake_previous
    then (if restored
        then memory_high_released round_end ∷ []
        else memory_high_write_failed none ∷ [])
    else []

stash : Watch → Loop → Ending → Option (ℕ × ℕ)
stash w s reraised = none
stash w s _ = if w.has_cgroup then some (s.cg_peak_current, s.cg_peak_swap) else none

-- What follows the loop: the `finally` block, and for a wedged round its kill.
unfoldable pub after_loop : Bool → Loop → Ending → List Effect
unfolding final_release
after_loop restored s wedged = final_release restored s ++ terminate_round ∷ supervisor_wedged ∷ []
after_loop restored s _ = final_release restored s

-- The loop over its ticks. Without an ending the round is still in flight.
unfoldable pub spawn_round : Watch → Bool → List Tick → Loop → Run
unfolding tick after_loop stash
spawn_round w restored [] s = record { effects = []; ending = none; stashed = none }
spawn_round w restored (t ∷ ts) s =
    let st = tick w t s in
    let rest = spawn_round w restored ts st.state in
    elim st.ending [
      | none ↦ record rest { effects = st.effects ++ rest.effects }
      | some e ↦ record {
        effects = st.effects ++ after_loop restored st.state e;
        ending = some e;
        stashed = stash w st.state e;
      }
    ]

-- The variables at the spawn, with the clock's reading and the cgroup's first figures.
unfoldable pub at_spawn : ℕ → ℕ → ℕ → Loop
at_spawn now current swap = record {
  brake_engaged = false;
  brake_previous = none;
  brake_disarmed = false;
  brake_restore_failed = false;
  warning_streak = 0;
  none_streak = 0;
  next_mem_check = now + mem_check_interval_s * ticks;
  prev_tick_sample = none;
  critical_streak = 0;
  nudged = false;
  cgroup_defer_notified = false;
  prev_mem = none;
  growth_warned = false;
  cg_peak_current = current;
  cg_peak_swap = swap;
}
