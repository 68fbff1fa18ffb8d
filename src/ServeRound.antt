-- ===== src/ServeRound.antt =====
-- `post_round_verdicts` of agent_runner/cli/_serve_round.py: the three breakers after a round, resolved
-- to one verdict. `none` as a result is the exception of a stamp that does not parse. What the two
-- cgroup calls emit (agent_runner/cli/_serve_cgroup.py) is an argument: they do not change the verdict.
mod Tests
pub mod Verdicts
pub mod History
use cli_agent_runner.Throttle.Window.{mem_loop_events_in_window}
use cli_agent_runner.RoundOutcome.{RoundOutcome, round_had_no_progress}
use cli_agent_runner.ServePolicy.{
  Round, Verdict, config_broken, crash_loop, crash_loop_exit, mem_loop, mem_loop_decision,
  no_progress_decision, permanent_config_exit, post_round_decision, stalled_no_progress,
}
use cli_agent_runner.Throttle.Scan.{Log}
use cli_agent_runner.Event.{Event}
use cli_agent_runner.Prelude.{
  ◌+◌, ◌++◌, List, Option, [], if◌then◌else◌, leb, map, none, some, ℕ, ℤ, ◌∷◌,
}
use mathlib.Core.Option

abbrev pub no_progress_short_s : ℕ
no_progress_short_s = 30

abbrev pub mem_loop_exit : ℕ
mem_loop_exit = 71

abbrev pub mem_loop_persistent_exit : ℕ
mem_loop_persistent_exit = 70

abbrev pub mem_loop_persist_window_s : ℕ
mem_loop_persist_window_s = 7200

abbrev pub mem_loop_persist_threshold : ℕ
mem_loop_persist_threshold = 3

pub record Streaks : Type 0 where
  pub crashes : ℕ
  pub mem_terminations : ℕ
  pub no_progress : ℕ

-- The give-up events, one constructor for each `emit_` function; `cgroup` stands for the events of
-- the two cgroup calls.
pub data GiveUp : Type 0 where
  config_broken_event : (exit_code : ℤ) → GiveUp
  mem_loop_persistent_event mem_loop_event crash_loop_event stalled_event :
      (consecutive : ℕ) (exit_code : ℤ) → GiveUp
  cgroup : Event → GiveUp

pub record Outcome : Type 0 where
  pub exit_code : Option ℕ
  pub delay_s : ℕ
  pub streaks : Streaks
  pub emitted : List GiveUp

-- The precedence of the verdicts. `occurrence` is the count of `mem_loop` events in the window and
-- is read only for a memory loop.
unfoldable pub resolve : Verdict → Verdict → Verdict → Option ℕ → ℤ → ℕ → Streaks → Option Outcome
resolve config_broken m p occurrence rc delay s = some (record {
  exit_code = some permanent_config_exit;
  delay_s = delay;
  streaks = s;
  emitted = config_broken_event rc ∷ [];
})
resolve action mem_loop p none rc delay s = none
resolve action mem_loop p (some n) rc delay s =
    if leb mem_loop_persist_threshold (n + 1)
    then some (record {
      exit_code = some mem_loop_persistent_exit;
      delay_s = delay;
      streaks = s;
      emitted = mem_loop_persistent_event (n + 1) rc ∷ [];
    })
    else some (record {
      exit_code = some mem_loop_exit;
      delay_s = delay;
      streaks = s;
      emitted = mem_loop_event s.mem_terminations rc ∷ [];
    })
resolve crash_loop m p occurrence rc delay s = some (record {
  exit_code = some crash_loop_exit;
  delay_s = delay;
  streaks = s;
  emitted = crash_loop_event s.crashes rc ∷ [];
})
resolve action m stalled_no_progress occurrence rc delay s = some (record {
  exit_code = some crash_loop_exit;
  delay_s = delay;
  streaks = s;
  emitted = stalled_event s.no_progress rc ∷ [];
})
resolve action m p occurrence rc delay s =
    some (record { exit_code = none; delay_s = delay; streaks = s; emitted = [] })

unfoldable pub prepend : List Event → Outcome → Outcome
prepend evs o = record o { emitted = map cgroup evs ++ o.emitted }

-- The round that ended, the streaks before it, and what is read back from the log.
unfoldable pub post_round_verdicts :
    Round → RoundOutcome → Streaks → ℕ → Log → ℕ → List Event → Option Outcome
unfolding prepend post_round_decision mem_loop_decision no_progress_decision resolve
post_round_verdicts r outcome s restart_delay_s log now cgroup_events =
    let decision = post_round_decision r s.crashes restart_delay_s in
    let (mem_action, mems) = mem_loop_decision outcome.mem_terminated s.mem_terminations in
    elim (round_had_no_progress r.returncode r.duration no_progress_short_s r.throttle_active
      outcome) [
        | none ↦ none
        | some stuck ↦
            let (stuck_action, stucks) = no_progress_decision stuck s.no_progress in
            let streaks : Streaks = record {
              crashes = decision.consecutive;
              mem_terminations = mems;
              no_progress = stucks;
            } in
            Option.map (prepend cgroup_events) (
              resolve decision.action mem_action stuck_action
                (mem_loop_events_in_window log now mem_loop_persist_window_s) r.returncode
                decision.delay_s streaks)
      ]
