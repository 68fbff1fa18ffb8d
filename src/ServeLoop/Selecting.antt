-- ===== src/ServeLoop/Selecting.antt =====
-- What the loop of `cmd` keeps and reads, and `_select_and_gate`, of agent_runner/cli/serve_cmd.py.
use cli_agent_runner.PhaseSelect.{Zones, select_phase}
use cli_agent_runner.ServeRound.{Streaks}
use cli_agent_runner.HostHealth.{Sample}
use cli_agent_runner.ServeLoop.Pause.{
  Paused, Poll, PollResult, Span, cut, opened, pause_for_memory, pause_for_schedule,
  pause_until_selectable, waiting,
}
use cli_agent_runner.Throttle.Scan.{Log}
use cli_agent_runner.Event.{Event}
use cli_agent_runner.ServeLoop.{
  ErrorAction, ServeConfig, ServeEvent, phase_aware, rate_limit_stop, schedule_phase_skipped, stop,
}
use cli_agent_runner.ServeLoop.Gate.{BackOffReadings}
use cli_agent_runner.Prelude.{
  ◌&&◌, Bool, List, Option, String, [], if◌then◌else◌, false, is_empty, none, not, true, ℕ, ℤ, ◌∷◌,
}

pub record Serve : Type 0 where
  pub requested : Bool
  pub rounds_completed : ℕ
  pub streaks : Streaks
  pub prev_sample : Sample

-- What a pass reads. The three `stop` fields say whether a signal has arrived by the top of the
-- loop, by the end of the selection and by the end of the round. The restart sleep at the end of a
-- pass changes nothing that the loop keeps.
pub record Readout : Type 0 where
  pub stop_at_top : Bool
  pub sentinel : Bool
  pub log_before : Log
  pub now_before : ℕ
  pub back_off : BackOffReadings
  pub stop_file : Bool
  pub round_num : ℕ
  pub sample : Sample
  pub zones : Zones
  pub span : Span
  pub polls : List Poll
  pub stop_after_selection : Bool
  pub returncode : ℤ
  pub duration : ℕ
  pub log_after : Log
  pub now_after : ℕ
  pub cgroup_events : List Event
  pub stop_after_round : Bool

-- `hold` is the sentinel `_PAUSED_CONTINUE`, `idle` a pause that goes on.
pub data Choice : Type 0 where
  launch : (phase : Option String) → Choice
  hold idle : Choice

pub record Selected : Type 0 where
  pub choice : Choice
  pub events : List ServeEvent
  pub requested : Bool
  pub prev_sample : Sample

abbrev after_pause : PollResult → Choice
after_pause opened = hold
after_pause cut = hold
after_pause waiting = idle

unfoldable pub of_pause : Paused → Selected
of_pause p = record {
  choice = after_pause p.result;
  events = p.events;
  requested = false;
  prev_sample = p.prev_sample;
}

abbrev stops_on_error : ErrorAction → Bool
stops_on_error stop = true
stops_on_error _ = false

-- The phase-aware half of `_select_and_gate`.
unfoldable pub select_aware : ServeConfig → Readout → Sample → List String → Option ℕ → Selected
unfolding of_pause select_phase pause_until_selectable
select_aware cfg t prev throttled wake =
    let sel = select_phase cfg.phases t.zones t.round_num throttled in
    if sel.paused
    then (if not (is_empty throttled) && stops_on_error cfg.transient_error_action
        then record {
          choice = hold;
          events = rate_limit_stop ∷ [];
          requested = true;
          prev_sample = prev;
        }
        else of_pause
            (pause_until_selectable cfg prev t.round_num sel throttled wake t.span t.polls))
    else record {
      choice = launch sel.phase;
      events =
          if is_empty sel.skipped then [] else schedule_phase_skipped sel.skipped sel.phase ∷ [];
      requested = false;
      prev_sample = prev;
    }

unfoldable pub select_and_gate : ServeConfig → Readout → Sample → List String → Option ℕ → Selected
unfolding select_aware pause_for_memory pause_for_schedule phase_aware of_pause
select_and_gate cfg t prev throttled wake =
    let memory = pause_for_memory cfg.health prev t.sample t.span t.polls in
    let plain : Sample → Selected =
      λ s. record { choice = launch none; events = []; requested = false; prev_sample = s } in
    let closed = pause_for_schedule cfg memory.prev_sample t.zones t.span t.polls in
    let aware = select_aware cfg t memory.prev_sample throttled wake in
    if memory.entered
    then of_pause memory
    else if cfg.ignore_schedule
    then plain memory.prev_sample
    else if phase_aware cfg
    then aware
    else if closed.entered
    then of_pause closed
    else plain closed.prev_sample
