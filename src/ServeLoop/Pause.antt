-- ===== src/ServeLoop/Pause.antt =====
-- The pauses before a round: `_pause_poll`, the memory gate of agent_runner/cli/_serve_round.py, and
-- the two schedule pauses of agent_runner/cli/serve_cmd.py.
use cli_agent_runner.Clock.{ticks}
use cli_agent_runner.Schedule.{evaluate, should_run}
use cli_agent_runner.ServeLoop.{
  ServeConfig, ServeEvent, round_deferred, round_resumed, schedule_paused, schedule_resumed,
}
use cli_agent_runner.HostHealth.{HealthConfig, Sample, memory_pressure, pressure_is_critical}
use cli_agent_runner.PhaseSelect.{
  Config, Profile, Selection, Zones, candidate_phases, in_phases, runnable,
}
use cli_agent_runner.Prelude.{
  ◌*◌, ◌-◌, ◌/◌, Bool, List, Option, String, [], any, if◌then◌else◌, false, leb, none, not, select,
  some, true, ◌||◌, ℕ, ◌∷◌,
}

-- What one round of a pause's poll sees.
pub record Poll : Type 0 where
  pub stop_requested : Bool
  pub stop_file : Bool
  pub epoch : ℕ
  pub zones : Zones
  pub sample : Sample

-- `opened` is the result True and `cut` the result False; with `waiting` the polls ran out and the
-- pause goes on.
pub data PollResult : Type 0 where
  opened cut waiting : PollResult

-- The predicate may read and set a state: the previous memory sample.
unfoldable pub pause_poll :
    (Sample → Poll → Bool × Sample) → Sample → List Poll → PollResult × Sample
pause_poll runnable prev [] = (waiting, prev)
pause_poll runnable prev (p ∷ ps) =
    let (ready, next) = runnable prev p in
    let rest = pause_poll runnable next ps in
    if p.stop_requested
    then (cut, prev)
    else if p.stop_file
    then (cut, prev)
    else if ready
    then (opened, next)
    else rest

-- The clock at both ends of a pause.
pub record Span : Type 0 where
  pub started : ℕ
  pub ended : ℕ

abbrev pub seconds_of : Span → ℕ
seconds_of span = (span.ended - span.started) / ticks

-- A pause that was entered, or none; with the events and the memory sample kept.
pub record Paused : Type 0 where
  pub entered : Bool
  pub result : PollResult
  pub events : List ServeEvent
  pub prev_sample : Sample

abbrev pub on_opened : PollResult → ServeEvent → List ServeEvent
on_opened opened e = e ∷ []
on_opened _ e = []

abbrev not_entered : Sample → Paused
not_entered prev = record { entered = false; result = opened; events = []; prev_sample = prev }

abbrev healthy : HealthConfig → Sample → Poll → Bool × Sample
healthy cfg prev p = (not (pressure_is_critical (memory_pressure p.sample prev cfg)), p.sample)

-- `_maybe_pause_for_memory_pressure`.
unfoldable pub pause_for_memory : HealthConfig → Sample → Sample → Span → List Poll → Paused
unfolding memory_pressure pressure_is_critical pause_poll
pause_for_memory cfg prev sample span polls =
    let (result, last) = pause_poll (healthy cfg) sample polls in
    elim (memory_pressure sample prev cfg) [
      | none ↦ not_entered sample
      | some p ↦
          if pressure_is_critical (some p)
          then record {
            entered = true;
            result = result;
            events = round_deferred p ∷ on_opened result (round_resumed (seconds_of span));
            prev_sample = last;
          }
          else not_entered sample
    ]

abbrev pub window_open : Profile → Zones → Bool
window_open sched zones =
    should_run (zones.now_in_zone sched.timezone).minutes sched.run_windows sched.pause_windows

abbrev text_of : Option String → String
text_of none = ""
text_of (some s) = s

-- `_maybe_pause_for_schedule`, for a config that is not phase-aware.
unfoldable pub pause_for_schedule : ServeConfig → Sample → Zones → Span → List Poll → Paused
unfolding pause_poll
pause_for_schedule cfg prev zones span polls =
    let sched = cfg.schedule in
    let decision =
      evaluate sched.run_windows sched.pause_windows (zones.now_in_zone sched.timezone) in
    let (result, last) = pause_poll (λ s p. (window_open sched p.zones, s)) prev polls in
    if not cfg.schedule_enabled
    then not_entered prev
    else if not decision.paused
    then not_entered prev
    else record {
      entered = true;
      result = result;
      events =
          schedule_paused (text_of decision.active_window) decision.resume_at sched.timezone none
          ∷ on_opened result (schedule_resumed (seconds_of span));
      prev_sample = last;
    }

abbrev reached_wake : Option ℕ → ℕ → Bool
reached_wake none epoch = false
reached_wake (some wake) epoch = leb (wake * ticks) epoch

-- The candidates that are not throttled.
abbrev pub pollable : Config → ℕ → List String → List (Option String)
pollable cfg round_num throttled =
    select (λ p. not (in_phases p throttled)) (candidate_phases cfg round_num)

-- `_pause_until_selectable`: until the window of a candidate opens that is not throttled, or the wake.
unfoldable pub pause_until_selectable :
    ServeConfig → Sample → ℕ → Selection → List String → Option ℕ → Span → List Poll → Paused
unfolding pause_poll
pause_until_selectable cfg prev round_num sel throttled wake span polls =
    let phases = pollable cfg.phases round_num throttled in
    let runnable : Sample → Poll → Bool × Sample = λ s p. (
      reached_wake wake p.epoch
          || any (λ phase. window_open (cfg.phases.profile_for phase) p.zones) phases,
      s,
    ) in
    let (result, last) = pause_poll runnable prev polls in
    record {
      entered = true;
      result = result;
      events =
          schedule_paused (text_of sel.active_window) sel.resume_at sel.resume_timezone
            sel.resume_phase
          ∷ on_opened result (schedule_resumed (seconds_of span));
      prev_sample = last;
    }
