-- ===== src/PhaseSelect/Tests.antt =====
-- A config of three phases, and the theorems about agent_runner/phase_select.py at it.
use cli_agent_runner.PhaseSelect.Overlap.{find_phase_window_overlaps, windows_collide}
use cli_agent_runner.Schedule.{Window, evaluate, next_resume_at, should_run}
use cli_agent_runner.Prelude.{
  List, Option, String, [], if◌then◌else◌, none, refl, some, str_eq, true, ℕ, ◌∷◌,
}
use cli_agent_runner.PhaseSelect.Choice.{Launches, select_phase-Launches}
use cli_agent_runner.PhaseSelect.{
  Config, Profile, Zones, better, candidate_phases, decision_for, runnable, select_phase,
}

abbrev window : ℕ → ℕ → Window
window opens closes = record { start_min = opens; end_min = closes; label = "w"; days = [] }

abbrev profile : List Window → Profile
profile windows = record { run_windows = windows; pause_windows = []; timezone = none }

-- `plan` runs from 10:00, `build` from 09:00, `test` always.
profiles : Option String → Profile
unfolding str_eq
profiles none = profile []
profiles (some p) =
    if str_eq p "plan"
    then profile (window 600 700 ∷ [])
    else if str_eq p "build"
    then profile (window 540 580 ∷ [])
    else profile []

abbrev cfg : Config
cfg = record {
  phases = "plan" ∷ "build" ∷ "test" ∷ [];
  skips = true;
  overrides = [];
  profile_for = profiles;
}

-- 08:00 in every zone.
abbrev zones : Zones
zones = record { now_in_zone = λ tz. record { minutes = 480; seconds = 0 }; instant = λ tz m. m }

program : Unit {0}
unfolding select_phase candidate_phases runnable better decision_for evaluate next_resume_at
    should_run profiles find_phase_window_overlaps windows_collide
program = tt

select_phase-Launches_example :
    Launches cfg zones [] [] (candidate_phases cfg 1) (select_phase cfg zones 1 [])
unfolding program
select_phase-Launches_example = select_phase-Launches cfg zones 1 [] refl
