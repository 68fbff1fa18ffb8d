-- ===== src/PhaseSelect.antt =====
-- agent_runner/phase_select.py: which phase runs this round, and the check for colliding windows.
--
-- The time zones are a parameter (`Zones`): the wall clock in a zone, and the instant, in minutes, of a
-- wall-clock minute of a zone, by which aware datetimes are compared.
mod Tests
pub mod Overlap
pub mod Rotation
pub mod Choice
use cli_agent_runner.Schedule.{
  LocalTime, PauseDecision, Window, contains, evaluate, minutes_per_day, should_run,
}
use cli_agent_runner.Prelude.{
  ◌%◌, ◌&&◌, ◌+◌, ◌++◌, ◌-◌, Bool, Dict, List, Option, String, [], any, if◌then◌else◌, false,
  get_elem?, is_empty, length, lookup, ltb, none, not, some, str_eq, suc, true, zero, ◌||◌, ℕ, ◌∷◌,
}

pub record Zones : Type 0 where
  pub now_in_zone : Option String → LocalTime
  pub instant : Option String → ℕ → ℕ

pub record Profile : Type 0 where
  pub run_windows : List Window
  pub pause_windows : List Window
  pub timezone : Option String

-- The phase override: whether it overrides the agent, and its own schedule.
pub record Override : Type 0 where
  pub agent : Bool
  pub schedule : Option Profile

-- What the module reads of the config: `phases` is empty where there is no `[phases]` list, and
-- `skips` says that the policy is "skip".
pub record Config : Type 0 where
  pub phases : List String
  pub skips : Bool
  pub overrides : Dict Override
  pub profile_for : Option String → Profile

-- `(round_num - 1) % n` with Python's sign, for a positive n.
unfoldable pub rotation_index : ℕ → ℕ → ℕ
rotation_index round_num n = (round_num + n - 1) % n

-- `phases[(k0 + i) % n]` for the next i, as many as are left. An index in range has an element.
unfoldable pub rotate_from : List String → ℕ → ℕ → ℕ → ℕ → List (Option String)
rotate_from phases k0 n zero i = []
rotate_from phases k0 n (suc left) i =
    get_elem? phases ((k0 + i) % n) ∷ rotate_from phases k0 n left (i + 1)

unfoldable pub candidate_phases : Config → ℕ → List (Option String)
unfolding rotate_from rotation_index
candidate_phases cfg round_num =
    let n = length cfg.phases in
    let k0 = rotation_index round_num n in
    if is_empty cfg.phases
    then none ∷ []
    else if cfg.skips
    then rotate_from cfg.phases k0 n n 0
    else get_elem? cfg.phases k0 ∷ []

pub record Selection : Type 0 where
  pub phase : Option String
  pub paused : Bool
  pub resume_at : Option ℕ
  pub resume_phase : Option String
  pub resume_timezone : Option String
  pub skipped : List String
  pub active_window : Option String

-- The earliest-opening closed candidate so far.
pub record Best : Type 0 where
  pub resume_at : ℕ
  pub phase : Option String
  pub window : Option String
  pub timezone : Option String

abbrev pub in_phases : Option String → List String → Bool
in_phases none throttled = false
in_phases (some p) throttled = any (λ q. str_eq q p) throttled

-- A candidate is runnable where its window is open and its phase is not throttled.
unfoldable pub runnable : Config → Zones → List String → Option String → Bool
runnable cfg zones throttled phase =
    let sched = cfg.profile_for phase in
    not (in_phases phase throttled)
    && should_run (zones.now_in_zone sched.timezone).minutes sched.run_windows sched.pause_windows

unfoldable pub decision_for : Config → Zones → Option String → PauseDecision
decision_for cfg zones phase =
    let sched = cfg.profile_for phase in
    evaluate sched.run_windows sched.pause_windows (zones.now_in_zone sched.timezone)

unfoldable pub improves : Zones → Option String → ℕ → Option Best → Bool
improves zones timezone resume none = true
improves zones timezone resume (some b) =
    ltb (zones.instant timezone resume) (zones.instant b.timezone b.resume_at)

-- The best after a closed candidate that is not throttled.
unfoldable pub better : Config → Zones → Option String → Option Best → Option Best
unfolding improves decision_for
better cfg zones phase best =
    let decision = decision_for cfg zones phase in
    let timezone = (cfg.profile_for phase).timezone in
    elim decision.resume_at [
      | none ↦ best
      | some resume ↦
          if improves zones timezone resume best
          then some (record {
            resume_at = resume;
            phase = phase;
            window = decision.active_window;
            timezone = timezone;
          })
          else best
    ]

abbrev pub with_phase : List String → Option String → List String
with_phase skipped none = skipped
with_phase skipped (some p) = skipped ++ p ∷ []

unfoldable pub pause_selection : Option String → Option Best → Selection
pause_selection rotation_window none = record {
  phase = none;
  paused = true;
  resume_at = none;
  resume_phase = none;
  resume_timezone = none;
  skipped = [];
  active_window = rotation_window;
}
pause_selection rotation_window (some b) = record {
  phase = none;
  paused = true;
  resume_at = some b.resume_at;
  resume_phase = b.phase;
  resume_timezone = b.timezone;
  skipped = [];
  active_window = b.window;
}

-- The loop over the candidates. `first` says that the candidate is the round's own phase (i = 0).
unfoldable pub select_from :
    Config
    → Zones
    → List String
    → Bool
    → List String
    → Option String
    → Option Best
    → List (Option String)
    → Selection
unfolding pause_selection
select_from cfg zones throttled first skipped rotation_window best [] =
    pause_selection rotation_window best
select_from cfg zones throttled first skipped rotation_window best (phase ∷ order) =
    let closed = not (in_phases phase throttled) in
    let rest =
      select_from cfg zones throttled false (with_phase skipped phase)
        (if closed && first then (decision_for cfg zones phase).active_window else rotation_window)
        (if closed then better cfg zones phase best else best) order in
    if runnable cfg zones throttled phase
    then record {
      phase = phase;
      paused = false;
      resume_at = none;
      resume_phase = none;
      resume_timezone = none;
      skipped = skipped;
      active_window = rotation_window;
    }
    else rest

unfoldable pub select_phase : Config → Zones → ℕ → List String → Selection
unfolding select_from
select_phase cfg zones round_num throttled =
    select_from cfg zones throttled true [] none none (candidate_phases cfg round_num)
