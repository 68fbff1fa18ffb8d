-- ===== src/Schedule.antt =====
-- agent_runner/schedule.py: run and pause windows, and the search for the next opening.
--
-- A local time is its minutes since Monday the first of January of year 1, 00:00 on the wall clock, and
-- the seconds beyond; `timedelta(minutes=k)` moves the wall clock.
mod Tests
pub mod Windows
pub mod Resume
pub mod Parse
pub mod Reading
pub mod Weekdays
pub mod Writing
use cli_agent_runner.Prelude.{
  ◌%◌, ◌&&◌, ◌*◌, ◌+◌, ◌/◌, ◌==◌, Bool, List, Option, String, [], any, if◌then◌else◌, false,
  is_empty, leb, ltb, none, not, some, suc, true, zero, ◌||◌, ℕ, ◌∷◌,
}

abbrev pub minutes_per_day : ℕ
minutes_per_day = 24 * 60

abbrev pub search_horizon_min : ℕ
search_horizon_min = 8 * minutes_per_day

-- `days` empty is every day.
pub record Window : Type 0 where
  pub start_min : ℕ
  pub end_min : ℕ
  pub label : String
  pub days : List ℕ

pub record LocalTime : Type 0 where
  pub minutes : ℕ
  pub seconds : ℕ

abbrev pub wraps : Window → Bool
wraps w = leb w.end_min w.start_min

-- `Window.contains`.
unfoldable pub contains : Window → ℕ → ℕ → Bool
contains w weekday minute =
    let in_time =
      if wraps w
      then leb w.start_min minute || ltb minute w.end_min
      else leb w.start_min minute && ltb minute w.end_min in
    let start_day = if wraps w && ltb minute w.end_min then (weekday + 6) % 7 else weekday in
    if not in_time
    then false
    else if is_empty w.days
    then true
    else any (λ d. d == start_day) w.days

unfoldable pub to_minutes : ℕ → ℕ → Bool → Option ℕ
to_minutes h m allow_24 =
    if h == 24
    then (if not allow_24 || not (m == 0) then none else some minutes_per_day)
    else if not (leb h 23)
    then none
    else if not (leb m 59)
    then none
    else some (h * 60 + m)

unfoldable pub minute_of_day : ℕ → ℕ
minute_of_day t = t % minutes_per_day

unfoldable pub weekday : ℕ → ℕ
weekday t = (t / minutes_per_day) % 7

-- At a minute of the wall clock; the seconds do not matter.
unfoldable pub should_run : ℕ → List Window → List Window → Bool
unfolding minute_of_day weekday contains
should_run t run_windows pause_windows =
    let in_run =
      is_empty run_windows || any (λ w. contains w (weekday t) (minute_of_day t)) run_windows in
    let in_pause = any (λ w. contains w (weekday t) (minute_of_day t)) pause_windows in
    in_run && not in_pause

-- The loop over the candidates: the next minute is t, and as many are left.
unfoldable pub search_from : ℕ → ℕ → List Window → List Window → Option ℕ
search_from zero t run_windows pause_windows = none
search_from (suc left) t run_windows pause_windows =
    let rest = search_from left (t + 1) run_windows pause_windows in
    if should_run t run_windows pause_windows then some t else rest

unfoldable pub next_resume_at : LocalTime → List Window → List Window → Option ℕ
unfolding search_from
next_resume_at now run_windows pause_windows =
    search_from search_horizon_min (now.minutes + 1) run_windows pause_windows

unfoldable pub active_window_label : ℕ → List Window → String
active_window_label t [] = "outside run_windows"
active_window_label t (w ∷ pause_windows) =
    let rest = active_window_label t pause_windows in
    if contains w (weekday t) (minute_of_day t) then w.label else rest

pub record PauseDecision : Type 0 where
  pub paused : Bool
  pub resume_at : Option ℕ
  pub active_window : Option String

unfoldable pub evaluate : List Window → List Window → LocalTime → PauseDecision
unfolding next_resume_at active_window_label
evaluate run_windows pause_windows now =
    let resume = next_resume_at now run_windows pause_windows in
    if should_run now.minutes run_windows pause_windows
    then record { paused = false; resume_at = none; active_window = none }
    else record {
      paused = true;
      resume_at = resume;
      active_window = some (active_window_label now.minutes pause_windows);
    }
