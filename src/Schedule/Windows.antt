-- ===== src/Schedule/Windows.antt =====
-- When a window of agent_runner/schedule.py covers a minute.
use cli_agent_runner.Schedule.{Window, contains, minutes_per_day, to_minutes, wraps}
use cli_agent_runner.Prelude.{
  ◌%◌, ◌&&◌, ◌+◌, ◌<◌, ◌==◌, Bool, any, arith, if◌then◌else◌, is_empty, leb, ltb, some, ◌||◌, ℕ,
  ◌≡◌, ◌≤◌, true, ◌⊎◌,
}

-- A window that `parse_window` can build.
pub record IsValid (w : Window) : Type 0 where
  pub starts_in_day : w.start_min < minutes_per_day
  pub ends_in_day : w.end_min ≤ minutes_per_day

-- Minutes from the midnight of the start day: a window that wraps ends on the next day.
abbrev pub stop_min : Window → ℕ
stop_min w = if wraps w then w.end_min + minutes_per_day else w.end_min

abbrev pub in_span : Window → ℕ → Bool
in_span w x = leb w.start_min x && ltb x (stop_min w)

abbrev pub allowed : Window → ℕ → Bool
allowed w d = is_empty w.days || any (λ e. e == d) w.days

-- A valid window covers a minute of a day exactly when that minute lies in the span that begins on
-- the day, or in the one that began on the day before, on a day that the window allows.
pub contains_span :
    (w : Window) (d m : ℕ)
    → IsValid w
    → m < minutes_per_day
    → contains w d m
      ≡ (allowed w d && in_span w m || allowed w ((d + 6) % 7) && in_span w (m + minutes_per_day))
unfolding contains
contains_span w d m v h = ground arith

-- Both bounds that `to_minutes` reads fit a window: a start below midnight, an end up to midnight.
pub to_minutes_bounds :
    (h m t : ℕ) (allow_24 : Bool)
    → to_minutes h m allow_24 ≡ some t
    → (t ≤ minutes_per_day) × ((allow_24 ≡ true) ⊎ (t < minutes_per_day))
unfolding to_minutes
to_minutes_bounds h m t allow_24 e = ground arith
