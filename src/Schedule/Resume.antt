-- ===== src/Schedule/Resume.antt =====
-- The next opening, in agent_runner/schedule.py.
use native.Mathlib.Decide.{dec_le, ℕ_discrete}
use cli_agent_runner.Schedule.{
  LocalTime, Window, minutes_per_day, next_resume_at, search_from, search_horizon_min, should_run,
}
use cli_agent_runner.Prelude.{
  ◌%◌, ◌*◌, ◌+◌, ◌-◌, ◌/◌, ◌<◌, List, arith, false, none, some, suc, true, zero, ℕ, ◌∙◌, ◌≡◌, ◌≤◌,
}

-- The schedule has the period of a week.
pub should_run-week :
    (t : ℕ) (run pause : List Window)
    → should_run (t + 7 * minutes_per_day) run pause ≡ should_run t run pause
unfolding should_run
should_run-week t run pause =
    let minute : (t + 7 * minutes_per_day) % minutes_per_day ≡ t % minutes_per_day = omega arith in
    let day : (t + 7 * minutes_per_day) / minutes_per_day % 7 ≡ t / minutes_per_day % 7 =
      omega arith in
    rw (minute, day)

search_found :
    (left t : ℕ) (run pause : List Window) (u : ℕ)
    → search_from left t run pause ≡ some u
    → (t ≤ u) × (u < t + left) × (should_run u run pause ≡ true)
unfolding search_from
search_found zero t run pause u h = absurd (ground arith)
search_found (suc left) t run pause u h = ground (arith, search_found left (t + 1) run pause u)

search_first :
    (left t : ℕ) (run pause : List Window) (u v : ℕ)
    → search_from left t run pause ≡ some u
    → t ≤ v
    → v < u
    → should_run v run pause ≡ false
unfolding search_from
search_first zero t run pause u v h le lt = absurd (ground arith)
search_first (suc left) t run pause u v h le lt = elim (ℕ_discrete v t) [
  | yes e ↦ rw e (ground arith)
  | no ne ↦ ground (arith, search_first left (t + 1) run pause u v)
]

search_none :
    (left t : ℕ) (run pause : List Window) (v : ℕ)
    → search_from left t run pause ≡ none
    → t ≤ v
    → v < t + left
    → should_run v run pause ≡ false
unfolding search_from
search_none zero t run pause v h le lt = absurd (omega arith)
search_none (suc left) t run pause v h le lt = elim (ℕ_discrete v t) [
  | yes e ↦ rw e (ground arith)
  | no ne ↦ ground (arith, search_none left (t + 1) run pause v)
]

-- The resume time lies after now, within the horizon, and the schedule runs at it.
pub next_resume_at-runs :
    (now : LocalTime) (run pause : List Window) (u : ℕ)
    → next_resume_at now run pause ≡ some u
    → (now.minutes < u) × (u ≤ now.minutes + search_horizon_min) × (should_run u run pause ≡ true)
unfolding next_resume_at
next_resume_at-runs now run pause u h =
    let (lo, hi, runs) = search_found search_horizon_min (now.minutes + 1) run pause u h in
    (omega arith, omega arith, runs)

-- The schedule runs at no minute after now and before the resume time.
pub next_resume_at-first :
    (now : LocalTime) (run pause : List Window) (u v : ℕ)
    → next_resume_at now run pause ≡ some u
    → now.minutes < v
    → v < u
    → should_run v run pause ≡ false
unfolding next_resume_at
next_resume_at-first now run pause u v h le lt =
    search_first search_horizon_min (now.minutes + 1) run pause u v h (omega arith) lt

closed_ever :
    (fuel base v : ℕ) (run pause : List Window)
    → ((u : ℕ) → base < u → u ≤ base + 7 * minutes_per_day → should_run u run pause ≡ false)
    → base < v
    → v ≤ base + fuel
    → should_run v run pause ≡ false
closed_ever zero base v run pause h lt le = absurd (omega arith)
closed_ever (suc fuel) base v run pause h lt le = elim (dec_le v (base + 7 * minutes_per_day)) [
  | yes p ↦ h v lt p
  | no p ↦
      let week : v ≡ (v - 7 * minutes_per_day) + 7 * minutes_per_day = omega arith in
      rw week (
        should_run-week (v - 7 * minutes_per_day) run pause
        ∙ closed_ever fuel base (v - 7 * minutes_per_day) run pause h (omega arith) (omega arith))
]

-- The horizon of eight days is enough: where the search finds no opening, the schedule runs at no
-- minute after now.
pub next_resume_at-none :
    (now : LocalTime) (run pause : List Window) (v : ℕ)
    → next_resume_at now run pause ≡ none
    → now.minutes < v
    → should_run v run pause ≡ false
unfolding next_resume_at
next_resume_at-none now run pause v h lt =
    closed_ever v now.minutes v run pause
      (λ u lo hi.
        search_none search_horizon_min (now.minutes + 1) run pause u h (omega arith) (omega arith))
      lt (omega arith)
