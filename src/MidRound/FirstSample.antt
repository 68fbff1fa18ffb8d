-- ===== src/MidRound/FirstSample.antt =====
-- What a memory check of `_spawn_round` sends before and at the first critical sample of a round.
use cli_agent_runner.MidRound.Steps.{is_check, tick_checks, tick_quiet}
use cli_agent_runner.MidRound.Watching.{check, tick}
use cli_agent_runner.MidRound.Nudge.{braked-Nudged, grown-Nudged, is_nudge, noted-Nudged}
use cli_agent_runner.MidRound.Floor.{
  armed, braked_streak, grown_streak, noted_streak, sampled_streak, tick-Streak,
}
use cli_agent_runner.MidRound.Stages.{
  act_on, apply_engage, engage_brake, note_critical, note_growth, note_peaks, note_pressure,
  pressure_at,
}
use cli_agent_runner.HostHealth.{Pressure, pressure_is_critical}
use cli_agent_runner.Prelude.{
  ◌&&◌, ◌++◌, Bool, Option, arith, count_if, count_if-append, if◌then◌else◌, false, leb, none, refl,
  some, true, ◌∙◌, ◌≡◌, Bool-cases, inl, inr,
}
use cli_agent_runner.MidRound.{Loop, Tick, Watch, mid_round_action, Step}

-- The early SIGTERM can come: it is on, the floor is armed, and the first critical sample is not already
-- the one that terminates.
abbrev pub nudging : Watch → Bool
nudging w = w.cfg.in_round_nudge && (armed w && leb 2 w.cfg.critical_consecutive_samples)

-- No critical sample yet.
abbrev pub Fresh : Loop → Type 0
Fresh s = (s.nudged ≡ false) × (s.critical_streak ≡ 0)

sampled_nudged :
    (w : Watch) (t : Tick) (s : Loop)
    → (note_peaks w t (record s { prev_tick_sample = some t.sample })).nudged ≡ s.nudged
unfolding note_peaks
sampled_nudged w t s = ground arith

grown_nudged : (w : Watch) (t : Tick) (s : Loop) → (note_growth w t s).state.nudged ≡ s.nudged
unfolding note_growth
grown_nudged w t s = ground arith

noted_nudged :
    (w : Watch) (t : Tick) (p : Option Pressure) (s : Loop)
    → (note_pressure w t p s).state.nudged ≡ s.nudged
unfolding note_pressure
noted_nudged w t none s = ground arith
noted_nudged w t (some p) s = refl

braked_nudged :
    (w : Watch) (t : Tick) (p : Option Pressure) (s : Loop)
    → (engage_brake w t p s).state.nudged ≡ s.nudged
unfolding engage_brake apply_engage
braked_nudged w t none s = refl
braked_nudged w t (some p) s = ground arith

abbrev FirstCritical : Option Pressure → Step → Type 0
FirstCritical p step =
    (count_if is_nudge step.effects ≡ (if pressure_is_critical p then 1 else 0))
    × (pressure_is_critical p ≡ false → step.state.nudged ≡ false)

critical_first :
    (w : Watch) (t : Tick) (p : Option Pressure) (s : Loop)
    → nudging w ≡ true
    → Fresh s
    → FirstCritical p (note_critical w t p s)
unfolding note_critical act_on mid_round_action
critical_first w t p s on fresh = (ground (arith, on, fresh), λ e. ground (arith, e, fresh))

-- Where one critical sample terminates, none is left for the early SIGTERM.
critical_never :
    (w : Watch) (t : Tick) (p : Option Pressure) (s : Loop)
    → leb 2 w.cfg.critical_consecutive_samples ≡ false
    → count_if is_nudge (note_critical w t p s).effects ≡ 0
unfolding note_critical act_on mid_round_action
critical_never w t p s h = ground (arith, h)

-- The state in which a check comes to count its sample.
abbrev before_count : Watch → Tick → Loop → Loop
before_count w t s =
    let p = pressure_at w t s in
    let sampled = note_peaks w t (record s { prev_tick_sample = some t.sample }) in
    (engage_brake w t p (note_pressure w t p (note_growth w t sampled).state).state).state

before_count_same :
    (w : Watch) (t : Tick) (s : Loop)
    → ((before_count w t s).nudged ≡ s.nudged)
      × ((before_count w t s).critical_streak ≡ s.critical_streak)
before_count_same w t s =
    let p = pressure_at w t s in
    let sampled = note_peaks w t (record s { prev_tick_sample = some t.sample }) in
    let grown = note_growth w t sampled in
    let noted = note_pressure w t p grown.state in
    (
      braked_nudged w t p noted.state
          ∙ (noted_nudged w t p grown.state ∙ (grown_nudged w t sampled ∙ sampled_nudged w t s)),
      braked_streak w t p noted.state
          ∙ (noted_streak w t p grown.state ∙ (grown_streak w t sampled ∙ sampled_streak w t s)),
    )

-- A check nudges where it counts its sample, and nowhere else.
check_nudges :
    (w : Watch) (t : Tick) (s : Loop)
    → count_if is_nudge (check w t s).effects
      ≡ count_if is_nudge (note_critical w t (pressure_at w t s) (before_count w t s)).effects
unfolding check
check_nudges w t s =
    let p = pressure_at w t s in
    let sampled = note_peaks w t (record s { prev_tick_sample = some t.sample }) in
    let grown = note_growth w t sampled in
    let noted = note_pressure w t p grown.state in
    let braked = engage_brake w t p noted.state in
    let last = note_critical w t p braked.state in
    ground (
      arith,
      grown_nudged w t sampled,
      noted_nudged w t p grown.state,
      braked_nudged w t p noted.state,
      grown-Nudged w t sampled,
      noted-Nudged w t p grown.state,
      braked-Nudged w t p noted.state,
      count_if-append is_nudge grown.effects (noted.effects ++ (braked.effects ++ last.effects)),
      count_if-append is_nudge noted.effects (braked.effects ++ last.effects),
      count_if-append is_nudge braked.effects last.effects,
    )

check-FirstCritical :
    (w : Watch) (t : Tick) (s : Loop)
    → nudging w ≡ true
    → Fresh s
    → FirstCritical (pressure_at w t s) (check w t s)
unfolding check
check-FirstCritical w t s on fresh =
    let same = before_count_same w t s in
    let first =
      critical_first w t (pressure_at w t s) (before_count w t s) on
        (same.0 ∙ fresh.0, same.1 ∙ fresh.1) in
    (check_nudges w t s ∙ first.0, first.1)

pub tick-Fresh :
    (w : Watch) (t : Tick) (s : Loop)
    → nudging w ≡ true
    → Fresh s
    → is_check w t s ≡ true
    → pressure_is_critical (pressure_at w t s) ≡ false
    → Fresh (tick w t s).state
tick-Fresh w t s on fresh c calm =
    let first = check-FirstCritical w t s on fresh in
    let (streak, terminates, endings) = tick-Streak w t s c in
    (rw (tick_checks w t s c) (first.1 calm), ground (arith, streak, calm))

pub tick_nudges :
    (w : Watch) (t : Tick) (s : Loop)
    → nudging w ≡ true
    → Fresh s
    → is_check w t s ≡ true
    → count_if is_nudge (tick w t s).effects
      ≡ (if pressure_is_critical (pressure_at w t s) then 1 else 0)
tick_nudges w t s on fresh c = rw (tick_checks w t s c) ((check-FirstCritical w t s on fresh).0)

pub quiet_nudges :
    (w : Watch) (t : Tick) (s : Loop)
    → is_check w t s ≡ false
    → count_if is_nudge (tick w t s).effects ≡ 0
quiet_nudges w t s c = ground (arith, (tick_quiet w t s c).1)

pub tick_never :
    (w : Watch) (t : Tick) (s : Loop)
    → leb 2 w.cfg.critical_consecutive_samples ≡ false
    → count_if is_nudge (tick w t s).effects ≡ 0
tick_never w t s h = elim (Bool-cases (is_check w t s)) [
  | inl c ↦
      rw (tick_checks w t s c)
        (check_nudges w t s ∙ critical_never w t (pressure_at w t s) (before_count w t s) h)
  | inr c ↦ quiet_nudges w t s c
]
