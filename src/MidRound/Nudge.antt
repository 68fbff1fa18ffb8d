-- ===== src/MidRound/Nudge.antt =====
-- The early SIGTERM of `_spawn_round`.
use cli_agent_runner.MidRound.Stages.{
  engage_brake, note_critical, note_growth, note_peaks, note_pressure, pressure_at, warn_growth,
  apply_engage, act_on,
}
use cli_agent_runner.MidRound.Watching.{after_loop, check, final_release, spawn_round, tick}
use cli_agent_runner.MidRound.{
  Effect, Ending, Loop, Tick, Watch, finished, mem_terminated, mid_round_action, nudge_tier,
  reraised, terminated, wedged,
}
use cli_agent_runner.MidRound.Steps.{is_check, spawn_going, spawn_over, tick_checks, tick_quiet}
use cli_agent_runner.MidRound.Floor.{armed}
use cli_agent_runner.HostHealth.{Pressure}
use cli_agent_runner.Prelude.{
  ◌&&◌, ◌+◌, ◌++◌, Bool, Bool-cases, List, Option, Option-cases, [], arith, count_if,
  count_if-append, if◌then◌else◌, false, inl, inr, none, not, some, true, ℕ, ◌∷◌, ◌≡◌, ◌≤◌,
}

abbrev pub is_nudge : Effect → Bool
is_nudge (mem_terminated consecutive nudge_tier) = true
is_nudge _ = false

-- How many nudges a round may still get.
abbrev pub allowed : Watch → Bool → ℕ
allowed w nudged = if w.cfg.in_round_nudge && armed w && not nudged then 1 else 0

-- From s to s', with the effects between, no more nudges than allowed.
abbrev Nudged : Watch → Loop → Loop → List Effect → Type 0
Nudged w s s' effects = count_if is_nudge effects + allowed w s'.nudged ≤ allowed w s.nudged

pub sampled-Nudged :
    (w : Watch) (t : Tick) (s : Loop)
    → Nudged w s (note_peaks w t (record s { prev_tick_sample = some t.sample })) []
unfolding note_peaks
sampled-Nudged w t s = ground arith

pub grown-Nudged :
    (w : Watch) (t : Tick) (s : Loop)
    → Nudged w s (note_growth w t s).state (note_growth w t s).effects
unfolding note_growth warn_growth
grown-Nudged w t s = ground arith

pub noted-Nudged :
    (w : Watch) (t : Tick) (p : Option Pressure) (s : Loop)
    → Nudged w s (note_pressure w t p s).state (note_pressure w t p s).effects
unfolding note_pressure
noted-Nudged w t none s = ground arith
noted-Nudged w t (some p) s = ground arith

pub braked-Nudged :
    (w : Watch) (t : Tick) (p : Option Pressure) (s : Loop)
    → Nudged w s (engage_brake w t p s).state (engage_brake w t p s).effects
unfolding engage_brake apply_engage
braked-Nudged w t none s = ground arith
braked-Nudged w t (some p) s = ground arith

critical-Nudged :
    (w : Watch) (t : Tick) (p : Option Pressure) (s : Loop)
    → Nudged w s (note_critical w t p s).state (note_critical w t p s).effects
unfolding note_critical act_on mid_round_action
critical-Nudged w t p s = ground arith

check-Nudged :
    (w : Watch) (t : Tick) (s : Loop) → Nudged w s (check w t s).state (check w t s).effects
unfolding check
check-Nudged w t s =
    let p = pressure_at w t s in
    let sampled = note_peaks w t (record s { prev_tick_sample = some t.sample }) in
    let grown = note_growth w t sampled in
    let noted = note_pressure w t p grown.state in
    let braked = engage_brake w t p noted.state in
    let last = note_critical w t p braked.state in
    omega (
      arith,
      sampled-Nudged w t s,
      grown-Nudged w t sampled,
      noted-Nudged w t p grown.state,
      braked-Nudged w t p noted.state,
      critical-Nudged w t p braked.state,
      count_if-append is_nudge grown.effects (noted.effects ++ (braked.effects ++ last.effects)),
      count_if-append is_nudge noted.effects (braked.effects ++ last.effects),
      count_if-append is_nudge braked.effects last.effects,
    )

pub tick-Nudged :
    (w : Watch) (t : Tick) (s : Loop) → Nudged w s (tick w t s).state (tick w t s).effects
tick-Nudged w t s = elim (Bool-cases (is_check w t s)) [
  | inl c ↦ rw (tick_checks w t s c) (check-Nudged w t s)
  | inr c ↦ ground (arith, tick_quiet w t s c)
]

pub after_loop_nudged :
    (restored : Bool) (s : Loop) (e : Ending) → count_if is_nudge (after_loop restored s e) ≡ 0
unfolding after_loop final_release
after_loop_nudged restored s wedged = ground arith
after_loop_nudged restored s reraised = ground arith
after_loop_nudged restored s (finished rc) = ground arith
after_loop_nudged restored s (terminated rc) = ground arith

pub nudged_from :
    (w : Watch) (restored : Bool) (ts : List Tick) (s : Loop)
    → count_if is_nudge (spawn_round w restored ts s).effects ≤ allowed w s.nudged
nudged_from w restored [] s = unfold spawn_round in ground arith
nudged_from w restored (t ∷ ts) s =
    let st = tick w t s in
    let rest = spawn_round w restored ts st.state in
    elim (Option-cases st.ending) [
      | inl going ↦ rw ((spawn_going w restored t ts s going).0) (
          omega (
            arith,
            tick-Nudged w t s,
            nudged_from w restored ts st.state,
            count_if-append is_nudge st.effects rest.effects,
          ))
      | inr (e, over) ↦ rw ((spawn_over w restored t ts s e over).0) (
          omega (
            arith,
            tick-Nudged w t s,
            after_loop_nudged restored st.state e,
            count_if-append is_nudge st.effects (after_loop restored st.state e),
          ))
    ]
