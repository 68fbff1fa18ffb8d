-- ===== src/MidRound/Brake.antt =====
-- The memory.high brake of `_spawn_round`: what is engaged is released.
use cli_agent_runner.MidRound.Stages.{
  engage_brake, note_critical, note_growth, note_peaks, note_pressure, pressure_at, warn_growth,
  apply_engage, act_on,
}
use cli_agent_runner.MidRound.Watching.{
  after_loop, at_spawn, check, final_release, spawn_round, tick,
}
use cli_agent_runner.MidRound.{
  Effect, Ending, Loop, Tick, Watch, finished, memory_high_engaged, memory_high_released,
  mid_round_action, reraised, terminated, wedged,
}
use cli_agent_runner.MidRound.Steps.{is_check, spawn_going, spawn_over, tick_checks, tick_quiet}
use cli_agent_runner.HostHealth.{Pressure}
use cli_agent_runner.Prelude.{
  ◌+◌, Bool, List, Option, arith, count_if, if◌then◌else◌, false, none, some, true, ℕ, ◌≡◌, ◌++◌,
  Option-cases, [], count_if-append, inl, inr, refl, ◌∷◌, Bool-cases, sym, ◌∙◌, is_some,
}

abbrev pub is_engage : Effect → Bool
is_engage (memory_high_engaged previous written current signal) = true
is_engage _ = false

abbrev pub is_release : Effect → Bool
is_release (memory_high_released reason) = true
is_release _ = false

abbrev bit : Bool → ℕ
bit b = if b then 1 else 0

-- An engaged brake knows what to restore.
abbrev Restorable : Loop → Type 0
Restorable s = s.brake_engaged ≡ true → is_some s.brake_previous ≡ true

-- From s to s', with the effects between: what is engaged is held, or released.
abbrev Balanced : Loop → Loop → List Effect → Type 0
Balanced s s' effects =
    (bit s.brake_engaged + count_if is_engage effects
      ≡ bit s'.brake_engaged + count_if is_release effects)
    × Restorable s'

grown-Balanced :
    (w : Watch) (t : Tick) (s : Loop)
    → Restorable s
    → Balanced s (note_growth w t s).state (note_growth w t s).effects
unfolding note_growth warn_growth
grown-Balanced w t s h = (ground arith, ground arith)

noted-Balanced :
    (w : Watch) (t : Tick) (p : Option Pressure) (s : Loop)
    → Restorable s
    → Balanced s (note_pressure w t p s).state (note_pressure w t p s).effects
unfolding note_pressure
noted-Balanced w t none s h = (ground arith, ground arith)
noted-Balanced w t (some p) s h = (ground arith, h)

braked-Balanced :
    (w : Watch) (t : Tick) (p : Option Pressure) (s : Loop)
    → Restorable s
    → Balanced s (engage_brake w t p s).state (engage_brake w t p s).effects
unfolding engage_brake apply_engage
braked-Balanced w t none s h = (ground arith, h)
braked-Balanced w t (some p) s h = (ground arith, ground arith)

critical-Balanced :
    (w : Watch) (t : Tick) (p : Option Pressure) (s : Loop)
    → Restorable s
    → Balanced s (note_critical w t p s).state (note_critical w t p s).effects
unfolding note_critical act_on mid_round_action
critical-Balanced w t p s h = (ground arith, ground arith)

Balanced-trans :
    (s s' s'' : Loop) (xs ys : List Effect)
    → Balanced s s' xs
    → Balanced s' s'' ys
    → Balanced s s'' (xs ++ ys)
Balanced-trans s s' s'' xs ys h k = (
  omega (arith, h.0, k.0, count_if-append is_engage xs ys, count_if-append is_release xs ys),
  k.1,
)

sampled-Balanced :
    (w : Watch) (t : Tick) (s : Loop)
    → Restorable s
    → Balanced s (note_peaks w t (record s { prev_tick_sample = some t.sample })) []
unfolding note_peaks
sampled-Balanced w t s h = (ground arith, ground arith)

check-Balanced :
    (w : Watch) (t : Tick) (s : Loop)
    → Restorable s
    → Balanced s (check w t s).state (check w t s).effects
unfolding check
check-Balanced w t s h =
    let p = pressure_at w t s in
    let sampled = note_peaks w t (record s { prev_tick_sample = some t.sample }) in
    let grown = note_growth w t sampled in
    let noted = note_pressure w t p grown.state in
    let braked = engage_brake w t p noted.state in
    let last = note_critical w t p braked.state in
    let a = sampled-Balanced w t s h in
    let g = grown-Balanced w t sampled a.1 in
    let n = noted-Balanced w t p grown.state g.1 in
    let b = braked-Balanced w t p noted.state n.1 in
    let c = critical-Balanced w t p braked.state b.1 in
    let bc = Balanced-trans noted.state braked.state last.state braked.effects last.effects b c in
    let nc =
      Balanced-trans grown.state noted.state last.state noted.effects
        (braked.effects ++ last.effects) n bc in
    let gc =
      Balanced-trans sampled grown.state last.state grown.effects
        (noted.effects ++ (braked.effects ++ last.effects)) g nc in
    let all =
      Balanced-trans s sampled last.state []
        (grown.effects ++ (noted.effects ++ (braked.effects ++ last.effects))) a gc in
    (all.0, all.1)

tick-Balanced :
    (w : Watch) (t : Tick) (s : Loop)
    → Restorable s
    → Balanced s (tick w t s).state (tick w t s).effects
tick-Balanced w t s h = elim (Bool-cases (is_check w t s)) [
  | inl c ↦ rw (tick_checks w t s c) (check-Balanced w t s h)
  | inr c ↦
      let (same, effects) = tick_quiet w t s c in
      elim effects [ inl e ↦ rw (same, e) (refl, h) | inr e ↦ rw (same, e) (refl, h) ]
]

after_loop_releases :
    (s : Loop) (e : Ending)
    → Restorable s
    → (count_if is_engage (after_loop true s e) ≡ 0)
      × (count_if is_release (after_loop true s e) ≡ bit s.brake_engaged)
unfolding after_loop final_release
after_loop_releases s wedged h = (ground arith, ground arith)
after_loop_releases s reraised h = (ground arith, ground arith)
after_loop_releases s (finished rc) h = (ground arith, ground arith)
after_loop_releases s (terminated rc) h = (ground arith, ground arith)

balanced_from :
    (w : Watch) (ts : List Tick) (s : Loop) (e : Ending)
    → Restorable s
    → (spawn_round w true ts s).ending ≡ some e
    → bit s.brake_engaged + count_if is_engage (spawn_round w true ts s).effects
      ≡ count_if is_release (spawn_round w true ts s).effects
balanced_from w [] s e h ended = absurd (unfold spawn_round in ground arith)
balanced_from w (t ∷ ts) s e h ended =
    let st = tick w t s in
    let rest = spawn_round w true ts st.state in
    let (b, r) = tick-Balanced w t s h in
    elim (Option-cases st.ending) [
      | inl going ↦
          let (effects, ending) = spawn_going w true t ts s going in
          let more = balanced_from w ts st.state e r (sym ending ∙ ended) in
          rw (effects) (
            omega (
              arith,
              b,
              more,
              count_if-append is_engage st.effects rest.effects,
              count_if-append is_release st.effects rest.effects,
            ))
      | inr (last, over) ↦
          let (none_more, released) = after_loop_releases st.state last r in
          rw ((spawn_over w true t ts s last over).0) (
            omega (
              arith,
              b,
              none_more,
              released,
              count_if-append is_engage st.effects (after_loop true st.state last),
              count_if-append is_release st.effects (after_loop true st.state last),
            ))
    ]

-- On every way out of the round, an exception of the wait included, the brake has been released as
-- often as it was engaged, where the last restore can write.
pub brake_released :
    (w : Watch) (ts : List Tick) (now current swap : ℕ) (e : Ending)
    → (spawn_round w true ts (at_spawn now current swap)).ending ≡ some e
    → count_if is_engage (spawn_round w true ts (at_spawn now current swap)).effects
      ≡ count_if is_release (spawn_round w true ts (at_spawn now current swap)).effects
brake_released w ts now current swap e ended =
    let s = at_spawn now current swap in
    let off : s.brake_engaged ≡ false = unfold at_spawn in refl in
    ground (arith, balanced_from w ts s e (λ h. absurd (ground arith)) ended)
