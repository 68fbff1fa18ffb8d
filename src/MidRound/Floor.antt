-- ===== src/MidRound/Floor.antt =====
-- The hard floor of `_spawn_round`: which rounds it ends.
use cli_agent_runner.MidRound.Stages.{
  engage_brake, note_critical, note_growth, note_peaks, note_pressure, pressure_at, apply_engage,
  act_on,
}
use cli_agent_runner.MidRound.Watching.{at_spawn, check, spawn_round, tick}
use cli_agent_runner.MidRound.{Ending, Loop, Run, Step, Tick, Watch, mid_round_action, terminated}
use mathlib.Core.List.{reverse}
use cli_agent_runner.MidRound.Steps.{is_check, tick_checks, spawn_going, spawn_over, tick_quiet}
use cli_agent_runner.HostHealth.{Pressure, pressure_is_critical}
use cli_agent_runner.Prelude.{
  ◌&&◌, ◌+◌, Bool, List, Option, [], arith, if◌then◌else◌, false, leb, none, not, refl, some, true,
  ◌∙◌, ◌∷◌, ◌≡◌, ◌⊎◌, Bool-cases, inl, inr, leading, sym, ℕ, ◌≤◌, Option-cases, leading-reverse,
}

-- The floor can act: it is on, and the cgroup does not contain the round.
abbrev pub armed : Watch → Bool
armed w = w.cfg.in_round_terminate && not w.defer_to_cgroup

abbrev pub is_terminated : Option Ending → Bool
is_terminated (some (terminated rc)) = true
is_terminated _ = false

abbrev pub unless_over : Option Ending → List Bool → List Bool
unless_over none xs = xs
unless_over (some e) xs = []

-- Whether each sample of the round was critical, in order.
unfoldable pub samples : Watch → List Tick → Loop → List Bool
samples w [] s = []
samples w (t ∷ ts) s =
    let rest = unless_over (tick w t s).ending (samples w ts (tick w t s).state) in
    if is_check w t s then pressure_is_critical (pressure_at w t s) ∷ rest else rest

pub sampled_streak :
    (w : Watch) (t : Tick) (s : Loop)
    → (note_peaks w t (record s { prev_tick_sample = some t.sample })).critical_streak
      ≡ s.critical_streak
unfolding note_peaks
sampled_streak w t s = ground arith

pub grown_streak :
    (w : Watch) (t : Tick) (s : Loop)
    → (note_growth w t s).state.critical_streak ≡ s.critical_streak
unfolding note_growth
grown_streak w t s = ground arith

pub noted_streak :
    (w : Watch) (t : Tick) (p : Option Pressure) (s : Loop)
    → (note_pressure w t p s).state.critical_streak ≡ s.critical_streak
unfolding note_pressure
noted_streak w t none s = ground arith
noted_streak w t (some p) s = refl

pub braked_streak :
    (w : Watch) (t : Tick) (p : Option Pressure) (s : Loop)
    → (engage_brake w t p s).state.critical_streak ≡ s.critical_streak
unfolding engage_brake apply_engage
braked_streak w t none s = refl
braked_streak w t (some p) s = ground arith

-- What a check makes of the streak k before it.
abbrev pub Streak : Watch → Option Pressure → ℕ → Step → Type 0
Streak w p k step =
    (step.state.critical_streak ≡ (if pressure_is_critical p then k + 1 else 0))
    × (is_terminated step.ending
        ≡ (pressure_is_critical p && (armed w && leb w.cfg.critical_consecutive_samples (k + 1))))
    × ((step.ending ≡ none) ⊎ (is_terminated step.ending ≡ true))

critical_streaks :
    (w : Watch) (t : Tick) (p : Option Pressure) (s : Loop) (k : ℕ)
    → s.critical_streak ≡ k
    → Streak w p k (note_critical w t p s)
unfolding note_critical act_on mid_round_action
critical_streaks w t p s k h = (ground arith, ground arith, ground arith)

check-Streak :
    (w : Watch) (t : Tick) (s : Loop) → Streak w (pressure_at w t s) s.critical_streak (check w t s)
unfolding check
check-Streak w t s =
    let p = pressure_at w t s in
    let sampled = note_peaks w t (record s { prev_tick_sample = some t.sample }) in
    let grown = note_growth w t sampled in
    let noted = note_pressure w t p grown.state in
    let braked = engage_brake w t p noted.state in
    let same : braked.state.critical_streak ≡ s.critical_streak =
      braked_streak w t p noted.state
      ∙ (noted_streak w t p grown.state ∙ (grown_streak w t sampled ∙ sampled_streak w t s)) in
    critical_streaks w t p braked.state s.critical_streak same

quiet_not_terminated :
    (w : Watch) (t : Tick) (s : Loop)
    → is_check w t s ≡ false
    → is_terminated (tick w t s).ending ≡ false
unfolding tick
quiet_not_terminated w t s h = ground arith

-- The streak never reaches the threshold in a round that goes on under an armed floor.
abbrev Below : Watch → ℕ → Type 0
Below w k = (armed w && leb w.cfg.critical_consecutive_samples k) ≡ false

abbrev critical_at_end : ℕ → List Bool → ℕ
critical_at_end k xs = leading (λ b. b) k (reverse xs)

pub samples_going :
    (w : Watch) (t : Tick) (ts : List Tick) (s : Loop)
    → is_check w t s ≡ true
    → (tick w t s).ending ≡ none
    → samples w (t ∷ ts) s
      ≡ pressure_is_critical (pressure_at w t s) ∷ samples w ts (tick w t s).state
unfolding samples
samples_going w t ts s c going = ground arith

pub samples_over :
    (w : Watch) (t : Tick) (ts : List Tick) (s : Loop) (e : Ending)
    → is_check w t s ≡ true
    → (tick w t s).ending ≡ some e
    → samples w (t ∷ ts) s ≡ pressure_is_critical (pressure_at w t s) ∷ []
unfolding samples
samples_over w t ts s e c over = ground arith

pub samples_quiet :
    (w : Watch) (t : Tick) (ts : List Tick) (s : Loop)
    → is_check w t s ≡ false
    → samples w (t ∷ ts) s ≡ unless_over (tick w t s).ending (samples w ts s)
unfolding samples
samples_quiet w t ts s c = ground (arith, tick_quiet w t s c)

pub tick-Streak :
    (w : Watch) (t : Tick) (s : Loop)
    → is_check w t s ≡ true
    → Streak w (pressure_at w t s) s.critical_streak (tick w t s)
tick-Streak w t s c = rw (tick_checks w t s c) (check-Streak w t s)

-- The claim of `terminated_from`, on a run from a streak with the samples taken.
abbrev FloorActs : Watch → Run → ℕ → List Bool → Type 0
FloorActs w run k xs =
    is_terminated run.ending
    ≡ (armed w && leb w.cfg.critical_consecutive_samples (critical_at_end k xs))

terminated_from :
    (w : Watch) (restored : Bool) (ts : List Tick) (s : Loop)
    → 1 ≤ w.cfg.critical_consecutive_samples
    → Below w s.critical_streak
    → FloorActs w (spawn_round w restored ts s) s.critical_streak (samples w ts s)
terminated_from w restored [] s positive h = unfold spawn_round samples in sym h
terminated_from w restored (t ∷ ts) s positive h =
    let st = tick w t s in
    let crit = pressure_is_critical (pressure_at w t s) in
    let k = s.critical_streak in
    elim (Bool-cases (is_check w t s)) [
      | inl c ↦
          let (streak, terminates, endings) = tick-Streak w t s c in
          elim (Option-cases st.ending) [
            | inl going ↦
                let more =
                  terminated_from w restored ts st.state positive
                    (ground (arith, terminates, going)) in
                rw
                  (
                    (spawn_going w restored t ts s going).1,
                    samples_going w t ts s c going,
                    leading-reverse (λ b. b) k (samples w ts st.state) crit,
                    ← streak,
                  )
                  more
            | inr (e, over) ↦
                rw ((spawn_over w restored t ts s e over).1, samples_over w t ts s e c over)
                  (ground (arith, terminates, endings, over))
          ]
      | inr c ↦ elim (Option-cases st.ending) [
        | inl going ↦
            let more = terminated_from w restored ts s positive h in
            rw
              (
                (spawn_going w restored t ts s going).1,
                samples_quiet w t ts s c,
                going,
                (tick_quiet w t s c).0,
              )
              more
        | inr (e, over) ↦
            rw ((spawn_over w restored t ts s e over).1, samples_quiet w t ts s c, over)
              (ground (arith, quiet_not_terminated w t s c, over, h))
      ]
    ]

-- The floor ends the round exactly where it is on, the cgroup does not contain the round, and as many
-- samples in a row as configured, at least one, were critical at its end.
pub terminated_iff :
    (w : Watch) (restored : Bool) (ts : List Tick) (now current swap : ℕ)
    → 1 ≤ w.cfg.critical_consecutive_samples
    → let s = at_spawn now current swap in
      is_terminated (spawn_round w restored ts s).ending ≡ (
        armed w
        && leb w.cfg.critical_consecutive_samples (leading (λ b. b) 0 (reverse (samples w ts s))))
unfolding at_spawn
terminated_iff w restored ts now current swap positive =
    terminated_from w restored ts (at_spawn now current swap) positive (ground arith)
