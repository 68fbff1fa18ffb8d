-- ===== src/MidRound/Tiers.antt =====
-- The two tiers of the hard floor of `_spawn_round`: the early SIGTERM, which leaves the round running,
-- and the termination, which ends it.
use cli_agent_runner.MidRound.FirstSample.{
  Fresh, tick-Fresh, nudging, quiet_nudges, tick_never, tick_nudges,
}
use mathlib.Core.List.{reverse}
use cli_agent_runner.Config.Validators.{positive}
use cli_agent_runner.MidRound.Steps.{is_check, spawn_going, spawn_over, tick_quiet}
use cli_agent_runner.MidRound.Watching.{after_loop, spawn_round, tick, at_spawn}
use cli_agent_runner.MidRound.Nudge.{is_nudge, after_loop_nudged, nudged_from, allowed}
use cli_agent_runner.MidRound.Floor.{
  armed, samples, samples_going, samples_over, samples_quiet, is_terminated, terminated_iff,
}
use cli_agent_runner.MidRound.Stages.{pressure_at}
use cli_agent_runner.HostHealth.{pressure_is_critical}
use cli_agent_runner.Prelude.{
  ◌&&◌, ◌++◌, Bool, arith, count_if, count_if-append, if◌then◌else◌, false, leb, none, refl, true,
  ◌∙◌, ◌≡◌, Bool-cases, List, Option-cases, [], any, inl, inr, ◌∷◌, leading, ℕ, ◌≤◌, ◌+◌, ap,
}
use cli_agent_runner.MidRound.{Loop, Tick, Watch}

-- Whether a sample of the round was critical.
abbrev pub some_critical : List Bool → Bool
some_critical samples = any (λ b. b) samples

first_counts :
    (w : Watch) (restored : Bool) (t : Tick) (ts : List Tick) (s : Loop)
    → (tick w t s).ending ≡ none
    → count_if is_nudge (tick w t s).effects ≡ 1
    → pressure_is_critical (pressure_at w t s) ≡ true
    → count_if is_nudge
        ((tick w t s).effects ++ (spawn_round w restored ts (tick w t s).state).effects)
      ≡ (if some_critical
            (pressure_is_critical (pressure_at w t s) ∷ samples w ts (tick w t s).state)
          then 1
          else 0)
first_counts w restored t ts s more first crit =
    let rest = (spawn_round w restored ts (tick w t s).state).effects in
    let most : count_if is_nudge (tick w t s).effects + count_if is_nudge rest
        ≤ allowed w s.nudged =
      rw
        (
          ← count_if-append is_nudge (tick w t s).effects rest,
          ← (spawn_going w restored t ts s more).0,
        )
        (nudged_from w restored (t ∷ ts) s) in
    rw (crit, count_if-append is_nudge (tick w t s).effects rest) (ground (arith, first, most))

nudges_from :
    (w : Watch) (restored : Bool) (ts : List Tick) (s : Loop)
    → nudging w ≡ true
    → Fresh s
    → count_if is_nudge (spawn_round w restored ts s).effects
      ≡ (if some_critical (samples w ts s) then 1 else 0)
nudges_from w restored [] s on fresh = unfold spawn_round samples in refl
nudges_from w restored (t ∷ ts) s on fresh =
    let st = tick w t s in
    let rest = spawn_round w restored ts st.state in
    elim (Bool-cases (is_check w t s)) [
      | inl c ↦
          let first = tick_nudges w t s on fresh c in
          elim (Option-cases st.ending) [
            | inl more ↦
                rw ((spawn_going w restored t ts s more).0, samples_going w t ts s c more)
                  (elim (Bool-cases (pressure_is_critical (pressure_at w t s))) [
                    | inl crit ↦
                        first_counts w restored t ts s more
                          (first ∙ ap (λ b. if b then 1 else 0) crit) crit
                    | inr calm ↦ ground (
                      arith,
                      first,
                      calm,
                      nudges_from w restored ts st.state on (tick-Fresh w t s on fresh c calm),
                      count_if-append is_nudge st.effects rest.effects,
                    )
                  ])
            | inr (e, over) ↦
                rw ((spawn_over w restored t ts s e over).0, samples_over w t ts s e c over)
                  (ground (
                    arith,
                    first,
                    after_loop_nudged restored st.state e,
                    count_if-append is_nudge st.effects (after_loop restored st.state e),
                  ))
          ]
      | inr c ↦ elim (Option-cases st.ending) [
        | inl more ↦
            rw
              (
                (spawn_going w restored t ts s more).0,
                samples_quiet w t ts s c,
                more,
                (tick_quiet w t s c).0,
              )
              (ground (
                arith,
                quiet_nudges w t s c,
                nudges_from w restored ts s on fresh,
                count_if-append is_nudge st.effects (spawn_round w restored ts s).effects,
              ))
        | inr (e, over) ↦
            rw ((spawn_over w restored t ts s e over).0, samples_quiet w t ts s c, over)
              (ground (
                arith,
                quiet_nudges w t s c,
                after_loop_nudged restored st.state e,
                count_if-append is_nudge st.effects (after_loop restored st.state e),
              ))
      ]
    ]

never_from :
    (w : Watch) (restored : Bool) (ts : List Tick) (s : Loop)
    → leb 2 w.cfg.critical_consecutive_samples ≡ false
    → count_if is_nudge (spawn_round w restored ts s).effects ≡ 0
never_from w restored [] s h = unfold spawn_round in refl
never_from w restored (t ∷ ts) s h =
    let st = tick w t s in
    elim (Option-cases st.ending) [
      | inl more ↦ rw ((spawn_going w restored t ts s more).0) (
          omega (
            arith,
            tick_never w t s h,
            never_from w restored ts st.state h,
            count_if-append is_nudge st.effects (spawn_round w restored ts st.state).effects,
          ))
      | inr (e, over) ↦ rw ((spawn_over w restored t ts s e over).0) (
          omega (
            arith,
            tick_never w t s h,
            after_loop_nudged restored st.state e,
            count_if-append is_nudge st.effects (after_loop restored st.state e),
          ))
    ]

nudges_lem :
    (w : Watch) (restored : Bool) (ts : List Tick) (s : Loop)
    → Fresh s
    → count_if is_nudge (spawn_round w restored ts s).effects
      ≡ (if nudging w && some_critical (samples w ts s) then 1 else 0)
nudges_lem w restored ts s fresh = elim (Bool-cases (nudging w)) [
  | inl on ↦ rw on (nudges_from w restored ts s on fresh)
  | inr off ↦ elim (Bool-cases (leb 2 w.cfg.critical_consecutive_samples)) [
    | inl m ↦ rw off (ground (arith, off, m, nudged_from w restored ts s))
    | inr m ↦ rw off (never_from w restored ts s m)
  ]
]

-- Where at least one critical sample is asked for, the floor acts on the samples of the round in its two
-- tiers as follows. The round is ended by the floor exactly where the floor is on, the cgroup does not
-- contain the round, and as many samples in a row as configured were critical at its end. The early
-- SIGTERM, which leaves the round to its loop, is sent once where it is on beside the same two conditions,
-- two critical samples or more are asked for, and any sample of the round was critical, and never otherwise.
pub floor_acts_iff :
    (w : Watch) (restored : Bool) (ts : List Tick) (now current swap : ℕ)
    → 1 ≤ w.cfg.critical_consecutive_samples
    → let s = at_spawn now current swap in
      let run = spawn_round w restored ts s in
      (is_terminated run.ending ≡ (
        armed w
        && leb w.cfg.critical_consecutive_samples (leading (λ b. b) 0 (reverse (samples w ts s)))))
      × (count_if is_nudge run.effects
          ≡ (if nudging w && some_critical (samples w ts s) then 1 else 0))
floor_acts_iff w restored ts now current swap positive = (
  terminated_iff w restored ts now current swap positive,
  nudges_lem w restored ts (at_spawn now current swap) (unfold at_spawn in (refl, refl)),
)
