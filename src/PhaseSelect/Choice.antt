-- ===== src/PhaseSelect/Choice.antt =====
-- What `select_phase` of agent_runner/phase_select.py chooses, and what it waits for.
use mathlib.Core.Path.{subst}
use mathlib.Core.Option.{some-injective}
use mathlib.Core.List.{append-nil, append_assoc}
use cli_agent_runner.PhaseSelect.{
  Best, Config, Selection, Zones, decision_for, in_phases, pause_selection, runnable, select_from,
  with_phase, better, candidate_phases, improves, select_phase,
}
use cli_agent_runner.Prelude.{
  ◌++◌, Bool, Bool-cases, List, Option, String, [], any, ap, arith, false, inl, inr, none, refl,
  some, sym, true, ℕ, ◌↔◌, ◌∙◌, ◌∷◌, ◌≡◌, ◌≤◌, if◌then◌else◌, not, get_elem?, suc, zero,
}

-- The phases among the candidates: `none` is the base config.
abbrev pub phases_of : List (Option String) → List String
phases_of [] = []
phases_of (none ∷ order) = phases_of order
phases_of (some p ∷ order) = p ∷ phases_of order

skip_cons :
    (skipped : List String) (phase : Option String) (order : List (Option String))
    → with_phase skipped phase ++ phases_of order ≡ skipped ++ phases_of (phase ∷ order)
skip_cons skipped none order = refl
skip_cons skipped (some p) order = append_assoc skipped (p ∷ []) (phases_of order)

-- The candidate that a selection launches is the first runnable one of the order.
abbrev pub Launches :
    Config → Zones → List String → List String → List (Option String) → Selection → Type 0
Launches cfg zones throttled skipped order sel =
    (before : List (Option String)) × (after : List (Option String)) × (order
      ≡ before ++ sel.phase ∷ after)
    × (any (runnable cfg zones throttled) before ≡ false)
    × (runnable cfg zones throttled sel.phase ≡ true)
    × (sel.skipped ≡ skipped ++ phases_of before)

-- The instant of the selection's resume time, against a bound.
abbrev pub ResumesBy : Zones → Selection → ℕ → Type 0
ResumesBy zones sel bound =
    (t : ℕ) × (sel.resume_at ≡ some t) × (zones.instant sel.resume_timezone t ≤ bound)

-- Every candidate whose window is closed, that is not throttled and that opens at all, opens no
-- earlier than the selection resumes.
abbrev pub Earliest : Config → Zones → List String → List (Option String) → Selection → Type 0
Earliest cfg zones throttled [] sel = Unit
Earliest cfg zones throttled (phase ∷ order) sel =
    ((u : ℕ)
      → in_phases phase throttled ≡ false
      → (decision_for cfg zones phase).resume_at ≡ some u
      → ResumesBy zones sel (zones.instant (cfg.profile_for phase).timezone u))
    × Earliest cfg zones throttled order sel

module _ (cfg : Config) (zones : Zones) (throttled : List String) where
  Launches-from :
      (order : List (Option String)) (first : Bool) (skipped : List String) (window : Option String)
      (best : Option Best)
      → (select_from cfg zones throttled first skipped window best order).paused ≡ false
      → Launches cfg zones throttled skipped order
          (select_from cfg zones throttled first skipped window best order)
  unfolding select_from pause_selection
  Launches-from [] first skipped window none h = absurd (ground arith)
  Launches-from [] first skipped window (some b) h = absurd (ground arith)
  Launches-from (phase ∷ order) first skipped window best h =
      elim (Bool-cases (runnable cfg zones throttled phase)) [
        | inl e ↦ rw e ([], order, refl, refl, e, sym (append-nil skipped))
        | inr e ↦ rw e (
            let (before, after, split, closed, open', skips) =
              Launches-from order _ _ _ _ (rw e at h) in
            (
              phase ∷ before,
              after,
              ap (λ l. phase ∷ l) split,
              ground arith,
              open',
              skips ∙ skip_cons skipped phase before,
            ))
      ]

  paused_from :
      (order : List (Option String)) (first : Bool) (skipped : List String) (window : Option String)
      (best : Option Best)
      → ((select_from cfg zones throttled first skipped window best order).paused ≡ true)
        ↔ (any (runnable cfg zones throttled) order ≡ false)
  unfolding select_from pause_selection
  paused_from [] first skipped window none = ground arith
  paused_from [] first skipped window (some b) = ground arith
  paused_from (phase ∷ order) first skipped window best =
      elim (Bool-cases (runnable cfg zones throttled phase)) [
        | inl e ↦ rw e (ground arith)
        | inr e ↦ rw e (paused_from order _ _ _ _)
      ]

  -- The best so far opens by the bound.
  BestBy : Option Best → ℕ → Type 0
  BestBy none bound = ⊥
  BestBy (some b) bound = zones.instant b.timezone b.resume_at ≤ bound

  better-keeps :
      (phase : Option String) (best : Option Best) (bound : ℕ)
      → BestBy best bound
      → BestBy (better cfg zones phase best) bound
  unfolding better improves BestBy
  better-keeps phase none bound h = absurd h
  better-keeps phase (some b) bound h = ground arith

  better-takes :
      (phase : Option String) (best : Option Best) (u : ℕ)
      → (decision_for cfg zones phase).resume_at ≡ some u
      → BestBy (better cfg zones phase best) (zones.instant (cfg.profile_for phase).timezone u)
  unfolding better improves BestBy
  better-takes phase none u h = ground arith
  better-takes phase (some b) u h = ground arith

  keeps_if :
      (phase : Option String) (best : Option Best) (bound : ℕ)
      → BestBy best bound
      → BestBy (if not (in_phases phase throttled) then better cfg zones phase best else best) bound
  keeps_if phase best bound h = elim (Bool-cases (in_phases phase throttled)) [
    | inl e ↦ rw e h
    | inr e ↦ rw e (better-keeps phase best bound h)
  ]

  takes_if :
      (phase : Option String) (best : Option Best) (u : ℕ)
      → in_phases phase throttled ≡ false
      → (decision_for cfg zones phase).resume_at ≡ some u
      → BestBy
          (if not (in_phases phase throttled) then better cfg zones phase best else best)
          (zones.instant (cfg.profile_for phase).timezone u)
  takes_if phase best u free opens = rw free (better-takes phase best u opens)

  paused_tail :
      (phase : Option String) (order : List (Option String)) (first : Bool) (skipped : List String)
      (window : Option String) (best : Option Best)
      → (select_from cfg zones throttled first skipped window best (phase ∷ order)).paused ≡ true
      → runnable cfg zones throttled phase ≡ false
  paused_tail phase order first skipped window best h =
      ground (arith, paused_from (phase ∷ order) first skipped window best)

  resumes_by :
      (order : List (Option String)) (first : Bool) (skipped : List String) (window : Option String)
      (best : Option Best) (bound : ℕ)
      → BestBy best bound
      → (select_from cfg zones throttled first skipped window best order).paused ≡ true
      → ResumesBy zones (select_from cfg zones throttled first skipped window best order) bound
  unfolding select_from pause_selection BestBy
  resumes_by [] first skipped window none bound b h = absurd b
  resumes_by [] first skipped window (some x) bound b h = (x.resume_at, refl, b)
  resumes_by (phase ∷ order) first skipped window best bound b h =
      let e = paused_tail phase order first skipped window best h in
      rw e (
        resumes_by order _ _ _
          (if not (in_phases phase throttled) then better cfg zones phase best else best) bound
          (keeps_if phase best bound b) (rw e at h))

  Earliest-from :
      (order : List (Option String)) (first : Bool) (skipped : List String) (window : Option String)
      (best : Option Best)
      → (select_from cfg zones throttled first skipped window best order).paused ≡ true
      → Earliest cfg zones throttled order
          (select_from cfg zones throttled first skipped window best order)
  unfolding select_from pause_selection
  Earliest-from [] first skipped window best h = tt
  Earliest-from (phase ∷ order) first skipped window best h =
      let e = paused_tail phase order first skipped window best h in
      rw e (
        λ u free opens.
            resumes_by order _ _ _
              (if not (in_phases phase throttled) then better cfg zones phase best else best) _
              (takes_if phase best u free opens) (rw e at h),
        Earliest-from order _ _ _ _ (rw e at h),
      )

-- The phase that is launched is runnable, it is the first such candidate of the rotation, and the
-- phases reported as skipped are those before it.
pub select_phase-Launches :
    (cfg : Config) (zones : Zones) (round_num : ℕ) (throttled : List String)
    → (select_phase cfg zones round_num throttled).paused ≡ false
    → Launches cfg zones throttled []
        (candidate_phases cfg round_num)
        (select_phase cfg zones round_num throttled)
unfolding select_phase
select_phase-Launches cfg zones round_num throttled h =
    Launches-from cfg zones throttled (candidate_phases cfg round_num) true [] none none h

-- The round pauses exactly when no candidate is runnable.
pub select_phase-paused_iff :
    (cfg : Config) (zones : Zones) (round_num : ℕ) (throttled : List String)
    → ((select_phase cfg zones round_num throttled).paused ≡ true)
      ↔ (any (runnable cfg zones throttled) (candidate_phases cfg round_num) ≡ false)
unfolding select_phase
select_phase-paused_iff cfg zones round_num throttled =
    paused_from cfg zones throttled (candidate_phases cfg round_num) true [] none none

Earliest-at :
    (cfg : Config) (zones : Zones) (throttled : List String) (sel : Selection)
    (order : List (Option String)) (i : ℕ) (phase : Option String) (u : ℕ)
    → Earliest cfg zones throttled order sel
    → get_elem? order i ≡ some phase
    → in_phases phase throttled ≡ false
    → (decision_for cfg zones phase).resume_at ≡ some u
    → ResumesBy zones sel (zones.instant (cfg.profile_for phase).timezone u)
Earliest-at cfg zones throttled sel [] i phase u h e free opens = absurd (ground arith)
Earliest-at cfg zones throttled sel (q ∷ order) zero phase u h e free opens =
    let same : q ≡ phase = some-injective q phase e in
    subst (λ p. ResumesBy zones sel (zones.instant (cfg.profile_for p).timezone u)) same
      (h.0 u (rw same free) (rw same opens))
Earliest-at cfg zones throttled sel (q ∷ order) (suc i) phase u h e free opens =
    Earliest-at cfg zones throttled sel order i phase u h.1 e free opens

-- A pause has a resume time that is no later than the opening of any candidate that is not throttled
-- and opens at all.
pub select_phase-earliest :
    (cfg : Config) (zones : Zones) (round_num : ℕ) (throttled : List String) (i : ℕ)
    (phase : Option String) (u : ℕ)
    → (select_phase cfg zones round_num throttled).paused ≡ true
    → get_elem? (candidate_phases cfg round_num) i ≡ some phase
    → in_phases phase throttled ≡ false
    → (decision_for cfg zones phase).resume_at ≡ some u
    → ResumesBy zones
        (select_phase cfg zones round_num throttled)
        (zones.instant (cfg.profile_for phase).timezone u)
unfolding select_phase
select_phase-earliest cfg zones round_num throttled i phase u h e free opens =
    Earliest-at cfg zones throttled (select_phase cfg zones round_num throttled)
      (candidate_phases cfg round_num) i phase u
      (Earliest-from cfg zones throttled (candidate_phases cfg round_num) true [] none none h) e
      free opens
