-- ===== src/ServeLoop/Around.antt =====
-- Under the skip policy, the selection of agent_runner/cli/serve_cmd.py goes around the throttled agents.
use cli_agent_runner.PhaseSelect.Choice.{select_phase-Launches}
use cli_agent_runner.PhaseSelect.Rotation.{candidates-rotation}
use cli_agent_runner.HostHealth.{Sample}
use cli_agent_runner.ServeLoop.Selecting.{Readout, launch, of_pause, select_aware}
use cli_agent_runner.PhaseSelect.{in_phases, Config, Zones, rotation_index, runnable, select_phase}
use cli_agent_runner.ServeLoop.Gate.{blocked_phases, note_blocked}
use cli_agent_runner.Throttle.Active.{TransientErrorState}
use cli_agent_runner.ServeLoop.{ServeConfig, phase_aware, skip_around}
use cli_agent_runner.Prelude.{
  ◌++◌, Dict, List, Option, Option-cases, String, [], any-append, inl, inr, lookup, map, some,
  str_eq, true, ℕ, ◌∷◌, ◌≡◌, Bool-cases, arith, str_eq_iff, sym, Bool, any, any-drop, any-take,
  drop, false, length, none, take, ◌∙◌, ◌≢◌,
}

-- What is blocked stays blocked.
blocked_kept :
    (cfg : ServeConfig) (active : Dict TransientErrorState) (phases : List String)
    (found : List String × Option ℕ) (p : String)
    → in_phases (some p) found.0 ≡ true
    → in_phases (some p) (blocked_phases cfg active found phases).0 ≡ true
unfolding blocked_phases
blocked_kept cfg active [] found p h = h
blocked_kept cfg active (phase ∷ phases) found p h =
    blocked_kept cfg active phases (note_blocked cfg active found phase) p
      (elim (Option-cases (lookup (cfg.binary (some phase)) active)) [
        | inl e ↦ unfold note_blocked in ground (arith, e, h)
        | inr (st, e) ↦
            unfold note_blocked in
            ground (arith, e, h, any-append (λ q. str_eq q p) found.0 (phase ∷ []))
      ])

noted_head :
    (cfg : ServeConfig) (active : Dict TransientErrorState) (found : List String × Option ℕ)
    (phase p : String) (st : TransientErrorState)
    → phase ≡ p
    → lookup (cfg.binary (some p)) active ≡ some st
    → in_phases (some p) (note_blocked cfg active found phase).0 ≡ true
unfolding note_blocked
noted_head cfg active found phase p st e k =
    rw (e, note_blocked, k)
      (ground (arith, any-append (λ q. str_eq q p) found.0 (p ∷ []), str_eq_iff p p))

-- Every phase whose agent is throttled is blocked.
blocked_found :
    (cfg : ServeConfig) (active : Dict TransientErrorState) (phases : List String)
    (found : List String × Option ℕ) (p : String) (st : TransientErrorState)
    → in_phases (some p) phases ≡ true
    → lookup (cfg.binary (some p)) active ≡ some st
    → in_phases (some p) (blocked_phases cfg active found phases).0 ≡ true
unfolding blocked_phases
blocked_found cfg active [] found p st h k = absurd (ground arith)
blocked_found cfg active (phase ∷ phases) found p st h k =
    let found' = note_blocked cfg active found phase in
    elim (Bool-cases (str_eq phase p)) [
      | inl e ↦
          blocked_kept cfg active phases found' p
            (noted_head cfg active found phase p st ((str_eq_iff phase p).0 e) k)
      | inr e ↦ blocked_found cfg active phases found' p st (ground (arith, e, h)) k
    ]

heads {ℓ} : {A : Type ℓ} {x y : A} {xs ys : List A} → x ∷ xs ≡ y ∷ ys → x ≡ y
heads h = cc

tails {ℓ} : {A : Type ℓ} {x y : A} {xs ys : List A} → x ∷ xs ≡ y ∷ ys → xs ≡ ys
tails h = cc

-- The candidate that a split of the candidates names is one of the phases.
split_listed :
    (phases : List String) (before after : List (Option String)) (x : Option String)
    → map some phases ≡ before ++ x ∷ after
    → (p : String) × (x ≡ some p) × (in_phases (some p) phases ≡ true)
split_listed [] [] after x h = absurd (cc)
split_listed [] (b ∷ before) after x h = absurd (cc)
split_listed (q ∷ phases) [] after x h = (q, sym (heads h), ground (arith, str_eq_iff q q))
split_listed (q ∷ phases) (b ∷ before) after x h =
    let (p, e, k) = split_listed phases before after x (tails h) in (p, e, ground (arith, k))

rotated_listed :
    (k : ℕ) (phases : List String) (p : String)
    → in_phases (some p) (drop k phases ++ take k phases) ≡ true
    → in_phases (some p) phases ≡ true
rotated_listed k phases p h =
    let f : String → Bool = λ q. str_eq q p in
    elim (Bool-cases (any f (drop k phases))) [
      | inl e ↦ any-drop f k phases e
      | inr e ↦
          any-take f k phases (ground (arith, e, h, any-append f (drop k phases) (take k phases)))
    ]

pub aware_phases :
    (cfg : ServeConfig)
    → skip_around cfg ≡ true
    → (cfg.phases.phases ≢ [])
      × (cfg.phases.skips ≡ true)
      × (phase_aware cfg ≡ true)
      × (cfg.ignore_schedule ≡ false)
unfolding skip_around phase_aware
aware_phases cfg h =
    (λ e. ground (arith, e, h), ground (arith, h), ground (arith, h), ground (arith, h))

-- The phase that a selection launches under the skip policy is one of the list, and runnable.
selected_listed :
    (cfg : Config) (zones : Zones) (n : ℕ) (throttled : List String)
    → cfg.phases ≢ []
    → cfg.skips ≡ true
    → (select_phase cfg zones n throttled).paused ≡ false
    → (p : String) × ((select_phase cfg zones n throttled).phase ≡ some p)
      × (in_phases (some p) cfg.phases ≡ true)
      × (runnable cfg zones throttled (some p) ≡ true)
selected_listed cfg zones n throttled listed skips open_now =
    let (before, after, order, none_before, runs, passed_over) =
      select_phase-Launches cfg zones n throttled open_now in
    let k = rotation_index n (length cfg.phases) in
    let split = sym (candidates-rotation cfg n skips listed) ∙ order in
    let (p, e, k') =
      split_listed (drop k cfg.phases ++ take k cfg.phases) before after
        (select_phase cfg zones n throttled).phase split in
    (p, e, rotated_listed k cfg.phases p k', rw (e) at runs)

runnable_not_throttled :
    (cfg : Config) (zones : Zones) (throttled : List String) (phase : Option String)
    → runnable cfg zones throttled phase ≡ true
    → in_phases phase throttled ≡ false
unfolding runnable
runnable_not_throttled cfg zones throttled phase h = ground (arith, h)

aware_launches :
    (cfg : ServeConfig) (t : Readout) (prev : Sample) (throttled : List String) (wake : Option ℕ)
    (phase : Option String)
    → (select_aware cfg t prev throttled wake).choice ≡ launch phase
    → let sel = select_phase cfg.phases t.zones t.round_num throttled in
      (sel.paused ≡ false) × (sel.phase ≡ phase)
unfolding select_aware of_pause
aware_launches cfg t prev throttled wake phase h = (ground (arith, h), ground (arith, h))

-- A round whose phase is chosen by a selection around the blocked phases runs an agent that is not
-- throttled.
pub aware_routed :
    (cfg : ServeConfig) (t : Readout) (prev : Sample) (active : Dict TransientErrorState)
    (phase : Option String)
    → skip_around cfg ≡ true
    → let blocked = blocked_phases cfg active ([], none) cfg.phases.phases in
      (select_aware cfg t prev blocked.0 blocked.1).choice ≡ launch phase
      → (p : String) × (phase ≡ some p) × (lookup (cfg.binary (some p)) active ≡ none)
aware_routed cfg t prev active phase skips h =
    let (throttled, wake) = blocked_phases cfg active ([], none) cfg.phases.phases in
    let (listed, policy, aware, obeys) = aware_phases cfg skips in
    let (open_now, chosen) = aware_launches cfg t prev throttled wake phase h in
    let (p, e, in_list, runs) =
      selected_listed cfg.phases t.zones t.round_num throttled listed policy open_now in
    elim (Option-cases (lookup (cfg.binary (some p)) active)) [
      | inl free ↦ (p, sym chosen ∙ e, free)
      | inr (st, held) ↦ absurd (
          ground (
            arith,
            blocked_found cfg active cfg.phases.phases ([], none) p st in_list held,
            runnable_not_throttled cfg.phases t.zones throttled (some p) runs,
          ))
    ]
