-- ===== src/ServeLoop/Rounds.antt =====
-- How the loop of `cmd` counts its rounds, and how it ends.
use cli_agent_runner.ServeLoop.Pass.{
  Flow, Passed, ServeRun, after_gate, after_round, after_selection, at_boot, blocked, break_with,
  chain, ended, errored, exhausted, going, judge, pass_gate, serve, serve_pass, settle, with_launch,
  within,
}
use cli_agent_runner.ServeLoop.Selecting.{
  Choice, Readout, Serve, hold, idle, launch, select_and_gate,
}
use cli_agent_runner.ServeLoop.Gate.{Gated, backing_off, broke, proceed}
use cli_agent_runner.RoundOutcome.{RoundOutcome}
use cli_agent_runner.ServeRound.{Outcome}
use cli_agent_runner.ServeLoop.{ServeConfig, ServeEvent, stop_file_detected}
use cli_agent_runner.Prelude.{
  ◌+◌, Bool, Option, String, false, none, some, true, ℕ, ◌≡◌, ◌≤◌, List, arith, refl, max, ◌||◌,
  Bool-cases, [], inl, inr, leb, if◌then◌else◌, length, ◌∷◌,
}

abbrev count_of {ℓ} : {A : Type ℓ} → Option A → ℕ
count_of none = 0
count_of (some a) = 1

-- A pass counts the round that it launches, within the limit.
abbrev Counted : Option ℕ → Serve → Passed → Type 0
Counted max_rounds s r =
    (r.state.rounds_completed ≡ s.rounds_completed + count_of r.launched)
    × ((limit : ℕ)
        → max_rounds ≡ some limit
        → r.state.rounds_completed ≤ max limit s.rounds_completed)

settle_counts :
    (cfg : ServeConfig) (t : Readout) (phase : Option String) (s : Serve) (o : Option Outcome)
    → ((settle cfg t phase s o).state.rounds_completed ≡ s.rounds_completed)
      × ((settle cfg t phase s o).launched ≡ some phase)
unfolding settle
settle_counts cfg t phase s none = (refl, refl)
settle_counts cfg t phase s (some o) = (refl, refl)

judge_counts :
    (cfg : ServeConfig) (t : Readout) (phase : Option String) (s : Serve)
    (scan : Option (Bool × RoundOutcome))
    → ((judge cfg t phase s scan).state.rounds_completed ≡ s.rounds_completed)
      × ((judge cfg t phase s scan).launched ≡ some phase)
unfolding judge
judge_counts cfg t phase s none = (refl, refl)
judge_counts cfg t phase s (some (throttled, outcome)) = settle_counts cfg t phase s _

pub after_round_counts :
    (cfg : ServeConfig) (t : Readout) (phase : Option String) (s : Serve)
    → ((after_round cfg t phase s).state.rounds_completed ≡ s.rounds_completed)
      × ((after_round cfg t phase s).launched ≡ some phase)
unfolding after_round
after_round_counts cfg t phase s = judge_counts cfg t phase s _

selection_counts :
    (cfg : ServeConfig) (t : Readout) (s : Serve) (events : List ServeEvent) (c : Choice)
    → (after_selection cfg t s events c).state.rounds_completed
      ≡ s.rounds_completed + count_of (after_selection cfg t s events c).launched
unfolding after_selection
selection_counts cfg t s events idle = ground arith
selection_counts cfg t s events hold = ground arith
selection_counts cfg t s events (launch phase) =
    ground (
      arith,
      after_round_counts cfg t phase (record s { rounds_completed = s.rounds_completed + 1 }),
    )

count_of-le_one {ℓ} : {A : Type ℓ} (o : Option A) → count_of o ≤ 1
count_of-le_one none = omega arith
count_of-le_one (some a) = omega arith

within_counts :
    (max_rounds : Option ℕ) (s : Serve) (r : Passed)
    → r.state.rounds_completed ≡ s.rounds_completed + count_of r.launched
    → Counted max_rounds s (within (exhausted max_rounds s.rounds_completed) s r)
unfolding within
within_counts none s r h = (h, λ limit e. absurd (ground arith))
within_counts (some limit) s r h = elim (Bool-cases (leb limit s.rounds_completed)) [
  | inl e ↦ rw (e) (omega arith, λ limit' e'. omega arith)
  | inr e ↦ rw (e) (h, λ limit' e'. ground (arith, h, e, e', count_of-le_one r.launched))
]

broken_counts :
    (max_rounds : Option ℕ) (s : Serve) (events : List ServeEvent)
    → Counted max_rounds s (break_with s events)
broken_counts max_rounds s events = (omega arith, λ limit e. omega arith)

if-Counted :
    (max_rounds : Option ℕ) (s : Serve) (b : Bool) (r q : Passed)
    → Counted max_rounds s r
    → Counted max_rounds s q
    → Counted max_rounds s (if b then r else q)
if-Counted max_rounds s true r q h k = h
if-Counted max_rounds s false r q h k = k

gate_counts :
    (cfg : ServeConfig) (t : Readout) (s : Serve) (throttled : List String) (wake : Option ℕ)
    → Counted cfg.max_rounds s (after_gate cfg t s throttled wake)
unfolding after_gate
gate_counts cfg t s throttled wake =
    let sel = select_and_gate cfg t s.prev_sample throttled wake in
    let s' : Serve = record s {
      requested = s.requested || sel.requested || t.stop_after_selection;
      prev_sample = sel.prev_sample;
    } in
    if-Counted cfg.max_rounds s t.stop_file _ _
      (broken_counts cfg.max_rounds s (stop_file_detected s.rounds_completed ∷ []))
      (within_counts cfg.max_rounds s _ (selection_counts cfg t s' sel.events sel.choice))

pass_gate_counts :
    (cfg : ServeConfig) (t : Readout) (s : Serve) (gate : Gated)
    → Counted cfg.max_rounds s (pass_gate cfg t s gate)
unfolding pass_gate
pass_gate_counts cfg t s gate =
    elim gate.result
      as (λ x. Counted cfg.max_rounds s (pass_gate cfg t s (record gate { result = x }))) [
        | broke ↦ broken_counts cfg.max_rounds s gate.events
        | backing_off ↦ (omega arith, λ limit e. omega arith)
        | proceed throttled wake ↦ gate_counts cfg t s throttled wake
      ]

pass_counts :
    (cfg : ServeConfig) (t : Readout) (s : Serve) → Counted cfg.max_rounds s (serve_pass cfg t s)
unfolding serve_pass
pass_counts cfg t s =
    let s' : Serve = record s { requested = s.requested || t.stop_at_top } in
    let broken = broken_counts cfg.max_rounds s' [] in
    if-Counted cfg.max_rounds s (s.requested || t.stop_at_top) _ _ broken
      (if-Counted cfg.max_rounds s t.sentinel _ _ broken (pass_gate_counts cfg t s' _))

length-with_launch :
    (phase : Option (Option String)) (launched : List (Option String))
    → length (with_launch phase launched) ≡ count_of phase + length launched
length-with_launch none launched = omega arith
length-with_launch (some p) launched = omega arith

length-chain :
    (flow : Flow) (r : Passed) (rest : ServeRun)
    → length (chain flow r rest).launched ≤ count_of r.launched + length rest.launched
unfolding chain
length-chain going r rest = omega (arith, length-with_launch r.launched rest.launched)
length-chain (ended c) r rest = omega (arith, length-with_launch r.launched [])
length-chain blocked r rest = omega (arith, length-with_launch r.launched [])
length-chain errored r rest = omega (arith, length-with_launch r.launched [])

-- The rounds launched by a run from s, under a limit.
launched_from :
    (cfg : ServeConfig) (ts : List Readout) (s : Serve) (limit : ℕ)
    → cfg.max_rounds ≡ some limit
    → s.rounds_completed + length (serve cfg ts s).launched ≤ max limit s.rounds_completed
unfolding serve
launched_from cfg [] s limit h = omega arith
launched_from cfg (t ∷ ts) s limit h =
    let r = serve_pass cfg t s in
    let (counted, bounded) = pass_counts cfg t s in
    omega (
      arith,
      counted,
      bounded limit h,
      launched_from cfg ts r.state limit h,
      length-chain r.flow r (serve cfg ts r.state),
    )

-- Under a limit on the rounds, serve launches no more of them, whatever happens.
pub launched-le_max :
    (cfg : ServeConfig) (ts : List Readout) (limit : ℕ)
    → cfg.max_rounds ≡ some limit
    → length (serve cfg ts at_boot).launched ≤ limit
unfolding at_boot
launched-le_max cfg ts limit h = ground (arith, launched_from cfg ts at_boot limit h)
