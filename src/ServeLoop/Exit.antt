-- ===== src/ServeLoop/Exit.antt =====
-- How the loop of `cmd` ends: its exit code, and the give-up events it emits.
use cli_agent_runner.ServeLoop.Calm.{Calm, gate-Calm, is_stopping, selected-Calm}
use cli_agent_runner.ServeLoop.Pass.{
  Flow, Passed, ServeRun, after_gate, after_round, after_selection, blocked, chain, ended, errored,
  exhausted, going, judge, pass_gate, serve, serve_pass, settle, within, break_with,
}
use cli_agent_runner.ServeLoop.Selecting.{
  Choice, Readout, Serve, hold, idle, launch, select_and_gate,
}
use cli_agent_runner.ServeRound.Verdicts.{exit_code-nonzero, is_give_up, one_event, zero_code}
use cli_agent_runner.ServeLoop.{ServeConfig, ServeEvent, give_up, stop_file_detected}
use cli_agent_runner.RoundOutcome.{RoundOutcome}
use cli_agent_runner.ServePolicy.{Round}
use cli_agent_runner.ServeRound.{
  GiveUp, Outcome, cgroup, config_broken_event, crash_loop_event, mem_loop_event,
  mem_loop_persistent_event, post_round_verdicts, stalled_event,
}
use cli_agent_runner.ServeLoop.Gate.{round_throttle_gate, GateResult, backing_off, broke, proceed}
use cli_agent_runner.Prelude.{
  ◌+◌, ◌++◌, ◌==◌, Bool, List, Option, String, [], arith, count_if, count_if-append, if◌then◌else◌,
  false, map, none, refl, some, true, ℕ, ◌∷◌, ◌≡◌, ◌||◌,
}

is_stopping-give_up :
    (emitted : List GiveUp)
    → count_if is_stopping (map give_up emitted) ≡ count_if is_give_up emitted
is_stopping-give_up [] = refl
is_stopping-give_up (cgroup ev ∷ es) = omega (arith, is_stopping-give_up es)
is_stopping-give_up (config_broken_event c ∷ es) = omega (arith, is_stopping-give_up es)
is_stopping-give_up (mem_loop_persistent_event n c ∷ es) = omega (arith, is_stopping-give_up es)
is_stopping-give_up (mem_loop_event n c ∷ es) = omega (arith, is_stopping-give_up es)
is_stopping-give_up (crash_loop_event n c ∷ es) = omega (arith, is_stopping-give_up es)
is_stopping-give_up (stalled_event n c ∷ es) = omega (arith, is_stopping-give_up es)

-- The give-up events of a pass, by what the loop does after it: one where it ends with a code other
-- than 0, none otherwise.
abbrev pub given_up : Flow → ℕ
given_up (ended c) = if c == 0 then 0 else 1
given_up _ = 0

abbrev Accounted : Passed → Type 0
Accounted r = count_if is_stopping r.events ≡ given_up r.flow

settle-Accounted :
    (cfg : ServeConfig) (t : Readout) (phase : Option String) (s : Serve) (o : Option Outcome)
    → ((x : Outcome)
        → o ≡ some x
        → (count_if is_give_up x.emitted ≡ (elim x.exit_code [ none ↦ 0 | some c ↦ 1 ]))
          × (zero_code x.exit_code ≡ false))
    → Accounted (settle cfg t phase s o)
unfolding settle
settle-Accounted cfg t phase s none h = refl
settle-Accounted cfg t phase s (some o) h = ground (arith, h o refl, is_stopping-give_up o.emitted)

judge-Accounted :
    (cfg : ServeConfig) (t : Readout) (phase : Option String) (s : Serve)
    (scan : Option (Bool × RoundOutcome))
    → Accounted (judge cfg t phase s scan)
unfolding judge
judge-Accounted cfg t phase s none = refl
judge-Accounted cfg t phase s (some (throttled, outcome)) =
    let round : Round = record {
      returncode = t.returncode;
      duration = t.duration;
      throttle_active = throttled;
    } in
    let verdict =
      post_round_verdicts round outcome s.streaks cfg.restart_delay_s t.log_after t.now_after
        t.cgroup_events in
    settle-Accounted cfg t phase s verdict (λ x e. (
      one_event round outcome s.streaks cfg.restart_delay_s t.log_after t.now_after t.cgroup_events
          x e,
      exit_code-nonzero round outcome s.streaks cfg.restart_delay_s t.log_after t.now_after
          t.cgroup_events x e,
    ))

after_round-Accounted :
    (cfg : ServeConfig) (t : Readout) (phase : Option String) (s : Serve)
    → Accounted (after_round cfg t phase s)
unfolding after_round
after_round-Accounted cfg t phase s = judge-Accounted cfg t phase s _

-- More events in front.
preceded-Accounted :
    (r : Passed) (events : List ServeEvent)
    → Calm events
    → Accounted r
    → Accounted (record r { events = events ++ r.events })
preceded-Accounted r events calm h =
    omega (arith, calm, h, count_if-append is_stopping events r.events)

if-Accounted :
    (b : Bool) (r q : Passed) → Accounted r → Accounted q → Accounted (if b then r else q)
if-Accounted true r q h k = h
if-Accounted false r q h k = k

selection-Accounted :
    (cfg : ServeConfig) (t : Readout) (s : Serve) (events : List ServeEvent) (c : Choice)
    → Calm events
    → Accounted (after_selection cfg t s events c)
unfolding after_selection
selection-Accounted cfg t s events idle calm = calm
selection-Accounted cfg t s events hold calm = calm
selection-Accounted cfg t s events (launch phase) calm = if-Accounted s.requested _ _ calm (
    preceded-Accounted
      (after_round cfg t phase (record s { rounds_completed = s.rounds_completed + 1 })) events calm
      (after_round-Accounted cfg t phase _))

within-Accounted :
    (limit : Option ℕ) (s : Serve) (r : Passed) → Accounted r → Accounted (within limit s r)
unfolding within
within-Accounted none s r h = h
within-Accounted (some limit) s r h = refl

after_gate-Accounted :
    (cfg : ServeConfig) (t : Readout) (s : Serve) (throttled : List String) (wake : Option ℕ)
    → Accounted (after_gate cfg t s throttled wake)
unfolding after_gate
after_gate-Accounted cfg t s throttled wake =
    let sel = select_and_gate cfg t s.prev_sample throttled wake in
    let s' : Serve = record s {
      requested = s.requested || sel.requested || t.stop_after_selection;
      prev_sample = sel.prev_sample;
    } in
    let selected = after_selection cfg t s' sel.events sel.choice in
    let limit = exhausted cfg.max_rounds s.rounds_completed in
    if-Accounted t.stop_file (break_with s (stop_file_detected s.rounds_completed ∷ []))
      (within limit s selected) refl
      (within-Accounted limit s selected (
        selection-Accounted cfg t s' sel.events sel.choice
          (selected-Calm cfg t s.prev_sample throttled wake)))

pass_gate-Accounted :
    (cfg : ServeConfig) (t : Readout) (s : Serve) (events : List ServeEvent) (g : GateResult)
    → Calm events
    → Accounted (pass_gate cfg t s (record { result = g; events = events }))
unfolding pass_gate
pass_gate-Accounted cfg t s events broke calm = calm
pass_gate-Accounted cfg t s events backing_off calm = calm
pass_gate-Accounted cfg t s events (proceed throttled wake) calm =
    preceded-Accounted (after_gate cfg t s throttled wake) events calm
      (after_gate-Accounted cfg t s throttled wake)

pass-Accounted : (cfg : ServeConfig) (t : Readout) (s : Serve) → Accounted (serve_pass cfg t s)
unfolding serve_pass
pass-Accounted cfg t s =
    let gate = round_throttle_gate cfg t.log_before t.now_before t.back_off in
    let s' : Serve = record s { requested = s.requested || t.stop_at_top } in
    let gated = pass_gate cfg t s' gate in
    let broken = break_with s' [] in
    if-Accounted (s.requested || t.stop_at_top) broken (if t.sentinel then broken else gated) refl (
      if-Accounted t.sentinel broken gated refl (
        pass_gate-Accounted cfg t s' gate.events gate.result
          (gate-Calm cfg t.log_before t.now_before t.back_off)))

chain-Accounted :
    (flow : Flow) (r : Passed) (rest : ServeRun)
    → count_if is_stopping r.events ≡ given_up flow
    → count_if is_stopping rest.events ≡ given_up rest.flow
    → count_if is_stopping (chain flow r rest).events ≡ given_up (chain flow r rest).flow
unfolding chain
chain-Accounted going r rest h k =
    omega (arith, h, k, count_if-append is_stopping r.events rest.events)
chain-Accounted (ended c) r rest h k = h
chain-Accounted blocked r rest h k = h
chain-Accounted errored r rest h k = h

-- Over a whole run, one give-up event is emitted where serve ends with a code other than 0, and none
-- where it ends with 0 or has not ended.
pub gives_up_once :
    (cfg : ServeConfig) (ts : List Readout) (s : Serve)
    → count_if is_stopping (serve cfg ts s).events ≡ given_up (serve cfg ts s).flow
unfolding serve
gives_up_once cfg [] s = refl
gives_up_once cfg (t ∷ ts) s =
    let r = serve_pass cfg t s in
    chain-Accounted r.flow r (serve cfg ts r.state) (pass-Accounted cfg t s)
      (gives_up_once cfg ts r.state)
