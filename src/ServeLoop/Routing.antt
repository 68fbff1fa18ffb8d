-- ===== src/ServeLoop/Routing.antt =====
-- Under the skip policy, the loop of `cmd` launches no throttled agent.
use cli_agent_runner.ServeLoop.Rounds.{after_round_counts}
use cli_agent_runner.ServeLoop.Pause.{pause_for_memory}
use cli_agent_runner.ServeLoop.Gate.{blocked_phases, round_throttle_gate, throttle_skip_context}
use cli_agent_runner.ServeLoop.Around.{aware_phases, aware_routed}
use cli_agent_runner.Throttle.Active.{active_throttles}
use cli_agent_runner.ServeLoop.{ServeConfig, ServeEvent, phase_aware, skip_around}
use cli_agent_runner.HostHealth.{Sample}
use cli_agent_runner.ServeLoop.Pass.{
  Passed, after_gate, after_selection, exhausted, pass_gate, serve_pass, within,
}
use cli_agent_runner.ServeLoop.Selecting.{
  Choice, Readout, Serve, hold, idle, launch, of_pause, select_and_gate, select_aware,
}
use cli_agent_runner.Prelude.{
  ◌+◌, List, Option, String, [], arith, false, lookup, none, some, true, ◌||◌, ℕ, ◌≡◌,
}

launched_selection :
    (cfg : ServeConfig) (t : Readout) (s : Serve) (events : List ServeEvent) (c : Choice)
    (phase : Option String)
    → (after_selection cfg t s events c).launched ≡ some phase
    → c ≡ launch phase
unfolding after_selection
launched_selection cfg t s events idle phase h = absurd (ground (arith, h))
launched_selection cfg t s events hold phase h = absurd (ground (arith, h))
launched_selection cfg t s events (launch q) phase h =
    ground (
      arith,
      h,
      after_round_counts cfg t q (record s { rounds_completed = s.rounds_completed + 1 }),
    )

within_launched :
    (limit : Option ℕ) (s : Serve) (r : Passed) (phase : Option String)
    → (within limit s r).launched ≡ some phase
    → r.launched ≡ some phase
unfolding within
within_launched none s r phase h = h
within_launched (some limit) s r phase h = absurd (ground (arith, h))

select_aware_of :
    (cfg : ServeConfig) (t : Readout) (prev : Sample) (throttled : List String) (wake : Option ℕ)
    (phase : Option String)
    → phase_aware cfg ≡ true
    → cfg.ignore_schedule ≡ false
    → (select_and_gate cfg t prev throttled wake).choice ≡ launch phase
    → (select_aware cfg t
        (pause_for_memory cfg.health prev t.sample t.span t.polls).prev_sample
        throttled
        wake).choice
      ≡ launch phase
unfolding select_and_gate of_pause
select_aware_of cfg t prev throttled wake phase aware obeys h = ground (arith, aware, obeys, h)

gate_launched :
    (cfg : ServeConfig) (t : Readout) (s : Serve) (throttled : List String) (wake : Option ℕ)
    (phase : Option String)
    → (after_gate cfg t s throttled wake).launched ≡ some phase
    → (select_and_gate cfg t s.prev_sample throttled wake).choice ≡ launch phase
unfolding after_gate
gate_launched cfg t s throttled wake phase h =
    let sel = select_and_gate cfg t s.prev_sample throttled wake in
    let s' : Serve = record s {
      requested = s.requested || sel.requested || t.stop_after_selection;
      prev_sample = sel.prev_sample;
    } in
    let selected = after_selection cfg t s' sel.events sel.choice in
    let limit = exhausted cfg.max_rounds s.rounds_completed in
    let kept : (within limit s selected).launched ≡ some phase = ground (arith, h) in
    launched_selection cfg t s' sel.events sel.choice phase
      (within_launched limit s selected phase kept)

-- The gate that a launching pass went through.
pass_launched :
    (cfg : ServeConfig) (t : Readout) (s : Serve) (phase : Option String)
    → (serve_pass cfg t s).launched ≡ some phase
    → (pass_gate cfg t
        (record s { requested = s.requested || t.stop_at_top })
        (round_throttle_gate cfg t.log_before t.now_before t.back_off)).launched
      ≡ some phase
unfolding serve_pass
pass_launched cfg t s phase h = ground (arith, h)

-- Under the skip policy, a round that serve launches has a phase, and the agent of that phase has no
-- active throttle in the log that the pass read.
pub launched-unthrottled :
    (cfg : ServeConfig) (t : Readout) (s : Serve) (phase : Option String)
    → skip_around cfg ≡ true
    → (serve_pass cfg t s).launched ≡ some phase
    → (p : String) × (phase ≡ some p)
      × (lookup (cfg.binary (some p)) (active_throttles t.log_before t.now_before) ≡ none)
unfolding pass_gate round_throttle_gate throttle_skip_context
launched-unthrottled cfg t s phase skips h =
    let (listed, policy, aware, obeys) = aware_phases cfg skips in
    let s' : Serve = record s { requested = s.requested || t.stop_at_top } in
    let active = active_throttles t.log_before t.now_before in
    let blocked = blocked_phases cfg active ([], none) cfg.phases.phases in
    let through : (after_gate cfg t s' blocked.0 blocked.1).launched ≡ some phase =
      rw (skips) at (pass_launched cfg t s phase h) in
    aware_routed cfg t _ active phase skips (
      select_aware_of cfg t s'.prev_sample blocked.0 blocked.1 phase aware obeys
        (gate_launched cfg t s' blocked.0 blocked.1 phase through))
