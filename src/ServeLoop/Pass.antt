-- ===== src/ServeLoop/Pass.antt =====
-- One pass of the loop of `cmd` of agent_runner/cli/serve_cmd.py, and its runs.
use cli_agent_runner.ServeLoop.{
  ServeConfig, ServeEvent, give_up, max_rounds_reached, stop_file_detected,
}
use cli_agent_runner.RoundOutcome.{RoundOutcome, round_scan}
use cli_agent_runner.ServePolicy.{Round}
use cli_agent_runner.ServeRound.{Outcome, post_round_verdicts}
use cli_agent_runner.ServeLoop.Gate.{Gated, backing_off, broke, proceed, round_throttle_gate}
use cli_agent_runner.ServeLoop.Selecting.{
  Choice, Readout, Serve, hold, idle, launch, select_and_gate,
}
use cli_agent_runner.Prelude.{
  ◌+◌, ◌++◌, Bool, List, Option, String, [], if◌then◌else◌, false, leb, map, none, some, ◌||◌, ℕ,
  ◌∷◌,
}
use mathlib.Core.Option

-- `ended` carries the exit code; `blocked` is a wait that goes on, `errored` an exception.
pub data Flow : Type 0 where
  going : Flow
  ended : (exit_code : ℕ) → Flow
  blocked errored : Flow

-- `launched` is the round that was spawned, with the phase it was given.
pub record Passed : Type 0 where
  pub state : Serve
  pub events : List ServeEvent
  pub launched : Option (Option String)
  pub flow : Flow

abbrev raising : Option String → Serve → Passed
raising phase s = record { state = s; events = []; launched = some phase; flow = errored }

-- The loop's breaks after the verdicts.
unfoldable pub settle : ServeConfig → Readout → Option String → Serve → Option Outcome → Passed
settle cfg t phase s none = raising phase s
settle cfg t phase s (some o) = record {
  state = record s { streaks = o.streaks };
  events = map give_up o.emitted;
  launched = some phase;
  flow = elim o.exit_code [
    | some code ↦ ended code
    | none ↦ if cfg.once || s.requested || t.stop_after_round then ended 0 else going
  ];
}

-- The verdicts on the scan of the log.
unfoldable pub judge :
    ServeConfig → Readout → Option String → Serve → Option (Bool × RoundOutcome) → Passed
unfolding settle post_round_verdicts
judge cfg t phase s none = raising phase s
judge cfg t phase s (some (throttled, outcome)) =
    let round : Round = record {
      returncode = t.returncode;
      duration = t.duration;
      throttle_active = throttled;
    } in
    settle cfg t phase s (
      post_round_verdicts round outcome s.streaks cfg.restart_delay_s t.log_after t.now_after
        t.cgroup_events)

-- The round's end.
unfoldable pub after_round : ServeConfig → Readout → Option String → Serve → Passed
unfolding judge round_scan
after_round cfg t phase s =
    judge cfg t phase s
      (round_scan t.log_after (Option.map (λ p. cfg.binary (some p)) phase) t.now_after)

abbrev pub break_with : Serve → List ServeEvent → Passed
break_with s events = record { state = s; events = events; launched = none; flow = ended 0 }

abbrev pub exhausted : Option ℕ → ℕ → Option ℕ
exhausted none rounds = none
exhausted (some limit) rounds = if leb limit rounds then some limit else none

-- The break where the limit is reached.
unfoldable pub within : Option ℕ → Serve → Passed → Passed
within none s selected = selected
within (some limit) s selected = break_with s (max_rounds_reached s.rounds_completed limit ∷ [])

-- From the selection on.
unfoldable pub after_selection : ServeConfig → Readout → Serve → List ServeEvent → Choice → Passed
unfolding after_round
after_selection cfg t s events idle = record {
  state = s;
  events = events;
  launched = none;
  flow = blocked;
}
after_selection cfg t s events hold = record {
  state = s;
  events = events;
  launched = none;
  flow = going;
}
after_selection cfg t s events (launch phase) =
    let r = after_round cfg t phase (record s { rounds_completed = s.rounds_completed + 1 }) in
    if s.requested then break_with s events else record r { events = events ++ r.events }

-- After the throttle gate: the stop file, the limit on rounds, and the selection.
unfoldable pub after_gate : ServeConfig → Readout → Serve → List String → Option ℕ → Passed
unfolding select_and_gate after_selection within
after_gate cfg t s throttled wake =
    let sel = select_and_gate cfg t s.prev_sample throttled wake in
    let s' : Serve = record s {
      requested = s.requested || sel.requested || t.stop_after_selection;
      prev_sample = sel.prev_sample;
    } in
    let selected = after_selection cfg t s' sel.events sel.choice in
    if t.stop_file
    then break_with s (stop_file_detected s.rounds_completed ∷ [])
    else within (exhausted cfg.max_rounds s.rounds_completed) s selected

-- After the throttle gate's answer.
unfoldable pub pass_gate : ServeConfig → Readout → Serve → Gated → Passed
unfolding after_gate
pass_gate cfg t s gate = elim gate.result [
  | broke ↦ break_with s gate.events
  | backing_off ↦ record { state = s; events = gate.events; launched = none; flow = blocked }
  | proceed throttled wake ↦
      let r = after_gate cfg t s throttled wake in record r { events = gate.events ++ r.events }
]

-- One pass of `while not stop["requested"]`.
unfoldable pub serve_pass : ServeConfig → Readout → Serve → Passed
unfolding round_throttle_gate pass_gate
serve_pass cfg t s =
    let s' : Serve = record s { requested = s.requested || t.stop_at_top } in
    let gated = pass_gate cfg t s' (round_throttle_gate cfg t.log_before t.now_before t.back_off) in
    if s'.requested then break_with s' [] else if t.sentinel then break_with s' [] else gated

pub record ServeRun : Type 0 where
  pub launched : List (Option String)
  pub events : List ServeEvent
  pub flow : Flow
  pub state : Serve

abbrev pub with_launch : Option (Option String) → List (Option String) → List (Option String)
with_launch none launched = launched
with_launch (some phase) launched = phase ∷ launched

-- A pass before the rest of the run, which follows only where the loop goes on.
unfoldable pub chain : Flow → Passed → ServeRun → ServeRun
chain going r rest = record rest {
  launched = with_launch r.launched rest.launched;
  events = r.events ++ rest.events;
}
chain flow r rest = record {
  launched = with_launch r.launched [];
  events = r.events;
  flow = flow;
  state = r.state;
}

-- The loop over its passes.
unfoldable pub serve : ServeConfig → List Readout → Serve → ServeRun
unfolding serve_pass chain
serve cfg [] s = record { launched = []; events = []; flow = going; state = s }
serve cfg (t ∷ ts) s = let r = serve_pass cfg t s in chain r.flow r (serve cfg ts r.state)

-- Before the first pass.
unfoldable pub at_boot : Serve
at_boot = record {
  requested = false;
  rounds_completed = 0;
  streaks = record { crashes = 0; mem_terminations = 0; no_progress = 0 };
  prev_sample = record {
    psi_some = none;
    psi_full = none;
    swap_sout = none;
    mem_free_mb = none;
    mem_available_mb = none;
  };
}
