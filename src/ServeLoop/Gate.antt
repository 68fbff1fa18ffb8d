-- ===== src/ServeLoop/Gate.antt =====
-- The throttle gate of agent_runner/cli/serve_cmd.py: `_gate_throttle`, `_throttle_skip_context` and
-- `_round_throttle_gate`.
use cli_agent_runner.Throttle.Scan.{Log}
use cli_agent_runner.Throttle.Active.{
  active_throttles, pending_recovered, check_throttle_state, TransientErrorState,
}
use cli_agent_runner.ServeLoop.{
  ServeConfig, skip_around, ServeEvent, recovered_breadcrumb, back_off, back_off_event,
  rate_limit_stop, skip, stop,
}
use Prim.Native.Nat.{ℕ, min}
use cli_agent_runner.Prelude.{
  List, ℕ, String, [], Option, Dict, none, some, min, ◌∷◌, map, ◌++◌, lookup, if◌then◌else◌,
}
use cli_agent_runner.Throttle.Sleep.{
  Readings, SleepResult, apply_back_off, Slice, completed, interrupted, sleeping,
}

-- What a back-off reads: its clock, the jitter, the chunk of the sleep and its slices.
pub record BackOffReadings : Type 0 where
  pub clock : Readings
  pub jitter : ℕ
  pub chunk : ℕ
  pub slices : List Slice

-- `broke` stops the loop; in `backing_off` the sleep goes on.
pub data GateResult : Type 0 where
  proceed : (throttled_phases : List String) (wake_epoch : Option ℕ) → GateResult
  broke backing_off : GateResult

pub record Gated : Type 0 where
  pub result : GateResult
  pub events : List ServeEvent

abbrev of_sleep : SleepResult → GateResult
of_sleep interrupted = broke
of_sleep completed = proceed [] none
of_sleep sleeping = backing_off

unfoldable pub gate_throttle :
    ServeConfig → Log → Option TransientErrorState → BackOffReadings → Gated
unfolding apply_back_off
gate_throttle cfg log none t = record { result = proceed [] none; events = [] }
gate_throttle cfg log (some throttle) t = elim cfg.transient_error_action [
  | back_off ↦
      let b = apply_back_off log throttle t.clock t.jitter t.chunk t.slices in
      record { result = of_sleep b.result; events = map back_off_event b.emitted }
  | stop ↦ record { result = broke; events = rate_limit_stop ∷ [] }
  | skip ↦ record { result = proceed [] none; events = [] }
]

abbrev earlier : ℕ → Option ℕ → Option ℕ
earlier n none = some n
earlier n (some m) = some (min m n)

-- The throttled phases and the wake so far, after one more phase.
unfoldable pub note_blocked :
    ServeConfig
    → Dict TransientErrorState
    → List String × Option ℕ
    → String
    → List String × Option ℕ
note_blocked cfg active (throttled, wake) phase = elim (lookup (cfg.binary (some phase)) active) [
  | none ↦ (throttled, wake)
  | some st ↦ (throttled ++ phase ∷ [], earlier st.reset_at_epoch wake)
]

-- The loop over the phases: those whose agent is throttled, and the earliest of the resets.
unfoldable pub blocked_phases :
    ServeConfig
    → Dict TransientErrorState
    → List String × Option ℕ
    → List String
    → List String × Option ℕ
unfolding note_blocked
blocked_phases cfg active found [] = found
blocked_phases cfg active found (phase ∷ phases) =
    blocked_phases cfg active (note_blocked cfg active found phase) phases

unfoldable pub throttle_skip_context : ServeConfig → Log → ℕ → Gated
unfolding blocked_phases active_throttles pending_recovered
throttle_skip_context cfg log now =
    let active = active_throttles log now in
    let (throttled, wake) = blocked_phases cfg active ([], none) cfg.phases.phases in
    record {
      result = proceed throttled wake;
      events = map recovered_breadcrumb (pending_recovered log active now);
    }

unfoldable pub round_throttle_gate : ServeConfig → Log → ℕ → BackOffReadings → Gated
unfolding skip_around throttle_skip_context gate_throttle check_throttle_state
round_throttle_gate cfg log now t =
    if skip_around cfg
    then throttle_skip_context cfg log now
    else gate_throttle cfg log (check_throttle_state log now) t
