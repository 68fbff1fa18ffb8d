-- ===== src/ServeLoop/Calm.antt =====
-- The gates and the selection of agent_runner/cli/serve_cmd.py never give up.
use cli_agent_runner.ServeRound.{cgroup}
use cli_agent_runner.PhaseSelect.{Zones}
use cli_agent_runner.ServeLoop.{
  ServeConfig, ServeEvent, back_off_event, give_up, recovered_breadcrumb,
}
use cli_agent_runner.ServeLoop.Selecting.{Readout, of_pause, select_and_gate, select_aware}
use cli_agent_runner.ServeLoop.Pause.{
  Poll, Span, pause_for_memory, pause_for_schedule, pause_until_selectable,
}
use cli_agent_runner.Throttle.Scan.{Log}
use cli_agent_runner.HostHealth.{HealthConfig, Sample}
use cli_agent_runner.Throttle.Sleep.{Emission, apply_back_off}
use cli_agent_runner.Throttle.Active.{
  Cleared, TransientErrorState, active_throttles, check_throttle_state, pending_recovered,
}
use cli_agent_runner.Prelude.{
  Bool, List, Option, String, [], arith, count_if, false, map, none, refl, some, true, ℕ, ◌∷◌, ◌≡◌,
}
use cli_agent_runner.ServeLoop.Gate.{
  BackOffReadings, gate_throttle, round_throttle_gate, throttle_skip_context,
}

abbrev pub is_stopping : ServeEvent → Bool
is_stopping (give_up (cgroup ev)) = false
is_stopping (give_up e) = true
is_stopping _ = false

-- The events before the verdicts are no give-up events.
abbrev pub Calm : List ServeEvent → Type 0
Calm events = count_if is_stopping events ≡ 0

memory-Calm :
    (cfg : HealthConfig) (prev sample : Sample) (span : Span) (polls : List Poll)
    → Calm (pause_for_memory cfg prev sample span polls).events
unfolding pause_for_memory
memory-Calm cfg prev sample span polls = ground arith

schedule-Calm :
    (cfg : ServeConfig) (prev : Sample) (zones : Zones) (span : Span) (polls : List Poll)
    → Calm (pause_for_schedule cfg prev zones span polls).events
unfolding pause_for_schedule
schedule-Calm cfg prev zones span polls = ground arith

aware-Calm :
    (cfg : ServeConfig) (t : Readout) (prev : Sample) (throttled : List String) (wake : Option ℕ)
    → Calm (select_aware cfg t prev throttled wake).events
unfolding select_aware of_pause pause_until_selectable
aware-Calm cfg t prev throttled wake = ground arith

pub selected-Calm :
    (cfg : ServeConfig) (t : Readout) (prev : Sample) (throttled : List String) (wake : Option ℕ)
    → Calm (select_and_gate cfg t prev throttled wake).events
unfolding select_and_gate of_pause
selected-Calm cfg t prev throttled wake =
    let memory = pause_for_memory cfg.health prev t.sample t.span t.polls in
    ground (
      arith,
      memory-Calm cfg.health prev t.sample t.span t.polls,
      schedule-Calm cfg memory.prev_sample t.zones t.span t.polls,
      aware-Calm cfg t memory.prev_sample throttled wake,
    )

back_off-Calm : (es : List Emission) → Calm (map back_off_event es)
back_off-Calm [] = refl
back_off-Calm (e ∷ es) = omega (arith, back_off-Calm es)

breadcrumbs-Calm : (cs : List Cleared) → Calm (map recovered_breadcrumb cs)
breadcrumbs-Calm [] = refl
breadcrumbs-Calm (c ∷ cs) = omega (arith, breadcrumbs-Calm cs)

gate_throttle-Calm :
    (cfg : ServeConfig) (log : Log) (throttle : Option TransientErrorState) (t : BackOffReadings)
    → Calm (gate_throttle cfg log throttle t).events
unfolding gate_throttle
gate_throttle-Calm cfg log none t = refl
gate_throttle-Calm cfg log (some throttle) t =
    ground
      (arith, back_off-Calm (apply_back_off log throttle t.clock t.jitter t.chunk t.slices).emitted)

pub gate-Calm :
    (cfg : ServeConfig) (log : Log) (now : ℕ) (t : BackOffReadings)
    → Calm (round_throttle_gate cfg log now t).events
unfolding round_throttle_gate throttle_skip_context
gate-Calm cfg log now t = ground (
  arith,
  gate_throttle-Calm cfg log (check_throttle_state log now) t,
  breadcrumbs-Calm (pending_recovered log (active_throttles log now) now),
)
