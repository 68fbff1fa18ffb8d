-- ===== src/Throttle/Active.antt =====
-- The throttles in force, in agent_runner/_throttle.py: per agent, the global latest, the composed
-- view, and the agents whose throttle cleared with no breadcrumb.
use cli_agent_runner.Prelude.{
  ℕ, ◌+◌, ◌-◌, ◌*◌, ◌/◌, Option, none, some, List, [], ◌∷◌, String, Dict, lookup, insert, has_key,
  leb, ltb, if◌then◌else◌, ℤ, pos,
}
use cli_agent_runner.Clock.{ticks}
use cli_agent_runner.Event.{Value, Event, get_str, truthy}
use cli_agent_runner.Event.Time.{parse_iso_ms, unix_epoch_ms}
use cli_agent_runner.Throttle.Coerce.{coerce_int, coerce_epoch_int}
use cli_agent_runner.Throttle.Scan.{Log, latest_unrecovered_detected, latest_transient_per_agent}
use cli_agent_runner.Throttle.Ladder.{events_derived_reset}

-- `TransientErrorState` of agent_runner/api_types.py.
pub record TransientErrorState : Type 0 where
  pub reset_at_epoch : ℕ
  pub classification : String
  pub agent : String
  pub since_round : ℤ
  pub phase : String

-- The state that a detected event puts its agent in, if its extended reset is still to come. Both
-- `_active_throttles` and `_check_throttle_state` build it with these lines.
unfoldable pub throttle_of : Log → Dict ℕ → ℕ → String → Event → Option TransientErrorState
throttle_of log cache now agent ev =
    let classification = get_str "classification" "rate_limit_account" ev in
    let reset_at =
      events_derived_reset log cache agent classification
        (coerce_epoch_int (lookup "reset_at_epoch" ev) 0 now) in
    if leb (reset_at * ticks) now
    then none
    else some (record {
      reset_at_epoch = reset_at;
      classification = classification;
      agent = agent;
      since_round = coerce_int (lookup "round_num" ev) (pos 0);
      phase = get_str "phase" "" ev;
    })

unfoldable pub put :
    String → Option TransientErrorState → Dict TransientErrorState → Dict TransientErrorState
put agent none active = active
put agent (some s) active = insert agent s active

-- The loop of `_active_throttles` over the latest events.
unfoldable pub active_from :
    Log → Dict ℕ → ℕ → Dict TransientErrorState → Dict (Option Event) → Dict TransientErrorState
unfolding put
active_from log cache now active [] = active
active_from log cache now active ((agent, none) ∷ latest) = active_from log cache now active latest
active_from log cache now active ((agent, some ev) ∷ latest) =
    active_from log cache now (put agent (throttle_of log cache now agent ev) active) latest

-- `_latest` and `_exponent_cache` are given.
unfoldable pub active_throttles_of :
    Log → Dict ℕ → Dict (Option Event) → ℕ → Dict TransientErrorState
unfolding active_from
active_throttles_of log cache latest now = active_from log cache now [] latest

-- With neither given.
unfoldable pub active_throttles : Log → ℕ → Dict TransientErrorState
unfolding active_throttles_of
active_throttles log now = active_throttles_of log [] (latest_transient_per_agent log) now

unfoldable pub check_throttle_state : Log → ℕ → Option TransientErrorState
check_throttle_state log now = elim (latest_unrecovered_detected log) [
  | none ↦ none
  | some ev ↦ throttle_of log [] now (get_str "agent" "unknown" ev) ev
]

-- `max(active.values(), key=reset_at_epoch)`: the first of the largest.
unfoldable pub later : TransientErrorState → Dict TransientErrorState → TransientErrorState
later best [] = best
later best ((agent, s) ∷ rest) =
    later (if ltb best.reset_at_epoch s.reset_at_epoch then s else best) rest

unfoldable pub latest_clearing : Dict TransientErrorState → Option TransientErrorState
latest_clearing [] = none
latest_clearing ((agent, s) ∷ rest) = some (later s rest)

unfoldable pub coherent_scalar :
    Option TransientErrorState → Dict TransientErrorState → Option TransientErrorState
unfolding latest_clearing later
coherent_scalar none active = latest_clearing active
coherent_scalar (some s) active = elim (lookup s.agent active) [ none ↦ some s | some t ↦ some t ]

unfoldable pub effective_throttle_view :
    Log → ℕ → Option TransientErrorState × Dict TransientErrorState
unfolding coherent_scalar
effective_throttle_view log now =
    let active = active_throttles log now in
    (coherent_scalar (check_throttle_state log now) active, active)

-- Whole seconds from a stamp in milliseconds to now, 0 where the clock stepped back.
unfoldable pub elapsed_s : ℕ → ℕ → ℕ
elapsed_s since_ms now = (now * 1000 + unix_epoch_ms * ticks - since_ms * ticks) / (1000 * ticks)

unfoldable pub throttled_for_s : Option Value → ℕ → ℕ
unfolding elapsed_s
throttled_for_s none now = 0
throttled_for_s (some ts) now =
    if truthy (some ts) then elim (parse_iso_ms ts) [ none ↦ 0 | some ms ↦ elapsed_s ms now ] else 0

pub record Cleared : Type 0 where
  pub agent : String
  pub classification : String
  pub throttled_for_s : ℕ

unfoldable pub cleared_from : ℕ → Dict TransientErrorState → Dict (Option Event) → List Cleared
cleared_from now active [] = []
cleared_from now active ((agent, none) ∷ latest) = cleared_from now active latest
cleared_from now active ((agent, some ev) ∷ latest) =
    let rest = cleared_from now active latest in
    if has_key agent active
    then rest
    else record {
      agent = agent;
      classification = get_str "classification" "rate_limit_account" ev;
      throttled_for_s = throttled_for_s (lookup "ts" ev) now;
    }
      ∷ rest

unfoldable pub pending_recovered : Log → Dict TransientErrorState → ℕ → List Cleared
unfolding cleared_from
pending_recovered log active now = cleared_from now active (latest_transient_per_agent log)
