-- ===== src/RoundOutcome.antt =====
-- agent_runner/_round_outcome.py: what one scan of the events tail says of the round that just ran.
-- `none` as a result is a Python exception: a stamp that does not parse.
mod Tests
pub mod OneScan
pub mod Unlabelled
use cli_agent_runner.Clock.{ticks}
use cli_agent_runner.Event.Time.{parse_iso_ms}
use cli_agent_runner.Throttle.Active.{TransientErrorState, active_throttles_of}
use cli_agent_runner.Throttle.Scan.{Log, is_detected, note_transient, tail_events}
use cli_agent_runner.Event.{Event, Value, get_str, is_kind, truthy}
use cli_agent_runner.Prelude.{
  ◌&&◌, ◌*◌, ◌+◌, ◌-◌, Bool, Dict, List, Option, String, [], if◌then◌else◌, equals, false, has_key,
  insert, is_empty, leb, lookup, map, none, not, some, true, ◌||◌, ℕ, ℤ, ◌∷◌,
}
use mathlib.Core.Option

-- The variables of the loop of `round_outcome`.
pub record Fold : Type 0 where
  pub newest_before_ts : Option Value
  pub newest_terminated_ts : Option Value
  pub newest_usage_ts : Option Value
  pub usage_capable : Bool
  pub transient : Dict (Option Event)
  pub usage_capable_by_agent : Dict Bool
  pub newest_usage_ts_by_agent : Dict Value
  pub detected_count : Dict ℕ

abbrev pub count_of : String → Dict ℕ → ℕ
count_of agent counts = elim (lookup agent counts) [ none ↦ 0 | some n ↦ n ]

abbrev pub is_usage : Event → Bool
is_usage = is_kind "agent_usage_recorded"

-- The counts of detections since the last success, after one event.
unfoldable pub note_count : Dict ℕ → Event → Dict ℕ
note_count counts ev =
    let agent = get_str "agent" "unknown" ev in
    let counts' =
      if is_detected ev then insert agent (count_of agent counts + 1) counts else counts in
    if is_usage ev && truthy (lookup "success" ev) then insert agent 0 counts' else counts'

-- The stamps, after one event with a stamp.
unfoldable pub note_stamp : Fold → Event → Value → Fold
note_stamp st ev ts =
    let agent = get_str "agent" "unknown" ev in
    if is_kind "round_substrate_before" ev
    then record st { newest_before_ts = some ts }
    else if is_kind "round_mem_terminated" ev
    then record st { newest_terminated_ts = some ts }
    else if is_usage ev
    then record st {
      newest_usage_ts = some ts;
      newest_usage_ts_by_agent = insert agent ts st.newest_usage_ts_by_agent;
    }
    else st

unfoldable pub note_usage : Fold → Event → Fold
unfolding note_count note_transient
note_usage st ev =
    let agent = get_str "agent" "unknown" ev in
    record st {
      transient = note_transient st.transient ev;
      detected_count = note_count st.detected_count ev;
      usage_capable = is_usage ev || st.usage_capable;
      usage_capable_by_agent =
          if is_usage ev
          then insert agent true st.usage_capable_by_agent
          else st.usage_capable_by_agent;
    }

unfoldable pub fold_event : Fold → Event → Fold
unfolding note_usage note_stamp
fold_event st ev =
    let st' = note_usage st ev in
    elim (lookup "ts" ev) [
      | none ↦ st'
      | some ts ↦ if truthy (some ts) then note_stamp st' ev ts else st'
    ]

unfoldable pub fold_events : Fold → List Event → Fold
fold_events st [] = st
fold_events st (ev ∷ evs) = fold_events (fold_event st ev) evs

abbrev pub start : Fold
start = record {
  newest_before_ts = none;
  newest_terminated_ts = none;
  newest_usage_ts = none;
  usage_capable = false;
  transient = [];
  usage_capable_by_agent = [];
  newest_usage_ts_by_agent = [];
  detected_count = [];
}

pub record RoundOutcome : Type 0 where
  pub mem_terminated : Bool
  pub usage_capable : Bool
  pub newest_usage_ts : Option Value
  pub newest_substrate_before_ts : Option Value
  pub latest_transient_per_agent : Dict (Option Event)
  pub ran_agent : Option String
  pub usage_capable_by_agent : Dict Bool
  pub newest_usage_ts_by_agent : Dict Value
  pub backoff_exponent_by_agent : Dict ℕ

-- `{a: max(0, c - 1) for a, c in detected_count.items()}`.
unfoldable pub exponents : Dict ℕ → Dict ℕ
exponents [] = []
exponents ((agent, c) ∷ counts) = (agent, c - 1) ∷ exponents counts

-- `parse_iso_ms(a) >= parse_iso_ms(b)`.
unfoldable pub stamp_ge : Value → Value → Option Bool
stamp_ge a b = elim (parse_iso_ms a) [
  | none ↦ none
  | some x ↦ elim (parse_iso_ms b) [ none ↦ none | some y ↦ some (leb y x) ]
]

unfoldable pub was_terminated : Option Value → Option Value → Option Bool
was_terminated (some terminated) (some before) = stamp_ge terminated before
was_terminated _ _ = some false

to_outcome : Fold → Option String → Bool → RoundOutcome
to_outcome st ran_agent terminated = record {
  mem_terminated = terminated;
  usage_capable = st.usage_capable;
  newest_usage_ts = st.newest_usage_ts;
  newest_substrate_before_ts = st.newest_before_ts;
  latest_transient_per_agent = st.transient;
  ran_agent = ran_agent;
  usage_capable_by_agent = st.usage_capable_by_agent;
  newest_usage_ts_by_agent = st.newest_usage_ts_by_agent;
  backoff_exponent_by_agent = exponents st.detected_count;
}

unfoldable pub round_outcome : Log → Option String → Option RoundOutcome
unfolding to_outcome was_terminated stamp_ge exponents fold_events
round_outcome log ran_agent =
    let st = fold_events start (tail_events log) in
    Option.map (to_outcome st ran_agent)
      (was_terminated st.newest_terminated_ts st.newest_before_ts)

-- The agent's own entries, or the deployment-wide ones where the agent is not known.
unfoldable pub capable_of : RoundOutcome → Option String → Bool
capable_of o none = o.usage_capable
capable_of o (some agent) = elim (lookup agent o.usage_capable_by_agent) [
  | none ↦ false
  | some b ↦ b
]

unfoldable pub usage_of : RoundOutcome → Option String → Option Value
usage_of o none = o.newest_usage_ts
usage_of o (some agent) = lookup agent o.newest_usage_ts_by_agent

unfoldable pub older_than : Option Value → Option Value → Option Bool
older_than usage none = some false
older_than none (some before) = some true
older_than (some usage) (some before) = Option.map not (stamp_ge usage before)

unfoldable pub round_had_no_progress : ℤ → ℕ → ℕ → Bool → RoundOutcome → Option Bool
unfolding capable_of usage_of older_than
round_had_no_progress returncode duration threshold_s throttle_active o =
    if throttle_active || not (equals returncode 0) || leb (threshold_s * ticks) duration
    then some false
    else if not (capable_of o o.ran_agent)
    then some false
    else older_than (usage_of o o.ran_agent) o.newest_substrate_before_ts

-- `_ran_agent_throttled` of agent_runner/cli/serve_cmd.py: any throttle counts where serve does not
-- know which agent ran.
unfoldable pub ran_agent_throttled : Option String → Dict TransientErrorState → Bool
ran_agent_throttled none active = not (is_empty active)
ran_agent_throttled (some agent) active = has_key agent active

-- `_round_scan` of agent_runner/cli/serve_cmd.py.
unfoldable pub round_scan : Log → Option String → ℕ → Option (Bool × RoundOutcome)
unfolding round_outcome ran_agent_throttled
round_scan log ran_agent now = elim (round_outcome log ran_agent) [
  | none ↦ none
  | some o ↦
      let throttled =
        ran_agent_throttled ran_agent
          (active_throttles_of log o.backoff_exponent_by_agent o.latest_transient_per_agent now) in
      some (if o.mem_terminated then true else throttled, o)
]
