-- ===== src/Throttle/Sleep.antt =====
-- The sleeps of agent_runner/_throttle.py: `_interruptible_sleep` and `_apply_back_off`. Times are in
-- ticks. What one slice of a sleep sees of its surroundings is a value of `Slice`, and a sleep runs
-- over the list of them; the jitter of `random.uniform` is an argument.
pub mod Laws
use cli_agent_runner.Clock.{ticks}
use cli_agent_runner.Event.{get_str, Event}
use cli_agent_runner.Throttle.Coerce.{coerce_epoch_int}
use cli_agent_runner.Throttle.Active.{TransientErrorState, throttled_for_s}
use cli_agent_runner.Throttle.Scan.{Log, latest_unrecovered_detected}
use cli_agent_runner.Throttle.Ladder.{Adjusted, BackoffCapped, compute_adjusted_reset_at}
use cli_agent_runner.Prelude.{
  ◌*◌, ◌+◌, ◌++◌, ◌-◌, ◌/◌, ◌==◌, Bool, List, Option, String, [], if◌then◌else◌, false, leb, lookup,
  ltb, min, none, some, str_eq, ◌||◌, ℕ, ◌∷◌,
}

abbrev pub back_off_cap_s : ℕ
back_off_cap_s = 28800

abbrev pub back_off_jitter_max_s : ℕ
back_off_jitter_max_s = 30

-- `stop_requested` is `stop["requested"]`, `should_stop` the answer of the predicate (false where
-- none is given), `elapsed` what the monotonic clock measures round the wait of a live listener.
pub record Slice : Type 0 where
  pub stop_requested : Bool
  pub should_stop : Bool
  pub epoch : ℕ
  pub elapsed : ℕ

-- `interrupted` is the result True and `completed` the result False; with `sleeping` the slices ran
-- out and the loop is still waiting.
pub data SleepResult : Type 0 where
  interrupted completed sleeping : SleepResult

abbrev pub wants_stop : Slice → Bool
wants_stop t = t.stop_requested || t.should_stop

abbrev reached : Option ℕ → ℕ → Bool
reached none epoch = false
reached (some deadline) epoch = leb deadline epoch

unfoldable pub interruptible_sleep : Bool → Option ℕ → ℕ → ℕ → List Slice → SleepResult
interruptible_sleep live deadline chunk remaining [] =
    if remaining == 0 then completed else sleeping
interruptible_sleep live deadline chunk remaining (t ∷ ts) =
    let nap = min chunk remaining in
    let rest =
      interruptible_sleep live deadline chunk (remaining - (if live then t.elapsed else nap)) ts in
    if remaining == 0
    then completed
    else if wants_stop t
    then interrupted
    else if reached deadline t.epoch
    then completed
    else rest

-- The clock's readings, in the order of the calls.
pub record Readings : Type 0 where
  pub at_raw : ℕ
  pub at_adjust : ℕ
  pub at_request : ℕ
  pub at_start : ℕ
  pub at_end : ℕ

pub data Emission : Type 0 where
  backoff_capped : BackoffCapped → Emission
  recovery : (classification agent : String) (throttled_for_s : ℕ) → Emission

pub record BackOff : Type 0 where
  pub result : SleepResult
  pub emitted : List Emission

-- The emitter's own reset of the throttle, where the newest detection is still its agent's.
unfoldable pub raw_reset : Log → TransientErrorState → ℕ → ℕ
raw_reset log throttle now = elim (latest_unrecovered_detected log) [
  | none ↦ throttle.reset_at_epoch
  | some ev ↦
      if str_eq (get_str "agent" "unknown" ev) throttle.agent
      then coerce_epoch_int (lookup "reset_at_epoch" ev) throttle.reset_at_epoch now
      else throttle.reset_at_epoch
]

unfoldable pub adjusted : Log → TransientErrorState → Readings → Adjusted
unfolding raw_reset
adjusted log throttle clock =
    compute_adjusted_reset_at throttle.classification (raw_reset log throttle clock.at_raw)
      throttle.agent log clock.at_adjust

optional : Option BackoffCapped → List Emission
optional none = []
optional (some e) = backoff_capped e ∷ []

-- The event of the defensive cap: a reset too far away to be legitimate.
unfoldable pub defensive : TransientErrorState → ℕ → ℕ → List Emission
defensive throttle deadline now =
    if ltb (now + back_off_cap_s * ticks) deadline
    then backoff_capped (record {
      classification = throttle.classification;
      agent = throttle.agent;
      requested_sleep_s = (deadline - now) / ticks;
      applied_sleep_s = back_off_cap_s;
      original_reset_at_epoch = none;
      applied_reset_at_epoch = none;
      consecutive_count = none;
      capped_by_absolute_max = none;
    })
      ∷ []
    else []

unfoldable pub back_off_sleep : ℕ → ℕ → ℕ
back_off_sleep deadline now =
    if ltb (now + back_off_cap_s * ticks) deadline then back_off_cap_s * ticks else deadline - now

breadcrumb : SleepResult → TransientErrorState → Readings → List Emission
breadcrumb completed throttle clock =
    recovery throttle.classification throttle.agent ((clock.at_end - clock.at_start) / ticks) ∷ []
breadcrumb _ throttle clock = []

unfoldable pub apply_back_off : Log → TransientErrorState → Readings → ℕ → ℕ → List Slice → BackOff
unfolding adjusted optional defensive back_off_sleep breadcrumb interruptible_sleep
apply_back_off log throttle clock jitter chunk slices =
    let adj = adjusted log throttle clock in
    let deadline = adj.applied_reset_at * ticks + jitter in
    let result =
      interruptible_sleep false (some deadline) chunk (back_off_sleep deadline clock.at_request)
        slices in
    record {
      result = result;
      emitted =
          optional adj.emitted
          ++ (defensive throttle deadline clock.at_request ++ breadcrumb result throttle clock);
    }
