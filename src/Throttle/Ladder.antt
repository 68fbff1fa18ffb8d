-- ===== src/Throttle/Ladder.antt =====
-- The back-off ladder of agent_runner/_throttle.py and its constants in
-- agent_runner/builtin_plugins/_constants.py.
use cli_agent_runner.Prelude.{
  ℕ, ◌+◌, ◌-◌, ◌*◌, ◌/◌, ◌^◌, min, Bool, true, false, ◌||◌, Option, none, some, String, str_eq,
  Dict, lookup, leb, ltb, if◌then◌else◌, equals,
}
use cli_agent_runner.Clock.{ticks}
use cli_agent_runner.Event.{Value, int}
use cli_agent_runner.Throttle.Scan.{Log, backoff_exponent}

abbrev pub exp_cap : ℕ
exp_cap = 5

abbrev pub absolute_cap_s : ℕ
absolute_cap_s = 1800

-- `_BACK_OFF_DEFAULTS.get(classification)`.
unfoldable pub back_off_default : String → Option ℕ
back_off_default classification =
    if str_eq classification "rate_limit_model"
    then some 60
    else if str_eq classification "api_transient_5xx"
    then some 60
    else if str_eq classification "api_timeout"
    then some 30
    else none

-- The status is an int; any other value of the record is `none`.
unfoldable pub classify_transient_status : Option Value → Option String
classify_transient_status (some (int z)) =
    if equals z 429
    then some "rate_limit_model"
    else if equals z 500 || equals z 502 || equals z 503 || equals z 504 || equals z 529
    then some "api_transient_5xx"
    else if equals z 408
    then some "api_timeout"
    else none
classify_transient_status _ = none

unfoldable pub extend_by : Option ℕ → Bool → ℕ → ℕ → ℕ
extend_by none account reset exponent = reset
extend_by (some base) account reset exponent =
    if account || leb exponent 0
    then reset
    else reset + min (base * (2 ^ min exponent exp_cap - 1)) absolute_cap_s

unfoldable pub extend_reset : String → ℕ → ℕ → ℕ
unfolding extend_by
extend_reset classification reset_at_epoch exponent =
    extend_by (back_off_default classification) (str_eq classification "rate_limit_account")
      reset_at_epoch exponent

-- The exponent is read from the caller's cache where it holds the agent.
unfoldable pub cached_exponent : Dict ℕ → Log → String → ℕ
cached_exponent cache log agent = elim (lookup agent cache) [
  | none ↦ backoff_exponent log agent
  | some n ↦ n
]

unfoldable pub events_derived_reset : Log → Dict ℕ → String → String → ℕ → ℕ
unfolding cached_exponent extend_reset
events_derived_reset log cache agent classification reset_at_epoch =
    extend_reset classification reset_at_epoch (cached_exponent cache log agent)

-- `transient_error_backoff_capped`, as the two callers emit it; the optional fields are `none` where
-- the defensive cap of the sleep emits it.
pub record BackoffCapped : Type 0 where
  pub classification : String
  pub agent : String
  pub requested_sleep_s : ℕ
  pub applied_sleep_s : ℕ
  pub original_reset_at_epoch : Option ℕ
  pub applied_reset_at_epoch : Option ℕ
  pub consecutive_count : Option ℕ
  pub capped_by_absolute_max : Option Bool

pub record Adjusted : Type 0 where
  pub applied_reset_at : ℕ
  pub consecutive_count : ℕ
  pub capped : Bool
  pub emitted : Option BackoffCapped

unfoldable pub adjust_by : Option ℕ → Bool → String → ℕ → String → ℕ → ℕ → Adjusted
adjust_by none account classification original agent n now = record {
  applied_reset_at = original;
  consecutive_count = 0;
  capped = false;
  emitted = none;
}
adjust_by (some base) true classification original agent n now = record {
  applied_reset_at = original;
  consecutive_count = 0;
  capped = false;
  emitted = none;
}
adjust_by (some base) false classification original agent n now =
    let multiplier = 2 ^ min n exp_cap in
    let extended = base * multiplier in
    let over = ltb absolute_cap_s extended in
    let applied = min extended absolute_cap_s in
    let reset = now / ticks + applied in
    record {
      applied_reset_at = reset;
      consecutive_count = n + 1;
      capped = over;
      emitted =
          if ltb 1 multiplier || over
          then some (record {
            classification = classification;
            agent = agent;
            requested_sleep_s = base;
            applied_sleep_s = applied;
            original_reset_at_epoch = some original;
            applied_reset_at_epoch = some reset;
            consecutive_count = some (n + 1);
            capped_by_absolute_max = some over;
          })
          else none;
    }

unfoldable pub compute_adjusted_reset_at : String → ℕ → String → Log → ℕ → Adjusted
unfolding adjust_by
compute_adjusted_reset_at classification original_reset_at_epoch agent log now =
    adjust_by (back_off_default classification) (str_eq classification "rate_limit_account")
      classification original_reset_at_epoch agent (backoff_exponent log agent) now
