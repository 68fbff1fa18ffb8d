-- ===== src/ServePolicy/Breaker.antt =====
-- The crash-loop breaker of agent_runner/_serve_policy.py over one round.
use native.Mathlib.Nat.{mul-le-mul_left, pow-le-pow_right}
use cli_agent_runner.ServePolicy.{
  Round, config_broken, continue, crash_loop, crash_loop_max_delay_s, crash_loop_threshold,
  env_battery_exit, permanent_config_exit, post_round_decision, unknown_short_crash,
}
use cli_agent_runner.Prelude.{
  ◌*◌, ◌+◌, ◌^◌, arith, if◌then◌else◌, false, max, pos, true, ℕ, ◌↔◌, ◌≡◌, ◌≢◌, ◌≤◌, ◌⊎◌,
}

-- The loop stops for a crash loop exactly when the round is an unknown short crash, not a
-- configuration failure, and it is at least the fifth in a row.
pub crash_loop_iff :
    (r : Round) (n d : ℕ)
    → ((post_round_decision r n d).action ≡ crash_loop) ↔ (
        (unknown_short_crash r ≡ true)
        × (r.returncode ≢ pos permanent_config_exit)
        × (crash_loop_threshold ≤ n + 1))
unfolding post_round_decision
crash_loop_iff r n d = ground arith

-- A configuration failure stops the loop, whatever came before it; no other round is one.
pub config_broken_iff :
    (r : Round) (n d : ℕ)
    → ((post_round_decision r n d).action ≡ config_broken)
      ↔ (r.returncode ≡ pos permanent_config_exit)
unfolding post_round_decision
config_broken_iff r n d = ground arith

-- The streak after a round: one more after an unknown short crash, as it was after a configuration
-- failure, and 0 after any other round.
pub consecutive-decision :
    (r : Round) (n d : ℕ)
    → r.returncode ≢ pos permanent_config_exit
    → (post_round_decision r n d).consecutive ≡ (if unknown_short_crash r then n + 1 else 0)
unfolding post_round_decision
consecutive-decision r n d h = ground arith

-- A round is excused, and never counts as a crash, where a throttle is active or where it exited
-- with the environmental code.
pub excused :
    (r : Round)
    → (r.throttle_active ≡ true) ⊎ (r.returncode ≡ pos env_battery_exit)
    → unknown_short_crash r ≡ false
unfolding unknown_short_crash
excused r h = ground arith

-- The delay before the next round is at most the cap or twice the configured delay, on every branch.
pub delay-le :
    (r : Round) (n d : ℕ) → (post_round_decision r n d).delay_s ≤ max crash_loop_max_delay_s (d * 2)
unfolding post_round_decision
delay-le r n d = ground arith

-- While crashes follow one another the delay never falls: of two rounds that crash, the one with the
-- longer streak waits at least as long, as long as neither stops the loop.
pub delay_mono :
    (r r' : Round) (n m d : ℕ)
    → unknown_short_crash r ≡ true
    → unknown_short_crash r' ≡ true
    → n ≤ m
    → (post_round_decision r' m d).action ≡ continue
    → (post_round_decision r n d).delay_s ≤ (post_round_decision r' m d).delay_s
unfolding post_round_decision
delay_mono r r' n m d h h' le go =
    let powers : 2 ^ (n + 1) ≤ 2 ^ (m + 1) = pow-le-pow_right (omega arith) (omega arith) in
    let delays : d * 2 ^ (n + 1) ≤ d * 2 ^ (m + 1) = mul-le-mul_left d powers in
    ground (arith, delays)
