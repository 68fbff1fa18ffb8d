-- ===== src/ServePolicy.antt =====
-- agent_runner/_serve_policy.py: the restart policy after a round, the give-up caps, the exit-code
-- classifier and the round-timeout budget.
--
-- A process's return code is a ℤ (a killed child reports minus its signal). A duration is counted in
-- ticks of 2^-22 s (see Clock.antt).
pub mod Breaker
pub mod Caps
pub mod Budget
mod Tests
use cli_agent_runner.Prelude.{
  ℕ, ◌+◌, ◌*◌, ◌^◌, min, max, Bool, true, false, not, ◌&&◌, ◌||◌, ltb, leb, if◌then◌else◌, ℤ, pos,
  equals, suc, Option, none, some,
}
use cli_agent_runner.Clock.{ticks}

abbrev pub permanent_config_exit : ℕ
permanent_config_exit = 78

abbrev pub crash_loop_exit : ℕ
crash_loop_exit = 75

abbrev pub env_battery_exit : ℕ
env_battery_exit = 76

abbrev pub crash_loop_threshold : ℕ
crash_loop_threshold = 5

abbrev pub crash_loop_short_exit_s : ℕ
crash_loop_short_exit_s = 60

abbrev pub crash_loop_max_delay_s : ℕ
crash_loop_max_delay_s = 1800

abbrev pub mem_loop_threshold : ℕ
mem_loop_threshold = 5

-- The restart actions and the verdicts of the give-up caps, one constructor for each string.
pub data Verdict : Type 0 where
  config_broken crash_loop continue mem_loop stalled_no_progress : Verdict

pub record Decision : Type 0 where
  pub action : Verdict
  pub delay_s : ℕ
  pub consecutive : ℕ

-- What `post_round_decision` is given about the round that just ended.
pub record Round : Type 0 where
  pub returncode : ℤ
  pub duration : ℕ
  pub throttle_active : Bool

unfoldable pub unknown_short_crash : Round → Bool
unknown_short_crash r =
    let throttle = r.throttle_active || equals r.returncode env_battery_exit in
    not (equals r.returncode 0) && ltb r.duration (crash_loop_short_exit_s * ticks) && not throttle

unfoldable pub post_round_decision : Round → ℕ → ℕ → Decision
unfolding unknown_short_crash
post_round_decision r consecutive restart_delay_s =
    if equals r.returncode permanent_config_exit
    then record { action = config_broken; delay_s = 0; consecutive = consecutive }
    else if unknown_short_crash r
    then (let n = consecutive + 1 in
        if leb crash_loop_threshold n
        then record { action = crash_loop; delay_s = 0; consecutive = n }
        else record {
          action = continue;
          delay_s = min (restart_delay_s * 2 ^ n) crash_loop_max_delay_s;
          consecutive = n;
        })
    else record {
      action = continue;
      delay_s = if equals r.returncode 0 then restart_delay_s else restart_delay_s * 2;
      consecutive = 0;
    }

unfoldable pub consecutive_streak_decision : Bool → ℕ → ℕ → Verdict → Verdict × ℕ
consecutive_streak_decision triggered consecutive threshold verdict =
    if not triggered
    then (continue, 0)
    else if leb threshold (consecutive + 1)
    then (verdict, consecutive + 1)
    else (continue, consecutive + 1)

unfoldable pub mem_loop_decision : Bool → ℕ → Verdict × ℕ
unfolding consecutive_streak_decision
mem_loop_decision mem_terminated consecutive =
    consecutive_streak_decision mem_terminated consecutive mem_loop_threshold mem_loop

unfoldable pub no_progress_decision : Bool → ℕ → Verdict × ℕ
unfolding consecutive_streak_decision
no_progress_decision no_progress consecutive =
    consecutive_streak_decision no_progress consecutive crash_loop_threshold stalled_no_progress

-- The classes of exception that `classify_round_exit` tells apart. The code of a `SystemExit` is
-- `none` when it is not an int.
pub data RoundException : Type 0 where
  system_exit : Option ℤ → RoundException
  keyboard_interrupt config_error environmental_error other : RoundException

unfoldable pub classify_round_exit : RoundException → ℤ
classify_round_exit (system_exit (some code)) = code
classify_round_exit (system_exit none) = pos 1
classify_round_exit keyboard_interrupt = pos 130
classify_round_exit config_error = pos permanent_config_exit
classify_round_exit environmental_error = pos env_battery_exit
classify_round_exit other = pos 1

abbrev pub reap_grace_s : ℕ
reap_grace_s = 5

abbrev pub git_commit_timeout_s : ℕ
git_commit_timeout_s = 120

abbrev pub hook_allowance_s : ℕ
hook_allowance_s = 60

abbrev pub round_term_grace_s : ℕ
round_term_grace_s = 15

abbrev pub stop_grace_margin_s : ℕ
stop_grace_margin_s = 10

-- `(timeout_stop_sec, outer_ceiling_s)`.
unfoldable pub timeout_budget : ℕ → ℕ → ℕ × ℕ
timeout_budget round_budget_s goal_checks_allowance_s =
    let outer_ceiling_s =
      round_budget_s
      + max reap_grace_s round_term_grace_s
      + git_commit_timeout_s
      + hook_allowance_s
      + goal_checks_allowance_s in
    (outer_ceiling_s + round_term_grace_s + stop_grace_margin_s, outer_ceiling_s)
