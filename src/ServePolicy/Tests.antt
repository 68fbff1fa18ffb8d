-- ===== src/ServePolicy/Tests.antt =====
-- Rounds, and the theorems about agent_runner/_serve_policy.py at them.
use cli_agent_runner.Clock.{ticks}
use cli_agent_runner.ServePolicy.{
  Round, classify_round_exit, continue, mem_loop_decision, post_round_decision, timeout_budget,
  unknown_short_crash,
}
use cli_agent_runner.Prelude.{◌*◌, false, negsuc, refl, ℕ, ℤ, ◌≡◌}

abbrev round : ℤ → ℕ → Round
round returncode seconds = record {
  returncode = returncode;
  duration = seconds * ticks;
  throttle_active = false;
}

-- Killed by SIGKILL after two seconds.
abbrev killed : Round
killed = round (negsuc 8) 2

program : Unit {0}
unfolding post_round_decision unknown_short_crash classify_round_exit timeout_budget
    mem_loop_decision
program = tt

third_crash :
    post_round_decision killed 2 10 ≡ record { action = continue; delay_s = 80; consecutive = 3 }
unfolding program
third_crash = refl
