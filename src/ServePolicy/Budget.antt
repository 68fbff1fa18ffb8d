-- ===== src/ServePolicy/Budget.antt =====
-- The exit codes of agent_runner/_serve_policy.py.
use cli_agent_runner.ServePolicy.{RoundException, classify_round_exit, crash_loop_exit, system_exit}
use cli_agent_runner.Prelude.{arith, pos, some, ◌≢◌}

-- The child's classifier never claims the crash-loop code of its own accord: only a `SystemExit` that
-- carries it does.
pub classify-ne_crash_loop :
    (e : RoundException)
    → e ≢ system_exit (some (pos crash_loop_exit))
    → classify_round_exit e ≢ pos crash_loop_exit
unfolding classify_round_exit
classify-ne_crash_loop e h = ground arith
