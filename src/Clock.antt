-- ===== src/Clock.antt =====
-- agent_runner/clock.py, as far as its readings go: an epoch or monotonic reading is a float of
-- seconds, and every double between 2^30 and 2^31 (the years 2004 to 2038) is a whole number of ticks
-- of 2^-22 s. A reading, and a duration, is therefore a ℕ of ticks.
use cli_agent_runner.Prelude.{ℕ}

abbrev pub ticks : ℕ
ticks = 4194304
