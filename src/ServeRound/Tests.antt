-- ===== src/ServeRound/Tests.antt =====
-- Rounds, and the theorems about agent_runner/cli/_serve_round.py at them.
use mathlib.Core.List.{reverse}
use cli_agent_runner.Clock.{ticks}
use cli_agent_runner.ServeRound.History.{
  serve_rounds, Observed, crashed, crashes_bounded, mem_killed, streaks-leading,
}
use cli_agent_runner.Throttle.Window.{mem_loop_events_in_window}
use cli_agent_runner.ServeRound.Verdicts.{goes_on_iff, throttled_round}
use cli_agent_runner.Throttle.Scan.{concat, newest_month_files, tail_events}
use cli_agent_runner.RoundOutcome.{RoundOutcome, round_had_no_progress}
use cli_agent_runner.ServePolicy.{Round, consecutive_streak_decision, unknown_short_crash}
use cli_agent_runner.ServeRound.{GiveUp, Outcome, Streaks, crash_loop_event, post_round_verdicts}
use cli_agent_runner.Prelude.{
  ◌*◌, ◌+◌, ◌<◌, Bool, [], false, none, pos, refl, some, true, ℕ, ℤ, ◌↔◌, ◌∷◌, ◌≡◌, ◌≢◌, ◌⊎◌, List,
  negsuc, leading,
}

abbrev plain : RoundOutcome
plain = record {
  mem_terminated = false;
  usage_capable = false;
  newest_usage_ts = none;
  newest_substrate_before_ts = none;
  latest_transient_per_agent = [];
  ran_agent = none;
  usage_capable_by_agent = [];
  newest_usage_ts_by_agent = [];
  backoff_exponent_by_agent = [];
}

abbrev round : ℤ → Bool → Round
round returncode throttle = record {
  returncode = returncode;
  duration = 2 * ticks;
  throttle_active = throttle;
}

abbrev streaks : ℕ → ℕ → ℕ → Streaks
streaks c m p = record { crashes = c; mem_terminations = m; no_progress = p }

program : Unit {0}
unfolding post_round_verdicts unknown_short_crash round_had_no_progress mem_loop_events_in_window
    tail_events newest_month_files concat consecutive_streak_decision serve_rounds
program = tt

abbrev went_on : ℕ → ℕ → Outcome
went_on c delay = record {
  exit_code = none;
  delay_s = delay;
  streaks = streaks c 0 0;
  emitted = [];
}

abbrev stopped : ℕ → Streaks → GiveUp → Outcome
stopped code s e = record { exit_code = some code; delay_s = 0; streaks = s; emitted = e ∷ [] }

-- The fourth crash in a row.
fourth :
    post_round_verdicts (round (pos 1) false) plain (streaks 3 0 0) 10 [] 0 []
    ≡ some (went_on 4 160)
unfolding program
fourth = refl

fifth :
    post_round_verdicts (round (pos 1) false) plain (streaks 4 0 0) 10 [] 0 []
    ≡ some (stopped 75 (streaks 5 0 0) (crash_loop_event 5 (pos 1)))
unfolding program
fifth = refl

abbrev fifth_outcome : Outcome
fifth_outcome = stopped 75 (streaks 5 0 0) (crash_loop_event 5 (pos 1))

goes_on_iff_example : (fifth_outcome.exit_code ≡ none) ↔ (
    (pos 1 ≢ pos 78)
    × ((unknown_short_crash (round (pos 1) false) ≡ false) ⊎ (4 + 1 < 5))
    × ((plain.mem_terminated ≡ false) ⊎ (0 + 1 < 5))
    × ((false ≡ false) ⊎ (0 + 1 < 5)))
unfolding program
goes_on_iff_example =
    goes_on_iff (round (pos 1) false) plain (streaks 4 0 0) 10 [] 0 [] fifth_outcome fifth false
      refl

throttled :
    post_round_verdicts (round (pos 1) true) plain (streaks 4 0 3) 10 [] 0 [] ≡ some (went_on 0 20)
unfolding program
throttled = refl

throttled_round_example :
    ((went_on 0 20).exit_code ≢ some 75)
    × ((went_on 0 20).streaks.crashes ≡ 0)
    × ((went_on 0 20).streaks.no_progress ≡ 0)
throttled_round_example =
    throttled_round (round (pos 1) true) plain (streaks 4 0 3) 10 [] 0 [] (went_on 0 20) throttled
      refl (λ e. omega_free e)
  where
    omega_free : pos 1 ≡ pos 78 → ⊥
    omega_free e = cc

abbrev observed : ℤ → Observed
observed returncode = record {
  round = round returncode false;
  outcome = plain;
  log = [];
  now = 0;
  cgroup_events = [];
}

-- A crash, a clean round, two crashes.
abbrev history : List Observed
history = observed (pos 1) ∷ observed (pos 0) ∷ observed (pos 1) ∷ observed (negsuc 8) ∷ []

history_runs : serve_rounds 10 (streaks 0 0 0) history ≡ some (none, streaks 2 0 0)
unfolding program
history_runs = refl

streaks-leading_example :
    (2 ≡ leading crashed 0 (reverse history)) × (0 ≡ leading mem_killed 0 (reverse history))
streaks-leading_example = streaks-leading 10 history (streaks 0 0 0) (streaks 2 0 0) history_runs

crashes_bounded_example : leading crashed 0 (reverse history) < 5
crashes_bounded_example =
    crashes_bounded 10 (observed (pos 1))
      (observed (pos 0) ∷ observed (pos 1) ∷ observed (negsuc 8) ∷ []) (streaks 0 0 0)
      (streaks 2 0 0) history_runs
