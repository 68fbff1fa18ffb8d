-- ===== src/ServeRound/History.antt =====
-- Runs of rounds under the post-round block of the loop of `cmd` in agent_runner/cli/serve_cmd.py: the
-- streaks are carried from round to round, and the loop breaks on an exit code.
use cli_agent_runner.ServeRound.Verdicts.{streaks_below, streaks_next}
use mathlib.Core.List.{reverse}
use cli_agent_runner.RoundOutcome.{RoundOutcome}
use cli_agent_runner.ServePolicy.{Round, unknown_short_crash, crash_loop_threshold}
use cli_agent_runner.ServeRound.{Outcome, Streaks, post_round_verdicts}
use cli_agent_runner.Throttle.Scan.{Log}
use cli_agent_runner.Event.{Event}
use cli_agent_runner.Prelude.{
  ◌+◌, Bool, List, Option, [], arith, if◌then◌else◌, none, some, ℕ, ◌∷◌, ◌≡◌, ◌<◌, Option-cases,
  inl, inr, leading, leading-reverse,
}

-- What the loop hands to `post_round_verdicts` for one round.
pub record Observed : Type 0 where
  pub round : Round
  pub outcome : RoundOutcome
  pub log : Log
  pub now : ℕ
  pub cgroup_events : List Event

unfoldable pub verdict_of : ℕ → Streaks → Observed → Option Outcome
verdict_of d s x = post_round_verdicts x.round x.outcome s d x.log x.now x.cgroup_events

-- The rounds one after the other: the exit code, if one fired, and the streaks.
unfoldable pub serve_rounds : ℕ → Streaks → List Observed → Option (Option ℕ × Streaks)
unfolding verdict_of
serve_rounds d s [] = some (none, s)
serve_rounds d s (x ∷ xs) = elim (verdict_of d s x) [
  | none ↦ none
  | some o ↦ elim o.exit_code [
    | some code ↦ some (some code, o.streaks)
    | none ↦ serve_rounds d o.streaks xs
  ]
]

abbrev pub crashed : Observed → Bool
crashed x = unknown_short_crash x.round

abbrev pub mem_killed : Observed → Bool
mem_killed x = x.outcome.mem_terminated

verdict_streaks :
    (d : ℕ) (s : Streaks) (x : Observed) (o : Outcome)
    → verdict_of d s x ≡ some o
    → o.exit_code ≡ none
    → (o.streaks.crashes ≡ (if crashed x then s.crashes + 1 else 0))
      × (o.streaks.mem_terminations ≡ (if mem_killed x then s.mem_terminations + 1 else 0))
unfolding verdict_of
verdict_streaks d s x o h e = streaks_next x.round x.outcome s d x.log x.now x.cgroup_events o h e

serve_rounds_step :
    (d : ℕ) (x : Observed) (xs : List Observed) (s t : Streaks)
    → serve_rounds d s (x ∷ xs) ≡ some (none, t)
    → (o : Outcome) × (verdict_of d s x ≡ some o)
      × (o.exit_code ≡ none)
      × (serve_rounds d o.streaks xs ≡ some (none, t))
unfolding serve_rounds
serve_rounds_step d x xs s t h = elim (Option-cases (verdict_of d s x)) [
  | inl e ↦ absurd (ground arith)
  | inr (o, e) ↦ (o, e, ground arith, ground arith)
]

-- While serve goes on, the streak of crashes is the number of rounds since the last one that was no
-- unknown short crash, and so is the streak of memory terminations.
pub streaks-leading :
    (d : ℕ) (xs : List Observed) (s t : Streaks)
    → serve_rounds d s xs ≡ some (none, t)
    → (t.crashes ≡ leading crashed s.crashes (reverse xs))
      × (t.mem_terminations ≡ leading mem_killed s.mem_terminations (reverse xs))
unfolding serve_rounds
streaks-leading d [] s t h = ground arith
streaks-leading d (x ∷ xs) s t h =
    let (o, v, goes_on, rest) = serve_rounds_step d x xs s t h in
    let (crashes, mems) = streaks-leading d xs o.streaks t rest in
    let (c, m) = verdict_streaks d s x o v goes_on in
    (
      rw (leading-reverse crashed s.crashes xs x, ← c) crashes,
      rw (leading-reverse mem_killed s.mem_terminations xs x, ← m) mems,
    )

rest_done : (d : ℕ) (s t : Streaks) → serve_rounds d s [] ≡ some (none, t) → s ≡ t
unfolding serve_rounds
rest_done d s t h = ground arith

verdict_below :
    (d : ℕ) (s : Streaks) (x : Observed) (o : Outcome)
    → verdict_of d s x ≡ some o
    → o.exit_code ≡ none
    → o.streaks.crashes < crash_loop_threshold
unfolding verdict_of
verdict_below d s x o h e =
    (streaks_below x.round x.outcome s d x.log x.now x.cgroup_events o h e).0

last_below :
    (d : ℕ) (x : Observed) (xs : List Observed) (s t : Streaks)
    → serve_rounds d s (x ∷ xs) ≡ some (none, t)
    → t.crashes < crash_loop_threshold
last_below d x [] s t h =
    let (o, v, goes_on, rest) = serve_rounds_step d x [] s t h in
    ground (arith, verdict_below d s x o v goes_on, rest_done d o.streaks t rest)
last_below d x (y ∷ ys) s t h =
    let (o, v, goes_on, rest) = serve_rounds_step d x (y ∷ ys) s t h in
    last_below d y ys o.streaks t rest

-- Where serve goes on after a run of rounds, fewer than five unknown short crashes end the run,
-- counting on from the streak before the run where all of its rounds crashed.
pub crashes_bounded :
    (d : ℕ) (x : Observed) (xs : List Observed) (s t : Streaks)
    → serve_rounds d s (x ∷ xs) ≡ some (none, t)
    → leading crashed s.crashes (reverse (x ∷ xs)) < crash_loop_threshold
crashes_bounded d x xs s t h =
    omega (arith, streaks-leading d (x ∷ xs) s t h, last_below d x xs s t h)
