-- ===== src/ServeRound/Verdicts.antt =====
-- The verdict after one round of agent_runner/cli/_serve_round.py, on every branch.

use cli_agent_runner.ServePolicy.Caps.{mem_loop_iff, mem_loop_streak, stalled_iff, stalled_streak}
use cli_agent_runner.ServePolicy.Breaker.{
  config_broken_iff, consecutive-decision, crash_loop_iff, excused,
}
use mathlib.Core.Path.{subst}
use cli_agent_runner.Throttle.Window.{mem_loop_events_in_window}
use cli_agent_runner.RoundOutcome.{RoundOutcome, round_had_no_progress}
use cli_agent_runner.Throttle.Scan.{Log}
use mathlib.Core.Option
use cli_agent_runner.ServePolicy.{
  Verdict, config_broken, crash_loop, crash_loop_exit, mem_loop, permanent_config_exit,
  stalled_no_progress, Round, mem_loop_decision, no_progress_decision, post_round_decision,
  crash_loop_threshold, mem_loop_threshold, unknown_short_crash,
}
use cli_agent_runner.ServeRound.{
  GiveUp, Outcome, Streaks, cgroup, resolve, mem_loop_persist_window_s, no_progress_short_s,
  post_round_verdicts, prepend,
}
use cli_agent_runner.Event.{Event}
use cli_agent_runner.Prelude.{
  ◌++◌, Bool, List, Option, [], arith, count_if, false, map, none, refl, some, true, ℕ, ℤ, ◌↔◌, ◌∷◌,
  ◌≡◌, ◌≢◌, ◌⊎◌, Option-cases, inl, inr, ◌+◌, ◌<◌, pos, if◌then◌else◌, ◌==◌,
}

-- The give-up events proper: what the two cgroup calls emit is left out.
abbrev pub is_give_up : GiveUp → Bool
is_give_up (cgroup ev) = false
is_give_up _ = true

count_if-cgroup :
    (evs : List Event) (l : List GiveUp)
    → count_if is_give_up (map cgroup evs ++ l) ≡ count_if is_give_up l
count_if-cgroup [] l = refl
count_if-cgroup (ev ∷ evs) l = omega (arith, count_if-cgroup evs l)

abbrev pub zero_code : Option ℕ → Bool
zero_code none = false
zero_code (some c) = c == 0

-- What `resolve` returns, by its arguments.
abbrev Resolved : Verdict → Verdict → Verdict → Option ℕ → ℕ → Streaks → Outcome → Type 0
Resolved a m p n delay s o =
    (o.streaks ≡ s)
    × (o.delay_s ≡ delay)
    × ((o.exit_code ≡ some permanent_config_exit) ↔ (a ≡ config_broken))
    × ((o.exit_code ≡ none)
        ↔ ((a ≢ config_broken) × (a ≢ crash_loop) × (m ≢ mem_loop) × (p ≢ stalled_no_progress)))
    × ((o.exit_code ≡ some crash_loop_exit)
        ↔ ((a ≢ config_broken) × (m ≢ mem_loop) × ((a ≡ crash_loop) ⊎ (p ≡ stalled_no_progress))))
    × (count_if is_give_up o.emitted ≡ (elim o.exit_code [ none ↦ 0 | some c ↦ 1 ]))
    × (zero_code o.exit_code ≡ false)

resolve_lem :
    (a m p : Verdict) (n : Option ℕ) (rc : ℤ) (delay : ℕ) (s : Streaks) (o : Outcome)
    → resolve a m p n rc delay s ≡ some o
    → Resolved a m p n delay s o
unfolding resolve
resolve_lem a m p n rc delay s o h = ground arith

prepend-Resolved :
    (a m p : Verdict) (n : Option ℕ) (delay : ℕ) (s : Streaks) (evs : List Event) (o : Outcome)
    → Resolved a m p n delay s o
    → Resolved a m p n delay s (prepend evs o)
unfolding prepend
prepend-Resolved a m p n delay s evs o h = rw (count_if-cgroup evs o.emitted) h

map-prepend :
    (a m p : Verdict) (n : Option ℕ) (rc : ℤ) (delay : ℕ) (s : Streaks) (evs : List Event)
    (o : Outcome)
    → Option.map (prepend evs) (resolve a m p n rc delay s) ≡ some o
    → Resolved a m p n delay s o
map-prepend a m p n rc delay s evs o h = elim (Option-cases (resolve a m p n rc delay s)) [
  | inl e ↦ absurd (ground arith)
  | inr (o', e) ↦
      subst (Resolved a m p n delay s) (ground arith)
        (prepend-Resolved a m p n delay s evs o' (resolve_lem a m p n rc delay s o' e))
]

module _ (r : Round) (outcome : RoundOutcome) (s : Streaks) (d : ℕ) (log : Log) (now : ℕ)
    (evs : List Event) (o : Outcome)
    (done : post_round_verdicts r outcome s d log now evs ≡ some o) where
  abbrev progress : Option Bool
  progress =
      round_had_no_progress r.returncode r.duration no_progress_short_s r.throttle_active outcome

  abbrev streaks_after : Bool → Streaks
  streaks_after stuck = record {
    crashes = (post_round_decision r s.crashes d).consecutive;
    mem_terminations = (mem_loop_decision outcome.mem_terminated s.mem_terminations).1;
    no_progress = (no_progress_decision stuck s.no_progress).1;
  }

  -- The verdict, by the answers of the three breakers.
  verdict_parts :
      (stuck : Bool) × (progress ≡ some stuck)
      × Resolved
          (post_round_decision r s.crashes d).action
          (mem_loop_decision outcome.mem_terminated s.mem_terminations).0
          (no_progress_decision stuck s.no_progress).0
          (mem_loop_events_in_window log now mem_loop_persist_window_s)
          (post_round_decision r s.crashes d).delay_s
          (streaks_after stuck)
          o
  unfolding post_round_verdicts
  verdict_parts = elim (Option-cases progress) [
    | inl e ↦ absurd (ground arith)
    | inr (stuck, e) ↦ (
      stuck,
      e,
      map-prepend _ _ _ _ r.returncode _ (streaks_after stuck) evs o
          (rw (e, post_round_verdicts) at done),
    )
  ]

  throttled_progress :
      r.throttle_active ≡ true → (stuck : Bool) → progress ≡ some stuck → stuck ≡ false
  unfolding round_had_no_progress
  throttled_progress t stuck e = ground arith

  -- Serve stops with the configuration code exactly when the round exited with it.
  pub config_exit_iff :
      (o.exit_code ≡ some permanent_config_exit) ↔ (r.returncode ≡ pos permanent_config_exit)
  config_exit_iff =
      let (stuck, e, res) = verdict_parts in ground (arith, res, config_broken_iff r s.crashes d)

  -- A round under an active throttle, unless it broke on its configuration, never stops serve with the
  -- crash-loop code, and the streaks of crashes and of rounds without progress start again.
  pub throttled_round :
      r.throttle_active ≡ true
      → r.returncode ≢ pos permanent_config_exit
      → (o.exit_code ≢ some crash_loop_exit) × (o.streaks.crashes ≡ 0) × (o.streaks.no_progress ≡ 0)
  throttled_round t c =
      let (stuck, e, res) = verdict_parts in
      ground (
        arith,
        res,
        crash_loop_iff r s.crashes d,
        excused r,
        consecutive-decision r s.crashes d,
        stalled_iff stuck s.no_progress,
        stalled_streak stuck s.no_progress,
        throttled_progress t stuck e,
      )

  -- Serve goes on exactly when the round did not break on its configuration and none of the three
  -- streaks reaches its threshold with it.
  pub goes_on_iff :
      (stuck : Bool)
      → progress ≡ some stuck
      → (o.exit_code ≡ none) ↔ (
          (r.returncode ≢ pos permanent_config_exit)
          × ((unknown_short_crash r ≡ false) ⊎ (s.crashes + 1 < crash_loop_threshold))
          × ((outcome.mem_terminated ≡ false) ⊎ (s.mem_terminations + 1 < mem_loop_threshold))
          × ((stuck ≡ false) ⊎ (s.no_progress + 1 < crash_loop_threshold)))
  goes_on_iff stuck p =
      let (stuck', e, res) = verdict_parts in
      ground (
        arith,
        res,
        crash_loop_iff r s.crashes d,
        config_broken_iff r s.crashes d,
        mem_loop_iff outcome.mem_terminated s.mem_terminations,
        stalled_iff stuck s.no_progress,
      )

  -- Exactly one give-up event is emitted where serve stops, and none where it goes on.
  pub one_event : count_if is_give_up o.emitted ≡ (elim o.exit_code [ none ↦ 0 | some c ↦ 1 ])
  one_event =
      let (stuck, e, res) = verdict_parts in
      let (same, delay, config, goes_on, crash, events, codes) = res in events

  pub exit_code-nonzero : zero_code o.exit_code ≡ false
  exit_code-nonzero =
      let (stuck, e, res) = verdict_parts in
      let (same, delay, config, goes_on, crash, events, codes) = res in codes

  -- Where serve goes on, each streak is below its threshold.
  pub streaks_below :
      o.exit_code ≡ none
      → (o.streaks.crashes < crash_loop_threshold)
        × (o.streaks.mem_terminations < mem_loop_threshold)
        × (o.streaks.no_progress < crash_loop_threshold)
  streaks_below h =
      let (stuck, e, res) = verdict_parts in
      ground (
        arith,
        res,
        goes_on_iff stuck e,
        consecutive-decision r s.crashes d,
        mem_loop_streak outcome.mem_terminated s.mem_terminations,
        stalled_streak stuck s.no_progress,
      )

  -- Where serve goes on, the streaks of crashes and of memory terminations count on or start again.
  pub streaks_next :
      o.exit_code ≡ none
      → (o.streaks.crashes ≡ (if unknown_short_crash r then s.crashes + 1 else 0))
        × (o.streaks.mem_terminations
            ≡ (if outcome.mem_terminated then s.mem_terminations + 1 else 0))
  streaks_next h =
      let (stuck, e, res) = verdict_parts in
      ground (
        arith,
        res,
        config_broken_iff r s.crashes d,
        consecutive-decision r s.crashes d,
        mem_loop_streak outcome.mem_terminated s.mem_terminations,
      )
