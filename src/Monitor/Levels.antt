-- ===== src/Monitor/Levels.antt =====
-- The thresholds of agent_runner/_monitor_detectors.py: the two disk levels, and the reported failures.
use cli_agent_runner.Monitor.Rounds.{window}
use cli_agent_runner.Monitor.{last_n_round_exits, quiet}
use cli_agent_runner.Monitor.Stale.{is_alert}
use cli_agent_runner.Monitor.Failures.{
  Pattern, auth_reported, count_matches, oauth_test, detect_oauth_fail, enough,
}
use cli_agent_runner.Event.{Event}
use cli_agent_runner.Monitor.Host.{
  DiskConfig, Metric, detect_disk_critical, detect_disk_warning, joined, latest,
}
use cli_agent_runner.Prelude.{
  ◌&&◌, List, Option-cases, String, [], arith, count_if, inl, inr, leb, not, some, ℕ, ◌∷◌, ◌≡◌, ◌≤◌,
  length, true, ◌≢◌,
}

-- With the same critical level, one disk alert is raised at most, and one is raised exactly where the
-- latest reading reaches the lower of the two levels.
pub disk_levels :
    (metrics : List Metric) (cfg : DiskConfig) (val : ℕ)
    → joined (latest (λ m. m.disk) metrics) ≡ some val
    → (is_alert (detect_disk_critical metrics cfg) ≡ leb cfg.critical_pct val)
      × (is_alert (detect_disk_warning metrics cfg)
          ≡ (leb cfg.warning_pct val && not (is_alert (detect_disk_critical metrics cfg))))
unfolding detect_disk_warning detect_disk_critical
disk_levels metrics cfg val h = ground (arith, h)

module _ (events : List Event) (tails : List (ℕ × String)) (patterns : List Pattern) where
  count_matches-ge :
      (es : List Event) (n : ℕ)
      → count_matches (oauth_test events tails patterns) es ≡ some n
      → count_if (auth_reported events) es ≤ n
  unfolding count_matches
  count_matches-ge [] n h = ground arith
  count_matches-ge (e ∷ es) n h =
      elim (Option-cases (count_matches (oauth_test events tails patterns) es)) [
        | inl q ↦ absurd (ground (arith, q))
        | inr (m, q) ↦ ground (arith, q, count_matches-ge es m q)
      ]

  -- Where a fifth of the last ten round exits or more belong to rounds that reported an authentication
  -- error, the detector is not quiet, whatever the exit codes, durations, tails and patterns say.
  pub oauth-reported :
      (let recent = last_n_round_exits events window in
        enough (count_if (auth_reported events) recent) (length recent) ≡ true)
      → detect_oauth_fail events tails patterns ≢ quiet
  unfolding detect_oauth_fail
  oauth-reported h q =
      let recent = last_n_round_exits events window in
      elim (Option-cases (count_matches (oauth_test events tails patterns) recent)) [
        | inl e ↦ ground (arith, e)
        | inr (n, e) ↦ ground (arith, e, count_matches-ge recent n e)
      ]
