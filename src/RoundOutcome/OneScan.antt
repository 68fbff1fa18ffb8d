-- ===== src/RoundOutcome/OneScan.antt =====
-- The one scan of `round_outcome` agrees with the scans of agent_runner/_throttle.py that it replaces.
use cli_agent_runner.Throttle.Active.{active_throttles, active_throttles_of}
use cli_agent_runner.Throttle.View.{active-cache}
use cli_agent_runner.Throttle.Ladder.{cached_exponent}
use cli_agent_runner.Throttle.Scan.{
  count_detection, count_detections, is_detected, merge_transients, note_transient, Log,
  backoff_exponent, tail_events, latest_transient_per_agent,
}
use cli_agent_runner.RoundOutcome.{
  Fold, count_of, exponents, fold_event, fold_events, is_usage, note_count, RoundOutcome, start,
  round_outcome, round_scan,
}
use cli_agent_runner.Event.{Event, get_str, is_kind-ne}
use cli_agent_runner.Prelude.{
  ◌+◌, ◌-◌, Dict, List, Option, String, [], ap, arith, if◌then◌else◌, false, insert, lookup,
  lookup-insert, none, refl, some, str_eq, str_eq_iff, true, ℕ, ◌∙◌, ◌∷◌, ◌≡◌, Bool, has_key,
  has_key-lookup, lookup-nil, ◌||◌,
}

-- An agent that no event without a label is counted under.
abbrev pub IsLabel : String → Type 0
IsLabel a = (str_eq "unknown" a ≡ false) × (str_eq "" a ≡ false)

label-eq :
    (a : String) (ev : Event)
    → IsLabel a
    → str_eq (get_str "agent" "unknown" ev) a ≡ str_eq (get_str "agent" "" ev) a
unfolding get_str
label-eq a ev h = ground arith

pub detected_not_usage : (ev : Event) → is_detected ev ≡ true → is_usage ev ≡ false
unfolding str_eq
detected_not_usage ev h = is_kind-ne "transient_error_detected" "agent_usage_recorded" ev h refl

pub count_of-insert :
    (a k : String) (n : ℕ) (counts : Dict ℕ)
    → count_of a (insert k n counts) ≡ (if str_eq k a then n else count_of a counts)
count_of-insert a k n counts = ground (arith, lookup-insert a k n counts)

count_of-note :
    (a : String) (counts : Dict ℕ) (ev : Event)
    → IsLabel a
    → count_of a (note_count counts ev) ≡ count_detection a (count_of a counts) ev
unfolding note_count count_detection
count_of-note a counts ev h =
    let k = get_str "agent" "unknown" ev in
    ground (
      arith,
      label-eq a ev h,
      detected_not_usage ev,
      count_of-insert a k 0 counts,
      count_of-insert a k (count_of k counts + 1) counts,
      str_eq_iff k a,
    )

pub fold-detected_count :
    (st : Fold) (ev : Event) → (fold_event st ev).detected_count ≡ note_count st.detected_count ev
unfolding fold_event
fold-detected_count st ev = ground arith

fold-transient :
    (st : Fold) (ev : Event) → (fold_event st ev).transient ≡ note_transient st.transient ev
unfolding fold_event
fold-transient st ev = ground arith

folds-detected_count :
    (a : String) (evs : List Event) (st : Fold)
    → IsLabel a
    → count_of a (fold_events st evs).detected_count
      ≡ count_detections a (count_of a st.detected_count) evs
unfolding fold_events count_detections
folds-detected_count a [] st h = refl
folds-detected_count a (ev ∷ evs) st h = ground (
  arith,
  folds-detected_count a evs (fold_event st ev) h,
  fold-detected_count st ev,
  count_of-note a st.detected_count ev h,
)

folds-transient :
    (evs : List Event) (st : Fold)
    → (fold_events st evs).transient ≡ merge_transients st.transient evs
unfolding fold_events merge_transients
folds-transient [] st = refl
folds-transient (ev ∷ evs) st =
    folds-transient evs (fold_event st ev) ∙ ap (λ d. merge_transients d evs) (fold-transient st ev)

pub lookup-exponents :
    (a : String) (counts : Dict ℕ)
    → lookup a (exponents counts) ≡ elim (lookup a counts) [ none ↦ none | some c ↦ some (c - 1) ]
unfolding exponents lookup
lookup-exponents a [] = refl
lookup-exponents a ((k, c) ∷ counts) = ground (arith, lookup-exponents a counts)

exponent-backoff :
    (log : Log) (a : String) (st : Fold)
    → IsLabel a
    → st ≡ fold_events start (tail_events log)
    → cached_exponent (exponents st.detected_count) log a ≡ backoff_exponent log a
unfolding cached_exponent backoff_exponent
exponent-backoff log a st h e = ground (
  arith,
  lookup-exponents a st.detected_count,
  folds-detected_count a (tail_events log) start h,
  lookup-nil {V = ℕ} a,
)

module _ (log : Log) (agent : Option String) (o : RoundOutcome)
    (scanned : round_outcome log agent ≡ some o) where
  pub outcome-parts :
      (o.latest_transient_per_agent ≡ (fold_events start (tail_events log)).transient)
      × (o.backoff_exponent_by_agent
          ≡ exponents (fold_events start (tail_events log)).detected_count)
  unfolding round_outcome
  outcome-parts = ground arith

  -- The transient map of the one scan is that of the separate scan.
  pub outcome-transient : o.latest_transient_per_agent ≡ latest_transient_per_agent log
  unfolding latest_transient_per_agent
  outcome-transient = outcome-parts.0 ∙ folds-transient (tail_events log) start

  -- The exponents of the one scan are those of the separate scan, for every agent with a label.
  pub outcome-exponent :
      (a : String)
      → IsLabel a
      → cached_exponent o.backoff_exponent_by_agent log a ≡ backoff_exponent log a
  outcome-exponent a h =
      rw (outcome-parts.1) (exponent-backoff log a (fold_events start (tail_events log)) h refl)

  -- The throttles computed from the one scan are those of `_active_throttles`, for every agent with
  -- a label.
  pub outcome-active :
      (now : ℕ) (a : String)
      → IsLabel a
      → lookup a
          (active_throttles_of log o.backoff_exponent_by_agent o.latest_transient_per_agent now)
        ≡ lookup a (active_throttles log now)
  outcome-active now a h =
      rw (outcome-transient)
        (active-cache log o.backoff_exponent_by_agent now a (outcome-exponent a h))

  -- Where the agent that ran is known by a label, one scan gives the verdict of the separate ones:
  -- the round is excused exactly when it was terminated for memory or its agent is throttled.
  pub round_scan-throttled :
      (now : ℕ) (a : String) (b : Bool)
      → IsLabel a
      → agent ≡ some a
      → round_scan log agent now ≡ some (b, o)
      → b ≡ (o.mem_terminated || has_key a (active_throttles log now))
  unfolding round_scan
  round_scan-throttled now a b h e r = ground (
    arith,
    scanned,
    outcome-active now a h,
    has_key-lookup a (active_throttles log now),
    has_key-lookup a
        (active_throttles_of log o.backoff_exponent_by_agent o.latest_transient_per_agent now),
  )
