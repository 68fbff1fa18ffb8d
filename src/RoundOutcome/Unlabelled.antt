-- ===== src/RoundOutcome/Unlabelled.antt =====
-- Where the one scan of agent_runner/_round_outcome.py and `_backoff_exponent` of
-- agent_runner/_throttle.py part: detections that name no agent.
use cli_agent_runner.RoundOutcome.OneScan.{
  count_of-insert, detected_not_usage, fold-detected_count, lookup-exponents, outcome-parts,
}
use cli_agent_runner.Throttle.Scan.{
  Log, backoff_exponent, count_detection, count_detections, is_detected, tail_events,
}
use cli_agent_runner.RoundOutcome.{
  Fold, RoundOutcome, count_of, fold_event, fold_events, note_count, round_outcome, start,
}
use cli_agent_runner.Event.{Event, get_str}
use cli_agent_runner.Prelude.{
  ◌&&◌, ◌+◌, ◌-◌, Bool, Dict, List, Option, String, [], any, ap, arith, false, has_key,
  has_key-lookup, length, lookup-nil, not, refl, some, str_eq, true, ℕ, ◌∷◌, ◌≡◌,
}

-- A detection without an agent.
abbrev pub is_bare : Event → Bool
is_bare ev = is_detected ev && not (has_key "agent" ev)

abbrev pub all_bare : List Event → Bool
all_bare evs = not (any (λ ev. not (is_bare ev)) evs)

bare_agent :
    (default : String) (ev : Event) → is_bare ev ≡ true → get_str "agent" default ev ≡ default
unfolding get_str
bare_agent default ev h = ground (arith, h, has_key-lookup "agent" ev)

bare_step :
    (counts : Dict ℕ) (ev : Event)
    → is_bare ev ≡ true
    → count_of "unknown" (note_count counts ev) ≡ count_of "unknown" counts + 1
unfolding note_count str_eq
bare_step counts ev h = ground (
  arith,
  h,
  bare_agent "unknown" ev h,
  detected_not_usage ev,
  count_of-insert "unknown" "unknown" (count_of "unknown" counts + 1) counts,
)

bare_folded :
    (evs : List Event) (st : Fold)
    → all_bare evs ≡ true
    → count_of "unknown" (fold_events st evs).detected_count
      ≡ count_of "unknown" st.detected_count + length evs
unfolding fold_events
bare_folded [] st h = omega arith
bare_folded (ev ∷ evs) st h =
    let (first, others) : (is_bare ev ≡ true) × (all_bare evs ≡ true) =
      (ground (arith, h), ground (arith, h)) in
    omega (
      arith,
      bare_folded evs (fold_event st ev) others,
      ap (count_of "unknown") (fold-detected_count st ev),
      bare_step st.detected_count ev first,
    )

empty_text : str_eq "" "unknown" ≡ false
unfolding str_eq
empty_text = refl

bare_ignored :
    (evs : List Event) (count : ℕ)
    → all_bare evs ≡ true
    → count_detections "unknown" count evs ≡ count
unfolding count_detections count_detection
bare_ignored [] count h = refl
bare_ignored (ev ∷ evs) count h =
    let (first, others) : (is_bare ev ≡ true) × (all_bare evs ≡ true) =
      (ground (arith, h), ground (arith, h)) in
    ground (arith, bare_agent "" ev first, empty_text, bare_ignored evs count others)

-- On a tail of detections that name no agent, the one scan counts them all for the agent "unknown",
-- and the separate scan counts none.
pub unlabelled_diverges :
    (log : Log) (agent : Option String) (o : RoundOutcome)
    → round_outcome log agent ≡ some o
    → all_bare (tail_events log) ≡ true
    → (count_of "unknown" o.backoff_exponent_by_agent ≡ length (tail_events log) - 1)
      × (backoff_exponent log "unknown" ≡ 0)
unfolding backoff_exponent
unlabelled_diverges log agent o scanned bare =
    let folded = bare_folded (tail_events log) start bare in
    let st = fold_events start (tail_events log) in
    (
      rw ((outcome-parts log agent o scanned).1) (
          ground (
            arith,
            folded,
            lookup-exponents "unknown" st.detected_count,
            lookup-nil {V = ℕ} "unknown",
          )),
      ground (arith, bare_ignored (tail_events log) 0 bare),
    )
