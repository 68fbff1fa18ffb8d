-- ===== src/Throttle/Scan.antt =====
-- The scans of the events tail in agent_runner/_throttle.py. A log directory is the list of its
-- monthly files, oldest first, each the list of its events (what `event_log.scan` yields).
use cli_agent_runner.Prelude.{
  ℕ, ◌+◌, ◌-◌, Bool, ◌&&◌, Option, none, some, List, [], ◌∷◌, ◌++◌, String, str_eq, Dict, lookup,
  insert, last_n, if◌then◌else◌,
}
use mathlib.Core.List.{reverse}
use cli_agent_runner.Event.{Event, truthy, get_str, is_kind}

abbrev pub Log : Type 0
Log = List (List Event)

-- `event_log.newest_month_files`.
unfoldable pub newest_month_files : Log → ℕ → Log
newest_month_files log n = last_n n log

unfoldable pub concat : Log → List Event
concat [] = []
concat (file ∷ files) = file ++ concat files

-- The events of the newest two monthly files, oldest first.
unfoldable pub tail_events : Log → List Event
unfolding concat newest_month_files
tail_events log = concat (newest_month_files log 2)

abbrev pub is_detected : Event → Bool
is_detected = is_kind "transient_error_detected"

abbrev pub is_recovered : Event → Bool
is_recovered = is_kind "transient_error_recovered"

-- What the scan of a file remembers: `no_transient` is the sentinel `_NO_TRANSIENT`.
pub data Transient : Type 0 where
  no_transient recovered : Transient
  detected : Event → Transient

unfoldable pub scan_from : Transient → List Event → Transient
scan_from latest [] = latest
scan_from latest (ev ∷ evs) =
    scan_from
      (if is_detected ev then detected ev else if is_recovered ev then recovered else latest) evs

unfoldable pub scan_events_for_transient : List Event → Transient
unfolding scan_from
scan_events_for_transient = scan_from no_transient

-- The loop over the files, newest first.
unfoldable pub first_transient : List (List Event) → Option Event
first_transient [] = none
first_transient (file ∷ files) =
    let rest = first_transient files in
    elim (scan_events_for_transient file) [
      | no_transient ↦ rest
      | recovered ↦ none
      | detected ev ↦ some ev
    ]

unfoldable pub latest_unrecovered_detected : Log → Option Event
unfolding first_transient newest_month_files
latest_unrecovered_detected log = first_transient (reverse (newest_month_files log 2))

-- One event of the merge: the newest event of an agent wins.
unfoldable pub note_transient : Dict (Option Event) → Event → Dict (Option Event)
note_transient latest ev =
    if is_detected ev
    then insert (get_str "agent" "unknown" ev) (some ev) latest
    else if is_recovered ev
    then insert (get_str "agent" "unknown" ev) none latest
    else latest

unfoldable pub merge_transients : Dict (Option Event) → List Event → Dict (Option Event)
merge_transients latest [] = latest
merge_transients latest (ev ∷ evs) = merge_transients (note_transient latest ev) evs

unfoldable pub latest_transient_per_agent : Log → Dict (Option Event)
unfolding merge_transients
latest_transient_per_agent log = merge_transients [] (tail_events log)

-- One event of the count of an agent's detections since its last successful round.
unfoldable pub count_detection : String → ℕ → Event → ℕ
count_detection agent count ev =
    if str_eq (get_str "agent" "" ev) agent
    then (if is_detected ev
        then count + 1
        else if is_kind "agent_usage_recorded" ev && truthy (lookup "success" ev)
        then 0
        else count)
    else count

unfoldable pub count_detections : String → ℕ → List Event → ℕ
count_detections agent count [] = count
count_detections agent count (ev ∷ evs) =
    count_detections agent (count_detection agent count ev) evs

unfoldable pub backoff_exponent : Log → String → ℕ
unfolding count_detections
backoff_exponent log agent = count_detections agent 0 (tail_events log) - 1
