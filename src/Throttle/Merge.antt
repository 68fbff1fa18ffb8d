-- ===== src/Throttle/Merge.antt =====
-- The global scan and the per-agent merge of agent_runner/_throttle.py read the same newest event.
use cli_agent_runner.Prelude.{
  ◌≡◌, refl, Bool-cases, inl, inr, Option, none, some, List, [], ◌∷◌, ◌++◌, str_eq_iff, Dict,
  lookup, lookup-insert, NodupKeys, insert-NodupKeys, if◌then◌else◌, arith, length, ◌-◌, ◌≤◌,
  length-drop,
}
use mathlib.Core.List.{reverse, append-nil}
use cli_agent_runner.Event.{Event, get_str}
use cli_agent_runner.Throttle.Scan.{
  Log, newest_month_files, concat, tail_events, Transient, no_transient, recovered, detected,
  is_detected, is_recovered, scan_from, scan_events_for_transient, first_transient,
  latest_unrecovered_detected, note_transient, merge_transients, latest_transient_per_agent,
}

abbrev pub to_option : Transient → Option Event
to_option no_transient = none
to_option recovered = none
to_option (detected ev) = some ev

abbrev pub or_else : Transient → Transient → Transient
or_else no_transient t = t
or_else recovered t = recovered
or_else (detected ev) t = detected ev

pub scan_from-or_else :
    (evs : List Event) (t : Transient) → scan_from t evs ≡ or_else (scan_from no_transient evs) t
unfolding scan_from
scan_from-or_else [] t = refl
scan_from-or_else (ev ∷ evs) t = ground (
  arith,
  scan_from-or_else evs t,
  scan_from-or_else evs (detected ev),
  scan_from-or_else evs recovered,
)

scan_from-append :
    (xs ys : List Event) (t : Transient) → scan_from t (xs ++ ys) ≡ scan_from (scan_from t xs) ys
unfolding scan_from
scan_from-append [] ys t = refl
scan_from-append (x ∷ xs) ys t = scan_from-append xs ys _

-- At most two files: the loop over them, newest first, is one scan of their events.
first_transient-reverse :
    (files : Log)
    → length files ≤ 2
    → first_transient (reverse files) ≡ to_option (scan_from no_transient (concat files))
unfolding first_transient concat scan_events_for_transient
first_transient-reverse [] h = refl
first_transient-reverse (f ∷ []) h = rw append-nil
first_transient-reverse (f ∷ g ∷ []) h = rw append-nil (
    rw (scan_from-append f g no_transient)
      (ground (arith, scan_from-or_else g (scan_from no_transient f))))
first_transient-reverse (f ∷ g ∷ k ∷ fs) h = absurd (omega arith)

-- What the newest event says of its agent is in the merged map.
abbrev Agrees : Transient → Dict (Option Event) → Type 0
Agrees no_transient latest = Unit
Agrees recovered latest = Unit
Agrees (detected ev) latest = lookup (get_str "agent" "unknown" ev) latest ≡ some (some ev)

note-Agrees :
    (ev : Event) (t : Transient) (latest : Dict (Option Event))
    → Agrees t latest
    → Agrees
        (if is_detected ev then detected ev else if is_recovered ev then recovered else t)
        (note_transient latest ev)
unfolding note_transient
note-Agrees ev t latest h =
    let a = get_str "agent" "unknown" ev in
    elim (Bool-cases (is_detected ev)) [
      | inl d ↦ rw d (ground (arith, lookup-insert a a (some ev) latest, str_eq_iff a a))
      | inr d ↦ elim (Bool-cases (is_recovered ev)) [ inl r ↦ rw (d, r) tt | inr r ↦ rw (d, r) h ]
    ]

merge-Agrees :
    (evs : List Event) (t : Transient) (latest : Dict (Option Event))
    → Agrees t latest
    → Agrees (scan_from t evs) (merge_transients latest evs)
unfolding scan_from merge_transients
merge-Agrees [] t latest h = h
merge-Agrees (ev ∷ evs) t latest h =
    merge-Agrees evs _ (note_transient latest ev) (note-Agrees ev t latest h)

note-NodupKeys :
    (ev : Event) (latest : Dict (Option Event))
    → NodupKeys latest
    → NodupKeys (note_transient latest ev)
unfolding note_transient
note-NodupKeys ev latest h =
    let a = get_str "agent" "unknown" ev in
    ground (arith, insert-NodupKeys a (some ev) latest h, insert-NodupKeys a none latest h)

merge-NodupKeys :
    (evs : List Event) (latest : Dict (Option Event))
    → NodupKeys latest
    → NodupKeys (merge_transients latest evs)
unfolding merge_transients
merge-NodupKeys [] latest h = h
merge-NodupKeys (ev ∷ evs) latest h = merge-NodupKeys evs _ (note-NodupKeys ev latest h)

length-newest : (log : Log) → length (newest_month_files log 2) ≤ 2
unfolding newest_month_files
length-newest log = omega (arith, length-drop (length log - 2) log)

-- The global scan is one scan of the events tail.
pub latest_unrecovered-tail :
    (log : Log)
    → latest_unrecovered_detected log ≡ to_option (scan_from no_transient (tail_events log))
unfolding latest_unrecovered_detected tail_events
latest_unrecovered-tail log = first_transient-reverse (newest_month_files log 2) (length-newest log)

-- The detected event that the global scan returns is the newest one of its own agent.
pub latest_unrecovered-merged :
    (log : Log) (ev : Event)
    → latest_unrecovered_detected log ≡ some ev
    → lookup (get_str "agent" "unknown" ev) (latest_transient_per_agent log) ≡ some (some ev)
unfolding latest_transient_per_agent
latest_unrecovered-merged log ev h =
    ground (arith, latest_unrecovered-tail log, merge-Agrees (tail_events log) no_transient [] tt)

pub latest_transient-NodupKeys : (log : Log) → NodupKeys (latest_transient_per_agent log)
unfolding latest_transient_per_agent
latest_transient-NodupKeys log = merge-NodupKeys (tail_events log) [] tt
