-- ===== src/Throttle/Recovery.antt =====
-- The recovered breadcrumbs: `pending_recovered` of agent_runner/_throttle.py and
-- `_maybe_emit_recovered` of agent_runner/cli/_serve_round.py, which emits one for each agent.
use cli_agent_runner.Throttle.Merge.{latest_transient-NodupKeys}
use mathlib.Core.List.{append-nil, append_assoc}
use cli_agent_runner.Throttle.Active.{
  cleared_from, pending_recovered, Cleared, TransientErrorState, later,
}
use cli_agent_runner.Prelude.{
  ℕ, ◌∷◌, String, Option, ◌<◌, List, ◌++◌, Dict, Bool, length, ◌≡◌, pos, count_if, drop, ap, [],
  str_eq, NodupKeys, if◌then◌else◌, arith, suc, ◌-◌, lookup, ◌&&◌, not, has_key, false, lookup-cons,
  lookup-not_key, none, refl, some, str_eq_iff, true, zero, ◌==◌, insert, lookup-insert, sym, ◌∙◌,
}
use cli_agent_runner.Event.{Event, str, int, get_str, is_kind}
use cli_agent_runner.Throttle.Scan.{
  Log, concat, tail_events, newest_month_files, latest_transient_per_agent, merge_transients,
  note_transient,
}

-- `events.emit`: the payload goes to the end of the newest monthly file. The file of a new month is
-- a step of its own, `open_month`.
unfoldable pub append_event : Log → Event → Log
append_event [] ev = (ev ∷ []) ∷ []
append_event (file ∷ []) ev = (file ++ ev ∷ []) ∷ []
append_event (file ∷ next ∷ files) ev = file ∷ append_event (next ∷ files) ev

-- The payload of `emit_transient_error_recovered`, stamped by the clock.
unfoldable pub recovered_event : String → Cleared → Event
recovered_event stamp c =
    ("ts", str stamp)
    ∷ ("event", str "transient_error_recovered")
    ∷ ("classification", str c.classification)
    ∷ ("throttled_for_s", int (pos c.throttled_for_s))
    ∷ ("agent", str c.agent)
    ∷ []

emit_all : String → Log → List Cleared → Log
unfolding append_event recovered_event
emit_all stamp log [] = log
emit_all stamp log (c ∷ cs) = emit_all stamp (append_event log (recovered_event stamp c)) cs

unfoldable pub maybe_emit_recovered : String → Log → Dict TransientErrorState → ℕ → Log
unfolding emit_all
maybe_emit_recovered stamp log active now = emit_all stamp log (pending_recovered log active now)

-- How often an agent is reported.
abbrev pub reports : String → List Cleared → ℕ
reports a cs = count_if (λ c. str_eq c.agent a) cs

abbrev awaiting : Option (Option Event) → Bool
awaiting (some (some ev)) = true
awaiting _ = false

reports-cleared_from :
    (now : ℕ) (active : Dict TransientErrorState) (a : String) (latest : Dict (Option Event))
    → NodupKeys latest
    → reports a (cleared_from now active latest)
      ≡ (if awaiting (lookup a latest) && not (has_key a active) then 1 else 0)
unfolding cleared_from
reports-cleared_from now active a [] h = unfold lookup in refl
reports-cleared_from now active a ((k, none) ∷ latest) h = ground (
  arith,
  reports-cleared_from now active a latest h.1,
  lookup-cons a k none latest,
  str_eq_iff k a,
  lookup-not_key k latest h.0,
)
reports-cleared_from now active a ((k, some ev) ∷ latest) h = ground (
  arith,
  reports-cleared_from now active a latest h.1,
  lookup-cons a k (some ev) latest,
  str_eq_iff k a,
  lookup-not_key k latest h.0,
)

-- An agent is reported once where its newest transient event is a detection and it has no active
-- throttle, and never otherwise.
pub reports-pending :
    (log : Log) (active : Dict TransientErrorState) (now : ℕ) (a : String)
    → reports a (pending_recovered log active now) ≡ (
        if awaiting (lookup a (latest_transient_per_agent log)) && not (has_key a active)
        then 1
        else 0)
unfolding pending_recovered
reports-pending log active now a =
    reports-cleared_from now active a (latest_transient_per_agent log)
      (latest_transient-NodupKeys log)

drop-append_event :
    (n : ℕ) (log : Log) (ev : Event)
    → n < length log
    → drop n (append_event log ev) ≡ append_event (drop n log) ev
unfolding append_event
drop-append_event n [] ev h = absurd (omega arith)
drop-append_event zero (f ∷ fs) ev h = refl
drop-append_event (suc n) (f ∷ []) ev h = absurd (omega arith)
drop-append_event (suc n) (f ∷ g ∷ fs) ev h = drop-append_event n (g ∷ fs) ev (omega arith)

length-append_event :
    (f : List Event) (log : Log) (ev : Event)
    → length (append_event (f ∷ log) ev) ≡ length (f ∷ log)
unfolding append_event
length-append_event f [] ev = refl
length-append_event f (g ∷ log) ev = ap suc (length-append_event g log ev)

concat-append_event :
    (log : Log) (ev : Event) → concat (append_event log ev) ≡ concat log ++ ev ∷ []
unfolding append_event concat
concat-append_event [] ev = refl
concat-append_event (f ∷ []) ev = rw (append-nil, append-nil)
concat-append_event (f ∷ g ∷ fs) ev =
    ap (λ l. f ++ l) (concat-append_event (g ∷ fs) ev)
    ∙ sym (append_assoc f (concat (g ∷ fs)) (ev ∷ []))

tail-append_event :
    (log : Log) (ev : Event) → tail_events (append_event log ev) ≡ tail_events log ++ ev ∷ []
unfolding tail_events newest_month_files
tail-append_event [] ev = unfold append_event in refl
tail-append_event (f ∷ fs) ev =
    rw
      (
        length-append_event f fs ev,
        drop-append_event (length (f ∷ fs) - 2) (f ∷ fs) ev (omega arith),
      )
      (concat-append_event (drop (length (f ∷ fs) - 2) (f ∷ fs)) ev)

merge-append :
    (xs ys : List Event) (latest : Dict (Option Event))
    → merge_transients latest (xs ++ ys) ≡ merge_transients (merge_transients latest xs) ys
unfolding merge_transients
merge-append [] ys latest = refl
merge-append (x ∷ xs) ys latest = merge-append xs ys (note_transient latest x)

note-recovered :
    (stamp : String) (c : Cleared) (latest : Dict (Option Event))
    → note_transient latest (recovered_event stamp c) ≡ insert c.agent none latest
unfolding note_transient recovered_event is_kind get_str str_eq
note-recovered stamp c latest = refl

latest-recovered :
    (stamp : String) (c : Cleared) (log : Log)
    → latest_transient_per_agent (append_event log (recovered_event stamp c))
      ≡ insert c.agent none (latest_transient_per_agent log)
unfolding latest_transient_per_agent
latest-recovered stamp c log = rw (tail-append_event log (recovered_event stamp c)) (
    merge-append (tail_events log) (recovered_event stamp c ∷ []) []
    ∙ unfold merge_transients in note-recovered stamp c _)

lookup-emit_all :
    (stamp : String) (a : String) (cs : List Cleared) (log : Log)
    → lookup a (latest_transient_per_agent (emit_all stamp log cs))
      ≡ (if reports a cs == 0 then lookup a (latest_transient_per_agent log) else some none)
unfolding emit_all
lookup-emit_all stamp a [] log = refl
lookup-emit_all stamp a (c ∷ cs) log = ground (
  arith,
  lookup-emit_all stamp a cs (append_event log (recovered_event stamp c)),
  latest-recovered stamp c log,
  lookup-insert a c.agent none (latest_transient_per_agent log),
)

nil_of_reports : (cs : List Cleared) → ((a : String) → reports a cs ≡ 0) → cs ≡ []
nil_of_reports [] h = refl
nil_of_reports (c ∷ cs) h = absurd (ground (arith, h c.agent, str_eq_iff c.agent c.agent))

-- Once the breadcrumbs are emitted, nothing is pending for the same throttles: no agent is
-- reported twice.
pub pending-maybe_emit_recovered :
    (stamp : String) (log : Log) (active : Dict TransientErrorState) (now later : ℕ)
    → pending_recovered (maybe_emit_recovered stamp log active now) active later ≡ []
unfolding maybe_emit_recovered
pending-maybe_emit_recovered stamp log active now later = nil_of_reports _ λ a. ground (
  arith,
  reports-pending (emit_all stamp log (pending_recovered log active now)) active later a,
  lookup-emit_all stamp a (pending_recovered log active now) log,
  reports-pending log active now a,
)
