-- ===== src/Monitor/Rearm.antt =====
-- The dedup of `_monitor_loop_iter` of agent_runner/_observe.py: a stop that is still draining is tried
-- again at the next poll.
use cli_agent_runner.Monitor.Episodes.{
  Firing, Identity, Kept, Seen, alert_identity, forget, handle, remember, remembers, same_identity,
  handle_all, is_draining, monitor_loop, monitor_poll, monitor_seen_cap, still_firing, verdict_on,
}
use cli_agent_runner.Prelude.{
  ◌++◌, Bool, List, Option, String, [], any-append, arith, false, refl, select, ◌||◌, ◌∷◌, ◌≡◌, ◌-◌,
  Bool-cases, any, any-drop, drop, inl, inr, length, none, not, some, true, map,
}
use mathlib.Core.List.{Mem, mem-append_left, mem-append_right, mem-cons_self}
use cli_agent_runner.Monitor.{Alert}
use cli_agent_runner.Monitor.Alerting.{
  StopResult, stopped, OnAlertVerdict, triggered, ServiceMode, pid_file, on_alert, stop_then_record,
}

any-select_not : (key : Identity) (seen : Seen) → remembers key (forget key seen) ≡ false
unfolding remembers forget
any-select_not key [] = refl
any-select_not key (k ∷ seen) = ground (arith, any-select_not key seen)

any-select_le :
    (key : Identity) (p : Identity → Bool) (seen : Seen)
    → remembers key seen ≡ false
    → remembers key (select p seen) ≡ false
unfolding remembers
any-select_le key p [] h = refl
any-select_le key p (k ∷ seen) h = ground (arith, h, any-select_le key p seen)

remembers-append :
    (key k : Identity) (seen : Seen)
    → remembers key (seen ++ k ∷ []) ≡ (remembers key seen || same_identity key k)
unfolding remembers
remembers-append key k seen = ground (arith, any-append (same_identity key) seen (k ∷ []))

out_of_append :
    (key k : Identity) (seen : Seen)
    → remembers key seen ≡ false
    → same_identity key k ≡ false
    → remembers key (seen ++ k ∷ []) ≡ false
out_of_append key k seen h d = ground (arith, remembers-append key k seen)

remembers-remember :
    (key k : Identity) (seen : Seen)
    → remembers key seen ≡ false
    → same_identity key k ≡ false
    → remembers key (remember k seen) ≡ false
unfolding remember remembers
remembers-remember key k seen h d =
    let all = seen ++ k ∷ [] in
    let n = length all - monitor_seen_cap in
    elim (Bool-cases (any (same_identity key) (drop n all))) [
      | inl t ↦
          absurd
            (ground (arith, any-drop (same_identity key) n all t, out_of_append key k seen h d))
      | inr e ↦ e
    ]

-- An alert of another episode does not bring the key in.
handle-other :
    (allow : Option (List String)) (key : Identity) (kept : Kept) (f : Firing)
    → same_identity key (alert_identity f.0) ≡ false
    → remembers key kept.0 ≡ false
    → remembers key (handle allow kept f).0 ≡ false
unfolding handle forget
handle-other allow key (seen, handed) f d h =
    let k = alert_identity f.0 in
    elim (Bool-cases (remembers k seen)) [
      | inl e ↦ rw e (
          out_of_append key k (forget k seen)
            (any-select_le key (λ j. not (same_identity k j)) seen h) d)
      | inr e ↦ elim (Bool-cases (is_draining (verdict_on allow f))) [
        | inl t ↦
            rw (e, t)
              (any-select_le key (λ j. not (same_identity k j)) (remember k seen)
                (remembers-remember key k seen h d))
        | inr t ↦ rw (e, t) (remembers-remember key k seen h d)
      ]
    ]

-- The alerts are of other episodes.
abbrev pub Others : Identity → List Firing → Type 0
Others key [] = Unit
Others key (f ∷ fs) = (same_identity key (alert_identity f.0) ≡ false) × Others key fs

handle_all-other :
    (allow : Option (List String)) (key : Identity) (fs : List Firing) (kept : Kept)
    → Others key fs
    → remembers key kept.0 ≡ false
    → remembers key (handle_all allow kept fs).0 ≡ false
unfolding handle_all
handle_all-other allow key [] kept o h = h
handle_all-other allow key (f ∷ fs) kept o h =
    handle_all-other allow key fs (handle allow kept f) o.1 (handle-other allow key kept f o.0 h)

handle-kept :
    (allow : Option (List String)) (x : Alert × OnAlertVerdict) (kept : Kept) (f : Firing)
    → Mem x kept.1
    → Mem x (handle allow kept f).1
unfolding handle
handle-kept allow x (seen, handed) f m = elim (Bool-cases (remembers (alert_identity f.0) seen)) [
  | inl e ↦ rw e m
  | inr e ↦ rw e (mem-append_left _ m)
]

handle_all-kept :
    (allow : Option (List String)) (x : Alert × OnAlertVerdict) (fs : List Firing) (kept : Kept)
    → Mem x kept.1
    → Mem x (handle_all allow kept fs).1
unfolding handle_all
handle_all-kept allow x [] kept m = m
handle_all-kept allow x (f ∷ fs) kept m =
    handle_all-kept allow x fs (handle allow kept f) (handle-kept allow x kept f m)

handle-fresh :
    (allow : Option (List String)) (kept : Kept) (f : Firing)
    → remembers (alert_identity f.0) kept.0 ≡ false
    → Mem (f.0, verdict_on allow f) (handle allow kept f).1
unfolding handle
handle-fresh allow (seen, handed) f h = rw h (mem-append_right handed mem-cons_self)

handle-draining :
    (allow : Option (List String)) (kept : Kept) (f : Firing)
    → remembers (alert_identity f.0) kept.0 ≡ false
    → is_draining (verdict_on allow f) ≡ true
    → remembers (alert_identity f.0) (handle allow kept f).0 ≡ false
unfolding handle
handle-draining allow (seen, handed) f h d =
    rw (h, d) (any-select_not (alert_identity f.0) (remember (alert_identity f.0) seen))

handle_all-append :
    (allow : Option (List String)) (fs gs : List Firing) (kept : Kept)
    → handle_all allow kept (fs ++ gs) ≡ handle_all allow (handle_all allow kept fs) gs
unfolding handle_all
handle_all-append allow [] gs kept = refl
handle_all-append allow (f ∷ fs) gs kept = handle_all-append allow fs gs (handle allow kept f)

-- The alert fires in the poll, with what `api.stop` comes to, and no other alert is of its episode.
pub data Fires (a : Alert) (r : StopResult) : List Firing → Type 0 where
  among :
      (before after : List Firing)
      → Others (alert_identity a) before
      → Others (alert_identity a) after
      → Fires a r (before ++ (a, some r) ∷ after)

module _ (allow : Option (List String)) (a : Alert) (r : StopResult) where
  poll-handed :
      (seen : Seen) {fs : List Firing}
      → Fires a r fs
      → remembers (alert_identity a) seen ≡ false
      → Mem (a, verdict_on allow (a, some r)) (monitor_poll allow seen (some fs)).1
  unfolding monitor_poll
  poll-handed seen (among before after o p) h =
      rw (handle_all-append allow before ((a, some r) ∷ after) (seen, []), handle_all)
        (handle_all-kept allow _ after _ (
          handle-fresh allow (handle_all allow (seen, []) before) (a, some r)
            (handle_all-other allow (alert_identity a) before (seen, []) o h)))

  poll-rearmed :
      (seen : Seen) {fs : List Firing}
      → Fires a r fs
      → is_draining (verdict_on allow (a, some r)) ≡ true
      → remembers (alert_identity a) seen ≡ false
      → remembers (alert_identity a) (monitor_poll allow seen (some fs)).0 ≡ false
  unfolding monitor_poll still_firing
  poll-rearmed seen (among before after o p) d h =
      any-select_le (alert_identity a)
        (λ k. remembers k (map (λ f. alert_identity f.0) (before ++ (a, some r) ∷ after)))
        (handle_all allow (seen, []) (before ++ (a, some r) ∷ after)).0
        (rw (handle_all-append allow before ((a, some r) ∷ after) (seen, []), handle_all)
          (handle_all-other allow (alert_identity a) after _ p (
            handle-draining allow (handle_all allow (seen, []) before) (a, some r)
              (handle_all-other allow (alert_identity a) before (seen, []) o h) d)))

-- Polls through which the alert fires and the service drains, or that raise.
pub data Draining (a : Alert) : List (Option (List Firing)) → Type 0 where
  none_yet : Draining a []
  poll_raised : {ps : List (Option (List Firing))} → Draining a ps → Draining a (none ∷ ps)
  drains :
      {fs : List Firing} {ps : List (Option (List Firing))}
      → Fires a (stopped pid_file true) fs
      → Draining a ps
      → Draining a (some fs ∷ ps)

inactive-triggered :
    (allow : Option (List String)) (a : Alert) (mode : ServiceMode)
    → (on_alert a allow (stopped mode false)).stop_called ≡ true
    → verdict_on allow (a, some (stopped mode false)) ≡ triggered
unfolding on_alert stop_then_record
inactive-triggered allow a mode h = ground (arith, h)

active-draining :
    (allow : Option (List String)) (a : Alert) (mode : ServiceMode)
    → (on_alert a allow (stopped mode false)).stop_called ≡ true
    → is_draining (verdict_on allow (a, some (stopped pid_file true))) ≡ true
unfolding on_alert stop_then_record
active-draining allow a mode h = ground (arith, h)

-- A stop that an alert may make is tried again at every poll while the service drains, and recorded as
-- triggered at the first poll that finds the service stopped, however long the draining takes and
-- whatever polls raise in between; the alert starts outside the set of remembered episodes and fires all
-- the while.
pub draining-triggered :
    (allow : Option (List String)) (a : Alert) (mode : ServiceMode)
    {ps : List (Option (List Firing))} {fs : List Firing}
    → (on_alert a allow (stopped mode false)).stop_called ≡ true
    → Draining a ps
    → (seen : Seen) → remembers (alert_identity a) seen ≡ false
    → Fires a (stopped mode false) fs
    → Mem (a, triggered) (monitor_loop allow seen (ps ++ some fs ∷ [])).1
unfolding monitor_loop monitor_poll
draining-triggered allow a mode eligible none_yet seen fresh fire = mem-append_left [] (
    rw (← inactive-triggered allow a mode eligible)
      (poll-handed allow a (stopped mode false) seen fire fresh))
draining-triggered allow a mode eligible (poll_raised d) seen fresh fire =
    draining-triggered allow a mode eligible d seen fresh fire
draining-triggered allow a mode eligible (drains {fs = gs} f d) seen fresh fire =
    mem-append_right _ (
      draining-triggered allow a mode eligible d (monitor_poll allow seen (some gs)).0
        (poll-rearmed allow a (stopped pid_file true) seen f (active-draining allow a mode eligible)
          fresh)
        fire)
