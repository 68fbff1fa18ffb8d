-- ===== src/Monitor/OwnEvents.antt =====
-- The events that the monitor adds to the log, as `detect_supervisor_stale` of
-- agent_runner/_monitor_detectors.py reads them.
use cli_agent_runner.Monitor.Silence.{
  monitor_self, resumes, suppresses, first_pause, latest_stale_pause_event,
}
use cli_agent_runner.Event.{Event, is_kind, is_kind-ne}
use cli_agent_runner.Prelude.{
  Bool, Bool-cases, List, String, [], any, arith, false, inl, inr, not, refl, str_eq, true, ◌∷◌,
  ◌≡◌, ◌++◌, select,
}
use mathlib.Core.List.{reverse-append}

-- The events that the monitor itself writes into the log.
abbrev pub monitor_kinds : List String
monitor_kinds =
    "monitor_alert_emitted" ∷ "monitor_auto_stop_failed" ∷ "monitor_auto_stop_triggered"
    ∷ "monitor_remote_blip" ∷ "monitor_remote_giveup" ∷ "monitor_started" ∷ "detector_error" ∷ []

abbrev pub of_monitor : Event → Bool
of_monitor e = any (λ k. is_kind k e) monitor_kinds

pub of_monitor_self : (e : Event) → of_monitor e ≡ true → monitor_self e ≡ true
unfolding monitor_self
of_monitor_self e h = ground (arith, h)

abbrev pause_kinds : List String
pause_kinds = "schedule_paused" ∷ "round_deferred" ∷ "schedule_resumed" ∷ "round_resumed" ∷ []

-- Some name of the one list is one of the other.
abbrev overlap : List String → List String → Bool
overlap ks ps = any (λ k. any (λ p. str_eq k p) ps) ks

kinds_apart : overlap monitor_kinds pause_kinds ≡ false
unfolding str_eq
kinds_apart = refl

not_of_kinds :
    (k : String) (ps : List String) (e : Event)
    → is_kind k e ≡ true
    → any (λ p. str_eq k p) ps ≡ false
    → any (λ p. is_kind p e) ps ≡ false
not_of_kinds k [] e h d = refl
not_of_kinds k (p ∷ ps) e h d =
    ground
      (arith, is_kind-ne k p e h (ground (arith, d)), not_of_kinds k ps e h (ground (arith, d)))

any_apart :
    (ks ps : List String) (e : Event)
    → any (λ k. is_kind k e) ks ≡ true
    → overlap ks ps ≡ false
    → any (λ p. is_kind p e) ps ≡ false
any_apart [] ps e h d = absurd (ground (arith, h))
any_apart (k ∷ ks) ps e h d = elim (Bool-cases (is_kind k e)) [
  | inl q ↦ not_of_kinds k ps e q (ground (arith, d))
  | inr q ↦ any_apart ks ps e (ground (arith, h, q)) (ground (arith, d))
]

pub of_monitor-no_pause :
    (e : Event) → of_monitor e ≡ true → (suppresses e ≡ false) × (resumes e ≡ false)
unfolding suppresses resumes
of_monitor-no_pause e h =
    let none_of = any_apart monitor_kinds pause_kinds e h kinds_apart in
    (ground (arith, none_of), ground (arith, none_of))

-- The monitor's own events are no sign of life, and neither begin nor end a pause.
pub supervised-snoc :
    (events : List Event) (m : Event)
    → monitor_self m ≡ true
    → select (λ e. not (monitor_self e)) (events ++ m ∷ [])
      ≡ select (λ e. not (monitor_self e)) events
supervised-snoc [] m h = rw h refl
supervised-snoc (e ∷ es) m h = ground (arith, supervised-snoc es m h)

pub pause-snoc :
    (events : List Event) (m : Event)
    → (suppresses m ≡ false) × (resumes m ≡ false)
    → latest_stale_pause_event (events ++ m ∷ []) ≡ latest_stale_pause_event events
unfolding latest_stale_pause_event first_pause
pause-snoc events m h = rw (reverse-append events (m ∷ []), h.0, h.1, first_pause) refl
