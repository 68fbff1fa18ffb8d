-- ===== src/Monitor/Stale.antt =====
-- The alarm of `detect_supervisor_stale` of agent_runner/_monitor_detectors.py: how long it stands.
use cli_agent_runner.Monitor.OwnEvents.{
  of_monitor, of_monitor-no_pause, of_monitor_self, pause-snoc, supervised-snoc,
}
use cli_agent_runner.Throttle.Active.{later}
use cli_agent_runner.Monitor.Silence.{
  monitor_self, detect_supervisor_stale, latest_stale_pause_event, silent_since, still_paused,
  max_text, stamps,
}
use cli_agent_runner.Event.{Event, Value, str}
use cli_agent_runner.Prelude.{
  Bool, List, String, [], any, arith, false, not, refl, true, ◌∷◌, ◌≡◌, ◌++◌, Option, ap, none,
  select, some, sym, ℕ, ◌∙◌, ◌≤◌, ◌==◌, if◌then◌else◌,
}
use cli_agent_runner.Monitor.{Detected, fires, crash, quiet}
use mathlib.Core.List.{append_assoc, append-nil}

abbrev pub is_alert : Detected → Bool
is_alert (fires a) = true
is_alert _ = false

silent_since-same :
    (events others : List Event) (now threshold_s : ℕ) (last : String)
    → latest_stale_pause_event events ≡ latest_stale_pause_event others
    → silent_since events now threshold_s last ≡ silent_since others now threshold_s last
unfolding silent_since
silent_since-same events others now threshold_s last h = ground (arith, h)

-- What the detector makes of the stamps of the supervised events.
abbrev from_stamps : List Event → ℕ → ℕ → List Value → Detected
from_stamps events now threshold_s vs = elim vs [
  | [] ↦ quiet
  | str s ∷ vs ↦ elim (max_text s vs) [
    | none ↦ crash
    | some last ↦ silent_since events now threshold_s last
  ]
  | v ∷ vs ↦ crash
]

abbrev supervised : List Event → List Value
supervised events = stamps (select (λ e. not (monitor_self e)) events)

detect-from_stamps :
    (events : List Event) (now threshold_s : ℕ)
    → detect_supervisor_stale events now threshold_s
      ≡ (if threshold_s == 0 then quiet else from_stamps events now threshold_s (supervised events))
unfolding detect_supervisor_stale
detect-from_stamps events now threshold_s = refl

from_max-same :
    (events others : List Event) (now threshold_s : ℕ) (newest : Option String)
    → latest_stale_pause_event events ≡ latest_stale_pause_event others
    → elim newest [ none ↦ crash | some last ↦ silent_since events now threshold_s last ]
      ≡ elim newest [ none ↦ crash | some last ↦ silent_since others now threshold_s last ]
from_max-same events others now threshold_s none h = refl
from_max-same events others now threshold_s (some last) h =
    silent_since-same events others now threshold_s last h

from_stamps-same :
    (events others : List Event) (now threshold_s : ℕ) (vs : List Value)
    → latest_stale_pause_event events ≡ latest_stale_pause_event others
    → from_stamps events now threshold_s vs ≡ from_stamps others now threshold_s vs
from_stamps-same events others now threshold_s [] h = refl
from_stamps-same events others now threshold_s (str s ∷ vs) h =
    from_max-same events others now threshold_s (max_text s vs) h
from_stamps-same events others now threshold_s (_ ∷ vs) h = refl

detect-snoc :
    (events : List Event) (m : Event) (now threshold_s : ℕ)
    → of_monitor m ≡ true
    → detect_supervisor_stale (events ++ m ∷ []) now threshold_s
      ≡ detect_supervisor_stale events now threshold_s
detect-snoc events m now threshold_s h =
    rw
      (
        detect-from_stamps (events ++ m ∷ []) now threshold_s,
        detect-from_stamps events now threshold_s,
        supervised-snoc events m (of_monitor_self m h),
      )
      (ap (λ d. if threshold_s == 0 then quiet else d)
        (from_stamps-same (events ++ m ∷ []) events now threshold_s (supervised events)
          (pause-snoc events m (of_monitor-no_pause m h))))

detect-append :
    (events ms : List Event) (now threshold_s : ℕ)
    → any (λ m. not (of_monitor m)) ms ≡ false
    → detect_supervisor_stale (events ++ ms) now threshold_s
      ≡ detect_supervisor_stale events now threshold_s
detect-append events [] now threshold_s h = rw append-nil refl
detect-append events (m ∷ ms) now threshold_s h =
    ap (λ l. detect_supervisor_stale l now threshold_s) (sym (append_assoc events (m ∷ []) ms))
    ∙ detect-append (events ++ m ∷ []) ms now threshold_s (ground (arith, h))
    ∙ detect-snoc events m now threshold_s (ground (arith, h))

still_paused-later :
    (o : Option Event) (now later threshold_s : ℕ)
    → now ≤ later
    → still_paused o now threshold_s ≡ false
    → still_paused o later threshold_s ≡ false
unfolding still_paused
still_paused-later none now later threshold_s h p = refl
still_paused-later (some e) now later threshold_s h p = ground arith

silent_since-later :
    (events : List Event) (now later threshold_s : ℕ) (last : String)
    → now ≤ later
    → is_alert (silent_since events now threshold_s last) ≡ true
    → is_alert (silent_since events later threshold_s last) ≡ true
unfolding silent_since
silent_since-later events now later threshold_s last h alert =
    ground (arith, still_paused-later (latest_stale_pause_event events) now later threshold_s h)

from_max-later :
    (events : List Event) (now later threshold_s : ℕ) (newest : Option String)
    → now ≤ later
    → is_alert (elim newest [ none ↦ crash | some last ↦ silent_since events now threshold_s last ])
      ≡ true
    → is_alert
        (elim newest [ none ↦ crash | some last ↦ silent_since events later threshold_s last ])
      ≡ true
from_max-later events now later threshold_s none h alert = alert
from_max-later events now later threshold_s (some last) h alert =
    silent_since-later events now later threshold_s last h alert

from_stamps-later :
    (events : List Event) (now later threshold_s : ℕ) (vs : List Value)
    → now ≤ later
    → is_alert (from_stamps events now threshold_s vs) ≡ true
    → is_alert (from_stamps events later threshold_s vs) ≡ true
from_stamps-later events now later threshold_s [] h alert = alert
from_stamps-later events now later threshold_s (str s ∷ vs) h alert =
    from_max-later events now later threshold_s (max_text s vs) h alert
from_stamps-later events now later threshold_s (_ ∷ vs) h alert = absurd (ground (arith, alert))

detect-later :
    (events : List Event) (now later threshold_s : ℕ)
    → now ≤ later
    → is_alert (detect_supervisor_stale events now threshold_s) ≡ true
    → is_alert (detect_supervisor_stale events later threshold_s) ≡ true
detect-later events now later threshold_s h alert = ground (
  arith,
  detect-from_stamps events now threshold_s,
  detect-from_stamps events later threshold_s,
  alert,
  from_stamps-later events now later threshold_s (supervised events) h,
)

-- An alarm of a silent supervisor stands until the supervisor writes again: at every later time, whatever
-- events of its own the monitor has added to the log since, the alert itself and the start of another
-- monitor among them, the detector reports it again.
pub stale_alert_stands :
    (events added : List Event) (now later threshold_s : ℕ)
    → any (λ m. not (of_monitor m)) added ≡ false
    → now ≤ later
    → is_alert (detect_supervisor_stale events now threshold_s) ≡ true
    → is_alert (detect_supervisor_stale (events ++ added) later threshold_s) ≡ true
stale_alert_stands events added now later threshold_s own h alert =
    rw (detect-append events added later threshold_s own)
      (detect-later events now later threshold_s h alert)
