-- ===== src/Monitor/Silence.antt =====
-- `detect_supervisor_stale` of agent_runner/_monitor_detectors.py: a supervisor that writes no events.
-- `now` is in microseconds.
use mathlib.Core.List.{reverse}
use cli_agent_runner.Event.Time.{parse_iso_ms}
use cli_agent_runner.Event.{Event, Value, is_kind, str}
use cli_agent_runner.Prelude.{
  ◌&&◌, ◌*◌, ◌+◌, ◌-◌, ◌==◌, Bool, List, Option, String, [], if◌then◌else◌, false, leb, lookup,
  none, not, select, some, true, ◌||◌, ℕ, ◌∷◌, codes, text_less,
}
use cli_agent_runner.Monitor.{Detected, crash, quiet, warn, supervisor_stale, silence}

-- `_MONITOR_SELF_KINDS` of agent_runner/_monitor_registry.py.
unfoldable pub monitor_self : Event → Bool
monitor_self e =
    is_kind "monitor_alert_emitted" e
    || is_kind "monitor_auto_stop_failed" e
    || is_kind "monitor_auto_stop_triggered" e
    || is_kind "monitor_remote_blip" e
    || is_kind "monitor_remote_giveup" e
    || is_kind "monitor_started" e
    || is_kind "detector_error" e

-- `max` of the stamps: the first of the largest. A stamp that is no text raises where there are two.
unfoldable pub max_text : String → List Value → Option String
unfolding codes text_less
max_text best [] = some best
max_text best (str s ∷ vs) = max_text (if text_less (codes best) (codes s) then s else best) vs
max_text best (v ∷ vs) = none

unfoldable pub stamps : List Event → List Value
stamps [] = []
stamps (e ∷ es) = let rest = stamps es in elim (lookup "ts" e) [ none ↦ rest | some v ↦ v ∷ rest ]

unfoldable pub suppresses : Event → Bool
suppresses e = is_kind "schedule_paused" e || is_kind "round_deferred" e

unfoldable pub resumes : Event → Bool
resumes e = is_kind "schedule_resumed" e || is_kind "round_resumed" e

unfoldable pub first_pause : List Event → Option Event
first_pause [] = none
first_pause (e ∷ es) =
    let rest = first_pause es in if suppresses e || resumes e then some e else rest

unfoldable pub latest_stale_pause_event : List Event → Option Event
unfolding first_pause
latest_stale_pause_event events = first_pause (reverse events)

abbrev pub resume_horizon_ms : ℕ
resume_horizon_ms = 8 * 24 * 3600 * 1000

abbrev pub stamp_at : Option Value → Option ℕ
stamp_at none = none
stamp_at (some v) = parse_iso_ms v

-- The end of a pause: the announced time, or the pause's own stamp and the horizon.
unfoldable pub pause_bound : Event → Option ℕ
pause_bound e = elim (stamp_at (lookup "resume_at" e)) [
  | some resume ↦ some resume
  | none ↦ elim (stamp_at (lookup "ts" e)) [ none ↦ none | some ts ↦ some (ts + resume_horizon_ms) ]
]

-- A pause that may still be in force keeps the alert back.
unfoldable pub still_paused : Option Event → ℕ → ℕ → Bool
still_paused none now threshold_s = false
still_paused (some e) now threshold_s = suppresses e && elim (pause_bound e) [
  | none ↦ true
  | some bound ↦ leb now (bound * 1000 + threshold_s * 1000000)
]

unfoldable pub silent_since : List Event → ℕ → ℕ → String → Detected
silent_since events now threshold_s last = elim (parse_iso_ms (str last)) [
  | none ↦ crash
  | some ts ↦
      let age = now - ts * 1000 in
      if leb age (threshold_s * 1000000)
      then quiet
      else if still_paused (latest_stale_pause_event events) now threshold_s
      then quiet
      else warn supervisor_stale (silence age (str last))
]

unfoldable pub detect_supervisor_stale : List Event → ℕ → ℕ → Detected
detect_supervisor_stale events now threshold_s =
    if threshold_s == 0 then quiet else elim (stamps (select (λ e. not (monitor_self e)) events)) [
      | [] ↦ quiet
      | str s ∷ vs ↦ elim (max_text s vs) [
        | none ↦ crash
        | some last ↦ silent_since events now threshold_s last
      ]
      | v ∷ vs ↦ crash
    ]
