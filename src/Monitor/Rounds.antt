-- ===== src/Monitor/Rounds.antt =====
-- The detectors of agent_runner/_monitor_detectors.py that read the course of the rounds: rounds that
-- time out, hang, or leave orphans, and tools that repeat.
use cli_agent_runner.RoundOutcome.{start}
use cli_agent_runner.Prelude.{
  ◌&&◌, ◌*◌, ◌+◌, ◌-◌, ◌==◌, Bool, Dict, List, Option, String, [], any, count_if, if◌then◌else◌,
  false, leb, length, lookup, ltb, max, none, not, select, some, true, ℕ, ◌∷◌,
}
use cli_agent_runner.Monitor.{
  Detected, crash, quiet, warn, timeout_rate, hung, orphan_chain, anomaly_repetitive_active, share,
  open_round, orphans, repeats, last_n_round_exits, reaches_fifth,
}
use cli_agent_runner.Event.{Event, Value, is_kind, truthy, str}
use cli_agent_runner.Event.Fields.{round_of, text_is}
use cli_agent_runner.Event.Time.{parse_iso_ms}

abbrev pub window : ℕ
window = 10

abbrev pub real_timeout : Event → Bool
real_timeout e = truthy (lookup "timed_out" e) && not (text_is "exit_cause" "grace_kill" e)

unfoldable pub detect_timeout_rate : List Event → Detected
detect_timeout_rate events =
    let recent = last_n_round_exits events window in
    let timed = count_if real_timeout recent in
    if ltb (length recent) window
    then quiet
    else if reaches_fifth timed (length recent)
    then warn timeout_rate (share timed (length recent))
    else quiet

-- `phases_overrides.get(phase)`, of which only the budget is read; the phase of an event is a text or
-- null.
unfoldable pub phase_timeout : Dict (Option ℕ) → Option String → ℕ → ℕ
phase_timeout overrides none fallback = fallback
phase_timeout overrides (some phase) fallback = elim (lookup phase overrides) [
  | some (some budget) ↦ budget
  | _ ↦ fallback
]

abbrev pub is_start : Event → Bool
is_start = is_kind "round_start"

abbrev pub is_end : Event → Bool
is_end = is_kind "round_end"

-- `open_rounds`: the start of each round that has not ended.
abbrev pub OpenRounds : Type 0
OpenRounds = List (ℕ × Event)

unfoldable pub open_of : ℕ → OpenRounds → Option Event
open_of rn [] = none
open_of rn ((n, e) ∷ rounds) = if n == rn then some e else open_of rn rounds

unfoldable pub set_open : ℕ → Event → OpenRounds → OpenRounds
set_open rn e [] = (rn, e) ∷ []
set_open rn e ((n, f) ∷ rounds) = if n == rn then (n, e) ∷ rounds else (n, f) ∷ set_open rn e rounds

unfoldable pub pop_open : ℕ → OpenRounds → OpenRounds
pop_open rn [] = []
pop_open rn ((n, f) ∷ rounds) =
    let rest = pop_open rn rounds in if n == rn then rest else (n, f) ∷ rest

-- The loop of `detect_hung`. An event of a start carries a stamp, which `emit` writes.
unfoldable pub track : OpenRounds × Option ℕ → Event → OpenRounds × Option ℕ
track (rounds, highest) e = elim (round_of e) [
  | none ↦ (rounds, highest)
  | some rn ↦
      if is_start e
      then (set_open rn e rounds, some (elim highest [ none ↦ rn | some h ↦ max h rn ]))
      else if is_end e
      then (pop_open rn rounds, highest)
      else (rounds, highest)
]

unfoldable pub track_all : OpenRounds × Option ℕ → List Event → OpenRounds × Option ℕ
track_all s [] = s
track_all s (e ∷ es) = track_all (track s e) es

abbrev pub text_of : Option Value → Option String
text_of (some (str s)) = some s
text_of _ = none

-- `now` is in microseconds; the threshold is the budget times 1.5.
unfoldable pub overdue : ℕ → ℕ → Dict (Option ℕ) → ℕ → Event → Detected
overdue now budget overrides rn start = elim (lookup "ts" start) [
  | none ↦ crash
  | some ts ↦ elim (parse_iso_ms ts) [
    | none ↦ crash
    | some started ↦
        let elapsed = now - started * 1000 in
        let threshold = phase_timeout overrides (text_of (lookup "phase" start)) budget * 1500000 in
        if ltb threshold elapsed then warn hung (open_round rn elapsed threshold) else quiet
  ]
]

unfoldable pub detect_hung : List Event → ℕ → ℕ → Dict (Option ℕ) → Detected
detect_hung events now budget overrides =
    let (rounds, highest) = track_all ([], none) events in
    elim highest [
      | none ↦ quiet
      | some rn ↦ elim (open_of rn rounds) [
        | none ↦ quiet
        | some start ↦ overdue now budget overrides rn start
      ]
    ]

abbrev pub is_orphan : Event → Bool
is_orphan = is_kind "orphan_stashed"

abbrev pub same_round : Option ℕ → Option ℕ → Bool
same_round none none = true
same_round (some m) (some n) = m == n
same_round _ _ = false

-- `rn in orphan_rounds`.
unfoldable pub in_orphan_rounds : Option ℕ → List Event → Bool
in_orphan_rounds rn events = any (λ e. is_orphan e && same_round (round_of e) rn) events

-- A round's end that resets the streak.
abbrev pub clean_end : List Event → Event → Bool
clean_end events e = is_end e && not (in_orphan_rounds (round_of e) events)

unfoldable pub orphan_streak : List Event → ℕ × Option ℕ → List Event → ℕ × Option ℕ
orphan_streak events s [] = s
orphan_streak events (streak, last) (e ∷ es) =
    orphan_streak events
      (if is_orphan e
        then (streak + 1, round_of e)
        else if clean_end events e
        then (0, last)
        else (streak, last))
      es

unfoldable pub detect_orphan_chain : List Event → Detected
detect_orphan_chain events =
    let (streak, last) = orphan_streak events (0, none) events in
    if leb 3 streak then warn orphan_chain (orphans streak last) else quiet

-- `max(e["round_num"] for e in events if "round_num" in e)`.
unfoldable pub max_round : List Event → Option ℕ
max_round [] = none
max_round (e ∷ es) =
    let rest = max_round es in
    elim (round_of e) [ none ↦ rest | some n ↦ some (elim rest [ none ↦ n | some m ↦ max n m ]) ]

abbrev pub last_of {ℓ} : {A : Type ℓ} → A → List A → A
last_of x [] = x
last_of x (y ∷ ys) = last_of y ys

-- `e.get("round_num", 0) >= window_start`, with the window's five rounds.
abbrev pub recent_anomaly : ℕ → Event → Bool
recent_anomaly newest e =
    is_kind "anomaly_repetitive_tool" e
    && leb (newest + 1) (elim (round_of e) [ none ↦ 0 | some n ↦ n ] + 5)

unfoldable pub detect_anomaly_repetitive_active : List Event → Detected
detect_anomaly_repetitive_active events = elim (max_round events) [
  | none ↦ quiet
  | some newest ↦ elim (select (recent_anomaly newest) events) [
    | [] ↦ quiet
    | e ∷ es ↦
        let last = last_of e es in
        warn anomaly_repetitive_active
          (repeats (length (e ∷ es)) (lookup "tool_name" last) (lookup "target" last))
  ]
]
