-- ===== src/Monitor/Hanging.antt =====
-- `detect_hung` of agent_runner/_monitor_detectors.py against a description that keeps no dict: the
-- round with the highest number that ever started, and the last start or end of that round.
use cli_agent_runner.RoundOutcome.{start}
use cli_agent_runner.Event.Fields.{round_of}
use cli_agent_runner.Monitor.Rounds.{
  OpenRounds, detect_hung, is_end, is_start, open_of, overdue, pop_open, set_open, track, track_all,
  same_round,
}
use cli_agent_runner.Event.{Event}
use cli_agent_runner.Prelude.{
  ◌==◌, Dict, List, Option, Option-cases, [], ap, arith, if◌then◌else◌, inl, inr, max, none, refl,
  some, ℕ, ◌∙◌, ◌∷◌, ◌≡◌,
}
use cli_agent_runner.Monitor.{quiet}

-- The last start of the round, where no end of it follows.
abbrev pub mark : ℕ → Option Event → Event → Option Event
mark rn acc e =
    if same_round (round_of e) (some rn)
    then (if is_start e then some e else if is_end e then none else acc)
    else acc

abbrev pub last_start : ℕ → Option Event → List Event → Option Event
last_start rn acc [] = acc
last_start rn acc (e ∷ es) = last_start rn (mark rn acc e) es

abbrev pub higher : Option ℕ → Event → Option ℕ
higher acc e = elim (round_of e) [
  | none ↦ acc
  | some n ↦ if is_start e then some (elim acc [ none ↦ n | some h ↦ max h n ]) else acc
]

abbrev pub highest_started : Option ℕ → List Event → Option ℕ
highest_started acc [] = acc
highest_started acc (e ∷ es) = highest_started (higher acc e) es

open_of-set_open :
    (rn n : ℕ) (e : Event) (rounds : OpenRounds)
    → open_of rn (set_open n e rounds) ≡ (if n == rn then some e else open_of rn rounds)
unfolding open_of set_open
open_of-set_open rn n e [] = refl
open_of-set_open rn n e ((m, f) ∷ rounds) = ground (arith, open_of-set_open rn n e rounds)

open_of-pop_open :
    (rn n : ℕ) (rounds : OpenRounds)
    → open_of rn (pop_open n rounds) ≡ (if n == rn then none else open_of rn rounds)
unfolding open_of pop_open
open_of-pop_open rn n [] = ground arith
open_of-pop_open rn n ((m, f) ∷ rounds) = ground (arith, open_of-pop_open rn n rounds)

open_of-track :
    (rn : ℕ) (s : OpenRounds × Option ℕ) (e : Event)
    → open_of rn (track s e).0 ≡ mark rn (open_of rn s.0) e
unfolding track
open_of-track rn (rounds, h) e = elim (Option-cases (round_of e)) [
  | inl q ↦ ground (arith, q)
  | inr (n, q) ↦ ground (arith, q, open_of-set_open rn n e rounds, open_of-pop_open rn n rounds)
]

highest-track : (s : OpenRounds × Option ℕ) (e : Event) → (track s e).1 ≡ higher s.1 e
unfolding track
highest-track (rounds, h) e = ground arith

open_of-track_all :
    (rn : ℕ) (es : List Event) (s : OpenRounds × Option ℕ)
    → open_of rn (track_all s es).0 ≡ last_start rn (open_of rn s.0) es
unfolding track_all
open_of-track_all rn [] s = refl
open_of-track_all rn (e ∷ es) s =
    open_of-track_all rn es (track s e) ∙ ap (λ o. last_start rn o es) (open_of-track rn s e)

highest-track_all :
    (es : List Event) (s : OpenRounds × Option ℕ) → (track_all s es).1 ≡ highest_started s.1 es
unfolding track_all
highest-track_all [] s = refl
highest-track_all (e ∷ es) s =
    highest-track_all es (track s e) ∙ ap (λ o. highest_started o es) (highest-track s e)

-- The detector is the one that asks only for the highest round that ever started: it speaks of that
-- round exactly where its last start has no end after it and is overdue.
pub detect_hung-last_start :
    (events : List Event) (now budget : ℕ) (overrides : Dict (Option ℕ))
    → detect_hung events now budget overrides ≡ elim (highest_started none events) [
      | none ↦ quiet
      | some rn ↦ elim (last_start rn none events) [
        | none ↦ quiet
        | some start ↦ overdue now budget overrides rn start
      ]
    ]
unfolding detect_hung open_of
detect_hung-last_start events now budget overrides =
    elim (Option-cases (highest_started none events)) [
      | inl q ↦ ground (arith, highest-track_all events ([], none), q)
      | inr (rn, q) ↦
          ground
            (arith, highest-track_all events ([], none), q, open_of-track_all rn events ([], none))
    ]
