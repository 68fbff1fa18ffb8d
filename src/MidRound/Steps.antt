-- ===== src/MidRound/Steps.antt =====
-- The passes of the loop of `_spawn_round`, case by case.
use cli_agent_runner.MidRound.Watching.{after_loop, check, spawn_round, tick}
use cli_agent_runner.MidRound.{Ending, Loop, Tick, Watch, terminate_round, timeout}
use cli_agent_runner.Prelude.{
  ◌&&◌, ◌++◌, Bool, List, [], arith, false, leb, none, not, some, true, ◌∷◌, ◌≡◌, ◌⊎◌,
}

-- A pass that samples the memory.
abbrev pub is_check : Watch → Tick → Loop → Bool
is_check w t s = elim t.wake [
  | timeout ↦ not (leb w.deadline t.at_deadline) && leb s.next_mem_check t.at_check
  | _ ↦ false
]

pub tick_checks :
    (w : Watch) (t : Tick) (s : Loop) → is_check w t s ≡ true → tick w t s ≡ check w t s
unfolding tick
tick_checks w t s h = ground arith

-- A pass that does not sample keeps the state, and at most kills the round.
pub tick_quiet :
    (w : Watch) (t : Tick) (s : Loop)
    → is_check w t s ≡ false
    → ((tick w t s).state ≡ s)
      × (((tick w t s).effects ≡ []) ⊎ ((tick w t s).effects ≡ terminate_round ∷ []))
unfolding tick
tick_quiet w t s h = (ground arith, ground arith)

pub spawn_going :
    (w : Watch) (restored : Bool) (t : Tick) (ts : List Tick) (s : Loop)
    → (tick w t s).ending ≡ none
    → let rest = spawn_round w restored ts (tick w t s).state in
      let all = spawn_round w restored (t ∷ ts) s in
      (all.effects ≡ (tick w t s).effects ++ rest.effects) × (all.ending ≡ rest.ending)
unfolding spawn_round
spawn_going w restored t ts s h = (ground arith, ground arith)

pub spawn_over :
    (w : Watch) (restored : Bool) (t : Tick) (ts : List Tick) (s : Loop) (e : Ending)
    → (tick w t s).ending ≡ some e
    → let all = spawn_round w restored (t ∷ ts) s in
      (all.effects ≡ (tick w t s).effects ++ after_loop restored (tick w t s).state e)
      × (all.ending ≡ some e)
unfolding spawn_round
spawn_over w restored t ts s e h = (ground arith, ground arith)
