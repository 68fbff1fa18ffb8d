-- ===== src/Throttle/Window.antt =====
-- `mem_loop_events_in_window` of agent_runner/_throttle.py. `none` is the exception of a stamp that
-- does not parse.
use cli_agent_runner.Clock.{ticks}
use cli_agent_runner.Event.Time.{parse_iso_ms, unix_epoch_ms}
use cli_agent_runner.Throttle.Scan.{Log, tail_events}
use cli_agent_runner.Event.{Event, Value, is_kind, truthy}
use cli_agent_runner.Prelude.{
  ◌*◌, ◌+◌, Bool, List, Option, [], if◌then◌else◌, false, leb, lookup, none, some, true, ℕ, ◌∷◌,
}

-- `parse_iso_ms(ts).timestamp() >= now - window_s`, in ticks.
unfoldable pub stamped_since : ℕ → ℕ → ℕ → Bool
stamped_since ms now window_s =
    leb (now * 1000 + unix_epoch_ms * ticks) (ms * ticks + window_s * ticks * 1000)

unfoldable pub in_window : Option Value → ℕ → ℕ → Option Bool
unfolding stamped_since
in_window none now window_s = some false
in_window (some ts) now window_s =
    if truthy (some ts)
    then elim (parse_iso_ms ts) [ none ↦ none | some ms ↦ some (stamped_since ms now window_s) ]
    else some false

-- The loop over the events tail.
unfoldable pub mem_loops_from : ℕ → ℕ → ℕ → List Event → Option ℕ
mem_loops_from now window_s count [] = some count
mem_loops_from now window_s count (ev ∷ evs) = elim (is_kind "mem_loop" ev) [
  | false ↦ mem_loops_from now window_s count evs
  | true ↦ elim (in_window (lookup "ts" ev) now window_s) [
    | none ↦ none
    | some b ↦ mem_loops_from now window_s (if b then count + 1 else count) evs
  ]
]

unfoldable pub mem_loop_events_in_window : Log → ℕ → ℕ → Option ℕ
unfolding mem_loops_from in_window
mem_loop_events_in_window log now window_s = mem_loops_from now window_s 0 (tail_events log)
