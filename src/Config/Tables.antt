-- ===== src/Config/Tables.antt =====
-- The smaller tables of agent_runner/config/parsers.py: [vcs], [plugins], [schedule] and a goal check.
use cli_agent_runner.ServeRound.{resolve}
use cli_agent_runner.Prelude.{
  Bool, List, Option, String, [], if◌then◌else◌, is_empty, is_some, lookup, none, not, pos, some, ℕ,
  ◌∷◌,
}
use cli_agent_runner.Schedule.{Window}
use cli_agent_runner.Schedule.Parse.{parse_window}
use cli_agent_runner.Config.{VcsSection, GoalCheck}
use cli_agent_runner.Config.Values.{
  TomlValue, TomlTable, text, whole, array, get_or, str_of, items_of, table, entries_of,
}
use cli_agent_runner.Config.Validators.{
  ◌>>=◌, guard, names, reject_unknown_fields, require_positive_int, require_str_list, at_most,
}

abbrev pub valid_dirty_actions : List String
valid_dirty_actions = "stash" ∷ "ignore" ∷ "auto_commit" ∷ []

unfoldable pub parse_vcs : TomlTable → Option VcsSection
unfolding get_or str_of
parse_vcs d = do
  _ ← guard (not (is_some (lookup "orphan_action" d)))
  _ ← reject_unknown_fields d ("stash_idempotency_s" ∷ "dirty_action" ∷ [])
  _ ← guard (names (str_of (get_or "dirty_action" (text "stash") d)) valid_dirty_actions)
  s ← require_positive_int (get_or "stash_idempotency_s" (whole (pos 5)) d)
  some (record {
    stash_idempotency_s = s;
    dirty_action = str_of (get_or "dirty_action" (text "stash") d);
  })

unfoldable pub parse_plugins : TomlTable → Option (List String)
parse_plugins d = do
  _ ← reject_unknown_fields d ("disable" ∷ [])
  elim (lookup "disable" d) [ none ↦ some [] | some v ↦ require_str_list v ]

unfoldable pub windows_of : List TomlValue → Option (List Window)
unfolding str_of
windows_of [] = some []
windows_of (v ∷ vs) = do w ← parse_window (str_of v); ws ← windows_of vs; some (w ∷ ws)

unfoldable pub parse_list : String → TomlTable → Option (List Window)
unfolding windows_of items_of
parse_list key d = elim (lookup key d) [
  | none ↦ some []
  | some (array r vs) ↦ windows_of (items_of vs)
  | some v ↦ none
]

-- The zone, as a text.
abbrev pub timezone_of : (String → Bool) → Option TomlValue → Option (Option String)
timezone_of valid none = some none
timezone_of valid (some v) = if valid (str_of v) then some (some (str_of v)) else none

-- `valid_timezone` asks zoneinfo and is a parameter.
unfoldable pub parse_schedule :
    (String → Bool) → TomlTable → Option (Option String × List Window × List Window)
unfolding parse_list
parse_schedule valid d = do
  _ ← reject_unknown_fields d ("timezone" ∷ "run_windows" ∷ "pause_windows" ∷ [])
  tz ← timezone_of valid (lookup "timezone" d)
  run ← parse_list "run_windows" d
  pause ← parse_list "pause_windows" d
  some (tz, run, pause)

abbrev pub max_goal_check_timeout_s : ℕ
max_goal_check_timeout_s = 30

unfoldable pub parse_goal_check : TomlValue → Option GoalCheck
unfolding get_or str_of entries_of
parse_goal_check (table r es) = do
  let d = entries_of es
  _ ← reject_unknown_fields d ("name" ∷ "cmd" ∷ "cwd" ∷ "timeout_s" ∷ [])
  n ← lookup "name" d
  c ← lookup "cmd" d
  command ← require_str_list c
  _ ← guard (not (is_empty command))
  t ← require_positive_int (get_or "timeout_s" (whole (pos 10)) d)
  seconds ← at_most max_goal_check_timeout_s t
  some (record {
    name = str_of n;
    cmd = command;
    cwd = elim (lookup "cwd" d) [ none ↦ none | some v ↦ some (str_of v) ];
    timeout_s = seconds;
  })
parse_goal_check _ = none

unfoldable pub goal_checks : List TomlValue → Option (List GoalCheck)
unfolding parse_goal_check
goal_checks [] = some []
goal_checks (v ∷ vs) = do c ← parse_goal_check v; cs ← goal_checks vs; some (c ∷ cs)

abbrev pub checks_of : Option TomlValue → Option (List GoalCheck)
checks_of none = some []
checks_of (some (array r vs)) = goal_checks (items_of vs)
checks_of (some v) = none

-- The checks, and the path of the ledger; `resolve` is `_expand_and_resolve`.
unfoldable pub parse_goal : (String → String) → TomlTable → Option (List GoalCheck × String)
unfolding goal_checks str_of items_of
parse_goal resolve d = do
  _ ← reject_unknown_fields d ("ledger" ∷ "checks" ∷ [])
  cs ← checks_of (lookup "checks" d)
  l ← lookup "ledger" d
  some (cs, resolve (str_of l))
