-- ===== src/Config/Phases.antt =====
-- `_parse_phase_overrides` of agent_runner/config/parsers.py.
use cli_agent_runner.ServeRound.{resolve}
use cli_agent_runner.Prelude.{
  ◌&&◌, Bool, Dict, List, Option, String, [], if◌then◌else◌, false, insert, is_some, lookup, map,
  none, not, some, true, ℕ, ◌∷◌,
}
use cli_agent_runner.Schedule.{Window}
use cli_agent_runner.Config.{AgentSection, PhaseSection}
use cli_agent_runner.Config.Values.{TomlValue, TomlTable, table, entries_of}
use cli_agent_runner.Config.Validators.{
  ◌>>=◌, guard, names, reject_unknown_fields, require_table, require_positive_int, require_str_list,
}
use cli_agent_runner.Config.Tables.{parse_schedule}
use cli_agent_runner.Config.Agent.{parse_agent}

-- A nested field, or else its flat alias.
abbrev pub budget_of : Option TomlValue → Option TomlValue → Option (Option ℕ)
budget_of none none = some none
budget_of none (some v) = require_positive_int v >>= (λ n. some (some n))
budget_of (some v) flat = require_positive_int v >>= (λ n. some (some n))

abbrev pub files_in : (String → String) → TomlTable → Option (Option (List String))
files_in resolve d = do
  v ← lookup "files" d
  _ ← reject_unknown_fields d ("files" ∷ [])
  l ← require_str_list v
  some (some (map resolve l))

abbrev pub phase_files : (String → String) → Option TomlValue → Option (Option (List String))
phase_files resolve none = some none
phase_files resolve (some (table r es)) = files_in resolve (entries_of es)
phase_files resolve (some v) = none

-- `{**agent_d, **agent_sub}`.
unfoldable pub merged : TomlTable → TomlTable → TomlTable
merged d [] = d
merged d ((key, v) ∷ sub) = merged (insert key v d) sub

-- A phase without files needs no place for the prompt.
abbrev pub needs_prompt : Option (List String) → Bool
needs_prompt (some []) = false
needs_prompt _ = true

abbrev pub phase_agent : TomlTable → Bool → Option TomlValue → Option (Option AgentSection)
phase_agent agent_d needed none = some none
phase_agent agent_d needed (some (table r es)) = do
  _ ← guard (not (is_some (lookup "exec_prefix" (entries_of es))))
  a ← parse_agent needed (merged agent_d (entries_of es))
  some (some a)
phase_agent agent_d needed (some v) = none

abbrev pub phase_schedule :
    (String → Bool) → Option TomlValue → Option (Option (Option String × List Window × List Window))
phase_schedule valid none = some none
phase_schedule valid (some (table r es)) =
    parse_schedule valid (entries_of es) >>= (λ s. some (some s))
phase_schedule valid (some v) = none

module _ (resolve : String → String) (valid : String → Bool) (agent_d : TomlTable) where
  unfoldable pub parse_phase : TomlTable → Option PhaseSection
  unfolding entries_of merged
  parse_phase d = do
    _ ←
        reject_unknown_fields d
          ("round_budget_s" ∷ "prompt" ∷ "agent" ∷ "runtime" ∷ "schedule" ∷ [])
    runtime_sub ← require_table d "runtime"
    _ ← reject_unknown_fields runtime_sub ("round_budget_s" ∷ [])
    _ ←
        guard (
          not
            (is_some (lookup "round_budget_s" d) && is_some (lookup "round_budget_s" runtime_sub)))
    budget ← budget_of (lookup "round_budget_s" runtime_sub) (lookup "round_budget_s" d)
    fs ← phase_files resolve (lookup "prompt" d)
    a ← phase_agent agent_d (needs_prompt fs) (lookup "agent" d)
    ws ← phase_schedule valid (lookup "schedule" d)
    some (record { round_budget_s = budget; prompt_files = fs; agent = a; windows = ws })

  abbrev pub reserved : String → Bool
  reserved key = names key ("list" ∷ "phase_policy" ∷ [])

  -- The phase must be listed.
  abbrev pub parse_phase_entry : List String → String → TomlValue → Option PhaseSection
  parse_phase_entry phases_list key (table r es) = do
    _ ← guard (names key phases_list)
    parse_phase (entries_of es)
  parse_phase_entry phases_list key v = none

  -- `phases_list` is empty where the file has none.
  unfoldable pub parse_phase_overrides : List String → TomlTable → Option (Dict PhaseSection)
  unfolding parse_phase entries_of
  parse_phase_overrides phases_list [] = some []
  parse_phase_overrides phases_list ((key, v) ∷ d) =
      let rest = parse_phase_overrides phases_list d in
      if reserved key
      then rest
      else do o ← parse_phase_entry phases_list key v; os ← rest; some ((key, o) ∷ os)
