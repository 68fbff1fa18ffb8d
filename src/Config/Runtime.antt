-- ===== src/Config/Runtime.antt =====
-- `_parse_runtime` and `_parse_prompt` of agent_runner/config/parsers.py.
--
-- `printable` is `str.isprintable`, `resolve` is `_expand_and_resolve`, `compiles` whether `re.compile` takes
-- a text.
use cli_agent_runner.ServeRound.{resolve}
use cli_agent_runner.Prelude.{
  ◌&&◌, Bool, List, Option, String, [], if◌then◌else◌, false, is_empty, is_some, lookup, map, none,
  not, pos, some, true, ◌||◌, ℕ, ◌∷◌,
}
use cli_agent_runner.Config.{RuntimeSection, PromptSection}
use cli_agent_runner.Config.Values.{
  TomlValue, TomlTable, text, whole, flag, array, nil, get_or, str_of, items_of,
}
use cli_agent_runner.Config.Validators.{
  ◌>>=◌, guard, names, reject_unknown_fields, require_positive_int, require_non_negative_int,
  require_bool, require_str_list, validate_regex_list,
}

abbrev pub runtime_fields : List String
runtime_fields =
    "work_dir" ∷ "log_dir" ∷ "round_budget_s" ∷ "restart_delay_s" ∷ "round_log_retention"
    ∷ "narrative_file" ∷ "transient_error_action" ∷ "max_rounds" ∷ "stop_file"
    ∷ "substrate_fingerprint_paths" ∷ "fresh_eyes_every_n" ∷ "dry_run" ∷ "max_grace_after_result_s"
    ∷ "grace_kill_ignore_patterns" ∷ []

abbrev pub valid_transient_error_actions : List String
valid_transient_error_actions = "back_off" ∷ "skip" ∷ "stop" ∷ []

abbrev pub valid_injection_modes : List String
valid_injection_modes = "prepend" ∷ "file" ∷ "none" ∷ []

-- An integer that is positive where it is given.
abbrev pub positive_if_given : Option TomlValue → Option (Option ℕ)
positive_if_given none = some none
positive_if_given (some v) = require_positive_int v >>= (λ n. some (some n))

abbrev pub path_if_given : (String → String) → Option TomlValue → Option String
path_if_given resolve none = none
path_if_given resolve (some v) = some (resolve (str_of v))

abbrev pub paths_of : TomlValue → Option (List String)
paths_of (array r vs) = some (map str_of (items_of vs))
paths_of _ = none

unfoldable pub parse_runtime :
    (String → Bool) → (String → String) → (String → Bool) → TomlTable → Option RuntimeSection
unfolding get_or str_of items_of
parse_runtime printable resolve compiles d = do
  _ ← guard (not (is_some (lookup "round_timeout_per_phase" d)))
  _ ← guard (not (is_some (lookup "rate_limit_action" d)))
  _ ← reject_unknown_fields d runtime_fields
  let action : String = str_of (get_or "transient_error_action" (text "back_off") d)
  _ ← guard (names action valid_transient_error_actions)
  raw_log_dir ← lookup "log_dir" d
  _ ← guard (printable (str_of raw_log_dir))
  _ ← guard (printable (resolve (str_of raw_log_dir)))
  budget ← require_positive_int (get_or "round_budget_s" (whole (pos 1800)) d)
  restart ← require_positive_int (get_or "restart_delay_s" (whole (pos 3)) d)
  retention ← require_non_negative_int (get_or "round_log_retention" (whole (pos 0)) d)
  rounds ← positive_if_given (lookup "max_rounds" d)
  globs ← paths_of (get_or "substrate_fingerprint_paths" (array "[]" nil) d)
  fresh ← positive_if_given (lookup "fresh_eyes_every_n" d)
  dry ← require_bool (get_or "dry_run" (flag false) d)
  grace ← require_non_negative_int (get_or "max_grace_after_result_s" (whole (pos 0)) d)
  patterns ← validate_regex_list compiles (get_or "grace_kill_ignore_patterns" (array "[]" nil) d)
  some (record {
    log_dir = resolve (str_of raw_log_dir);
    round_budget_s = budget;
    restart_delay_s = restart;
    round_log_retention = retention;
    narrative_file = path_if_given resolve (lookup "narrative_file" d);
    transient_error_action = action;
    max_rounds = rounds;
    stop_file = path_if_given resolve (lookup "stop_file" d);
    substrate_fingerprint_paths = globs;
    fresh_eyes_every_n = fresh;
    dry_run = dry;
    max_grace_after_result_s = grace;
    grace_kill_ignore_patterns = patterns;
  })

-- A list of files that is given is not empty.
abbrev pub files_of : (String → String) → Option TomlValue → Option (List String)
files_of resolve none = some []
files_of resolve (some v) =
    require_str_list v >>= (λ l. if is_empty l then none else some (map resolve l))

abbrev pub mode_of : TomlValue → Option String
mode_of (text s) = if names s valid_injection_modes then some s else none
mode_of _ = none

unfoldable pub parse_prompt : (String → String) → TomlTable → Option PromptSection
unfolding get_or str_of
parse_prompt resolve d = do
  _ ← reject_unknown_fields d (
      "file" ∷ "files" ∷ "inject_context" ∷ "context_injection_mode" ∷ "concat_separator"
      ∷ "strip_yaml_frontmatter" ∷ [])
  mode ← mode_of (get_or "context_injection_mode" (text "prepend") d)
  _ ← guard (not (is_some (lookup "file" d) && is_some (lookup "files" d)))
  _ ← guard (is_some (lookup "file" d) || is_some (lookup "files" d))
  fs ← files_of resolve (lookup "files" d)
  inject ← require_bool (get_or "inject_context" (flag true) d)
  frontmatter ← require_bool (get_or "strip_yaml_frontmatter" (flag true) d)
  some (record {
    file = path_if_given resolve (lookup "file" d);
    files = fs;
    inject_context = inject;
    context_injection_mode = mode;
    concat_separator = str_of (get_or "concat_separator" (text "\n\n") d);
    strip_yaml_frontmatter = frontmatter;
  })
