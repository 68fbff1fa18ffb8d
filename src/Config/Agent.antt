-- ===== src/Config/Agent.antt =====
-- `_parse_agent` of agent_runner/config/parsers.py.
use cli_agent_runner.Prelude.{
  ◌&&◌, Bool, List, Option, String, [], any, codes, is_empty, is_within, lookup, map, not, pos,
  some, str_eq, ◌∷◌,
}
use cli_agent_runner.Config.{AgentSection}
use cli_agent_runner.Config.Values.{TomlTable, text, whole, array, nil, get_or, str_of}
use cli_agent_runner.Config.Validators.{
  ◌>>=◌, guard, names, reject_unknown_fields, require_table, require_str_list,
  validate_sigterm_grace_s,
}

abbrev pub valid_prompt_delivery : List String
valid_prompt_delivery = "argv" ∷ "stdin" ∷ []

abbrev pub agent_fields : List String
agent_fields =
    "command" ∷ "prompt_arg_template" ∷ "name" ∷ "env" ∷ "prompt_delivery" ∷ "exec_prefix"
    ∷ "terminal_marker" ∷ "sigterm_grace_s" ∷ []

-- `"{prompt}" in a`.
unfoldable pub has_prompt : String → Bool
unfolding is_within codes
has_prompt a = is_within (codes "{prompt}") (codes a)

abbrev pub default_terminal_marker : String
default_terminal_marker = "\"type\":\"result\""

unfoldable pub parse_agent : Bool → TomlTable → Option AgentSection
unfolding get_or str_of
parse_agent require_prompt_placeholder d = do
  _ ← reject_unknown_fields d agent_fields
  let delivery : String = str_of (get_or "prompt_delivery" (text "argv") d)
  p ← lookup "prompt_arg_template" d
  template ← require_str_list p
  _ ← guard (names delivery valid_prompt_delivery)
  _ ← guard (not (str_eq delivery "stdin" && any has_prompt template))
  _ ←
      guard (
        not (str_eq delivery "argv" && require_prompt_placeholder && not (any has_prompt template)))
  c ← lookup "command" d
  argv ← require_str_list c
  _ ← guard (not (is_empty argv))
  env_d ← require_table d "env"
  prefix ← require_str_list (get_or "exec_prefix" (array "[]" nil) d)
  grace ← validate_sigterm_grace_s (get_or "sigterm_grace_s" (whole (pos 10)) d)
  some (record {
    command = argv;
    prompt_arg_template = template;
    agent_name = lookup "name" d;
    env = map (λ e. (e.0, str_of e.1)) env_d;
    prompt_delivery = delivery;
    exec_prefix = prefix;
    terminal_marker = str_of (get_or "terminal_marker" (text default_terminal_marker) d);
    sigterm_grace_s = grace;
  })
