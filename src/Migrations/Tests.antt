-- ===== src/Migrations/Tests.antt =====
-- Small configurations, and the theorems about their migration at them.
use cli_agent_runner.Prelude.{
  ◌++◌, Bool, List, String, [], any, codes, false, none, refl, some, true, ℕ, ◌∷◌, ◌≡◌, decimal,
  same_codes, strip, strip_left,
}
use cli_agent_runner.Migrations.{Line, Toml, Migration, literal}
use cli_agent_runner.Migrations.Lines.{split_lines, assigns, header_of, join_lines, match_assign}
use cli_agent_runner.Migrations.Edits.{
  rename_key, drop_lines, drop_marked, edit_marked, find_table_hits,
}
use cli_agent_runner.Migrations.Moves.{relocate_key, wrap_bare_string_list}
use cli_agent_runner.Migrations.Engine.{run_migrations, done}
use cli_agent_runner.Migrations.Dropped.{drop_lines-settled}
use cli_agent_runner.Migrations.Stamp.{stamped_lines, stamp_schema_version}

-- Lines that end in a line feed.
abbrev rows : List String → List ℕ
rows [] = []
rows (s ∷ ss) = codes s ++ 10 ∷ rows ss

-- A parser that reads every text, and of it only whether a line sets the old key.
abbrev key_toml : Toml Bool
key_toml = record {
  loads = λ t. some (any (assigns (codes "orphan_action")) (split_lines [] t));
  schema_version = λ p. none;
}

abbrev renaming : Migration Bool
renaming = record {
  detect = λ p. p;
  apply = some (rename_key (codes "orphan_action") (codes "dirty_action") (literal (codes "vcs")));
  describe = λ p. codes "renamed";
  advisory = false;
}

abbrev old_config : List ℕ
old_config = rows ("[agent]" ∷ "[vcs]" ∷ "orphan_action = 1" ∷ [])

new_config_is_written :
    run_migrations key_toml (renaming ∷ []) old_config true
    ≡ done (record {
      new_text = rows ("schema_version = 1" ∷ "[agent]" ∷ "[vcs]" ∷ "dirty_action = 1" ∷ []);
      applied = codes "renamed" ∷ codes "stamped schema_version = 1" ∷ [];
      manual = [];
      advisories = [];
    })
unfolding run_migrations same_codes rename_key join_lines split_lines codes header_of strip_left
    assigns strip stamp_schema_version decimal
new_config_is_written = refl

-- The setting is moved behind a comment that ends the file without a line feed, and is lost in it.
setting_lost_in_comment :
    relocate_key
      (codes "disk_warning_pct")
      (codes "warning_pct")
      (codes "host")
      (codes "host.disk")
      (rows ("[host]" ∷ "disk_warning_pct = 80" ∷ "[host.disk]" ∷ []) ++ codes "# note")
    ≡ rows ("[host]" ∷ "[host.disk]" ∷ "# notewarning_pct = 80" ∷ [])
unfolding codes relocate_key join_lines find_table_hits split_lines header_of strip_left assigns
    same_codes strip drop_marked
setting_lost_in_comment = refl

command_is_wrapped :
    wrap_bare_string_list
      (codes "command")
      (literal (codes "agent"))
      false
      (rows ("[agent]" ∷ "command = 'claude' # cli" ∷ []))
    ≡ rows ("[agent]" ∷ "command = ['claude'] # cli" ∷ [])
unfolding codes wrap_bare_string_list find_table_hits split_lines header_of strip_left match_assign
    same_codes strip join_lines edit_marked
command_is_wrapped = refl

abbrev hooks : List Line
hooks = codes "[runtime]" ∷ codes "disable_pre_round_hooks = true" ∷ codes "x = 1" ∷ []

abbrev hooks_key : Line
hooks_key = codes "disable_pre_round_hooks"

drop_lines-settled_example :
    drop_lines hooks_key
      (literal (codes "runtime"))
      (drop_lines hooks_key (literal (codes "runtime")) hooks)
    ≡ drop_lines hooks_key (literal (codes "runtime")) hooks
drop_lines-settled_example = drop_lines-settled hooks_key (literal (codes "runtime")) hooks

-- A quoted key is not seen: the stamp stands in the file beside it, and no TOML parser reads the two.
quoted_version_is_doubled :
    stamped_lines (codes "\"schema_version\" = 0" ∷ [])
    ≡ (codes "schema_version = 1" ++ 10 ∷ []) ∷ codes "\"schema_version\" = 0" ∷ []
unfolding stamped_lines codes header_of strip_left assigns match_assign decimal
quoted_version_is_doubled = refl

-- A line separator in the comment behind the version: to TOML it is part of the comment, but it ends the
-- line here, and the stamp takes it away with the comment.
comment_tail_is_freed :
    join_lines (
      stamped_lines
        (split_lines [] (codes "schema_version = 0 # a" ++ 8232 ∷ (codes "b" ++ 10 ∷ []))))
    ≡ codes "schema_version = 1b" ++ 10 ∷ []
unfolding join_lines stamped_lines split_lines codes header_of strip_left assigns match_assign
    decimal
comment_tail_is_freed = refl
