-- ===== src/Migrations/Settled.antt =====
-- `run_migrations` of agent_runner/migrations.py ends on a text at which the detectors have nothing left to
-- rewrite.
use cli_agent_runner.Prelude.{is_some, ◌≡◌, some, true, List, ℕ}
use cli_agent_runner.Migrations.{Toml, Migration, MigrationResult}
use cli_agent_runner.Migrations.Stamp.{stamp_schema_version}
use cli_agent_runner.Migrations.Engine.{Run, done, not_converged, run_migrations_pass}

module _ {ℓ} {P : Type ℓ} (toml : Toml P) (registry : List (Migration P)) where
  -- A text that the parser reads, from which a pass has nothing to rewrite, and the result made of it.
  pub record Settled (r : MigrationResult) : Type ℓ where
    pub last_text : List ℕ
    pub last_parsed : P
    pub reads : toml.loads last_text ≡ some last_parsed
    pub rests : (run_migrations_pass toml registry last_text last_parsed).new_text ≡ last_text
    pub text_eq : r.new_text ≡ (stamp_schema_version toml last_text last_parsed).0
    pub manual_eq : r.manual ≡ (run_migrations_pass toml registry last_text last_parsed).manual

  -- What a run may come to.
  pub data Ends : Run → Type ℓ where
    settles : (r : MigrationResult) → Settled r → Ends (done r)
    gives_up : Ends not_converged

  abbrev Readable : List ℕ → Type 0
  Readable t = is_some (toml.loads t) ≡ true
