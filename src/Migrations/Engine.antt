-- ===== src/Migrations/Engine.antt =====
-- `_run_migrations_pass` and `run_migrations` of agent_runner/migrations.py.
use cli_agent_runner.Prelude.{
  ◌++◌, List, [], codes, if◌then◌else◌, none, not, same_codes, some, suc, zero, ℕ, ◌∷◌,
}
use cli_agent_runner.Migrations.{Toml, Migration, MigrationResult}
use cli_agent_runner.Migrations.Stamp.{stamp_schema_version}

-- What a run comes to: a result, the RuntimeError of a run that does not converge, or a TOMLDecodeError.
pub data Run : Type 0 where
  done : MigrationResult → Run
  not_converged undecodable : Run

abbrev pub max_migration_passes : ℕ
max_migration_passes = 12

abbrev pub collision : List ℕ
collision = codes " (target key already present — remove the deprecated key manually)"

abbrev pub stamp_report : List ℕ
stamp_report = codes "stamped schema_version = 1"

abbrev pub by_hand : List ℕ → MigrationResult → MigrationResult
by_hand desc r = record r { manual = r.manual ++ desc ∷ [] }

module _ {ℓ} {P : Type ℓ} (toml : Toml P) where
  -- A rewrite that changes nothing, or that the parser refuses, is left to the operator.
  unfoldable pub try_rewrite : List ℕ → List ℕ → MigrationResult → MigrationResult
  try_rewrite desc rewritten r =
      if same_codes rewritten r.new_text then by_hand desc r else elim (toml.loads rewritten) [
        | none ↦ by_hand (desc ++ collision) r
        | some p ↦ record r { new_text = rewritten; applied = r.applied ++ desc ∷ [] }
      ]

  unfoldable pub migrate_one : P → MigrationResult → Migration P → MigrationResult
  unfolding try_rewrite
  migrate_one parsed r m =
      let desc = m.describe parsed in
      if not (m.detect parsed)
      then r
      else if m.advisory
      then record r { advisories = r.advisories ++ desc ∷ [] }
      else elim m.apply [ none ↦ by_hand desc r | some f ↦ try_rewrite desc (f r.new_text) r ]

  unfoldable pub migrate_all : P → MigrationResult → List (Migration P) → MigrationResult
  unfolding migrate_one
  migrate_all parsed r [] = r
  migrate_all parsed r (m ∷ ms) = migrate_all parsed (migrate_one parsed r m) ms

  unfoldable pub run_migrations_pass : List (Migration P) → List ℕ → P → MigrationResult
  unfolding migrate_all
  run_migrations_pass registry text parsed =
      let fresh : MigrationResult = record {
        new_text = text;
        applied = [];
        manual = [];
        advisories = [];
      } in
      migrate_all parsed fresh registry

  abbrev pub finish : List ℕ → P → List (List ℕ) → MigrationResult → MigrationResult
  finish text parsed applied r =
      let (stamped, fresh) = stamp_schema_version toml text parsed in
      record {
        new_text = stamped;
        applied = if fresh then applied ++ stamp_report ∷ [] else applied;
        manual = r.manual;
        advisories = r.advisories;
      }

  -- On the passes that are left.
  unfoldable pub run_passes : ℕ → List (Migration P) → List ℕ → P → List (List ℕ) → Run
  unfolding run_migrations_pass
  run_passes zero registry text parsed applied = not_converged
  run_passes (suc n) registry text parsed applied =
      let r = run_migrations_pass registry text parsed in
      if same_codes r.new_text text
      then done (finish text parsed (applied ++ r.applied) r)
      else elim (toml.loads r.new_text) [
        | none ↦ undecodable
        | some p ↦ run_passes n registry r.new_text p (applied ++ r.applied)
      ]

  unfoldable pub run_migrations : List (Migration P) → List ℕ → P → Run
  unfolding run_passes
  run_migrations registry text parsed = run_passes max_migration_passes registry text parsed []
