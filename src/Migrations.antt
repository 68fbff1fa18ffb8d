-- ===== src/Migrations.antt =====
-- agent_runner/migrations.py: the rewriting of a configuration file, line by line, until no detector of a
-- removed key has anything left to rewrite.
--
-- Texts are their code points. The TOML parser is the standard library's and a parameter, with the reading
-- of the version in what it parses; a compiled table pattern is its test. The registry of migrations is a
-- parameter, too: its detectors read the parsed file, and its rewrites are those of Edits.
pub mod Lines
pub mod Edits
pub mod Moves
pub mod Stamp
pub mod Engine
pub mod Dropped
pub mod Settled
mod Tests
use cli_agent_runner.Prelude.{ℕ, Bool, Option, List, ℤ}

abbrev pub Line : Type 0
Line = List ℕ

-- A table by its name, or by a compiled pattern.
pub data TableSpec : Type 0 where
  literal : (name : Line) → TableSpec
  matching : (fullmatch : Line → Bool) → TableSpec

-- `tomllib.loads`, which is `none` on a TOMLDecodeError, and the integer under `schema_version` in what it
-- gives.
pub record Toml {ℓ} (P : Type ℓ) : Type ℓ where
  pub loads : List ℕ → Option P
  pub schema_version : P → Option ℤ

pub record Migration {ℓ} (P : Type ℓ) : Type ℓ where
  pub detect : P → Bool
  pub apply : Option (List ℕ → List ℕ)
  pub describe : P → List ℕ
  pub advisory : Bool

pub record MigrationResult : Type 0 where
  pub new_text : List ℕ
  pub applied : List (List ℕ)
  pub manual : List (List ℕ)
  pub advisories : List (List ℕ)
