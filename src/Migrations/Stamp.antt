-- ===== src/Migrations/Stamp.antt =====
-- `_stamp_schema_version` of agent_runner/migrations.py.
use cli_agent_runner.Prelude.{
  ◌++◌, ◌==◌, Bool, List, Option, [], codes, decimal, if◌then◌else◌, false, is_some, leb, none, pos,
  some, true, ℕ, ℤ, ◌∷◌,
}
use cli_agent_runner.Migrations.{Line, Toml}
use cli_agent_runner.Migrations.Lines.{join_lines, split_lines, header_of, match_assign, assigns}

-- `_CURRENT_SCHEMA_VERSION`.
abbrev pub current_schema_version : ℕ
current_schema_version = 1

abbrev pub version_key : Line
version_key = codes "schema_version"

abbrev pub stamp : Line
stamp = codes "schema_version = " ++ codes (decimal (pos current_schema_version))

-- What `.*` leaves of a line: its line feed.
unfoldable pub from_line_feed : Line → Line
from_line_feed [] = []
from_line_feed (c ∷ cs) = let rest = from_line_feed cs in if c == 10 then c ∷ cs else rest

unfoldable pub restamp : Line → Line
unfolding from_line_feed
restamp line = elim (match_assign version_key line) [
  | none ↦ line
  | some (indent, tail) ↦ indent ++ (stamp ++ from_line_feed tail)
]

-- The first assignment of the version above every table header is replaced.
unfoldable pub restamp_lines : List Line → Option (List Line)
unfolding restamp
restamp_lines [] = none
restamp_lines (l ∷ ls) =
    let rest = restamp_lines ls in
    if is_some (header_of l)
    then none
    else if assigns version_key l
    then some (restamp l ∷ ls)
    else elim rest [ none ↦ none | some ls' ↦ some (l ∷ ls') ]

unfoldable pub stamped_lines : List Line → List Line
unfolding restamp_lines
stamped_lines ls = elim (restamp_lines ls) [ none ↦ (stamp ++ 10 ∷ []) ∷ ls | some ls' ↦ ls' ]

abbrev pub is_current : Option ℤ → Bool
is_current (some (pos n)) = leb current_schema_version n
is_current _ = false

-- The text, and whether it was stamped.
unfoldable pub stamp_schema_version {ℓ} : {P : Type ℓ} → Toml P → List ℕ → P → List ℕ × Bool
unfolding stamped_lines
stamp_schema_version toml text parsed =
    if is_current (toml.schema_version parsed)
    then (text, false)
    else (join_lines (stamped_lines (split_lines [] text)), true)
