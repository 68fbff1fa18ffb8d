-- ===== src/Config/Values.antt =====
-- The values that `tomllib` reads, for agent_runner/config.
use cli_agent_runner.Prelude.{
  ℕ, Bool, none, some, List, [], ◌∷◌, ℤ, String, Dict, decimal, lookup, if◌then◌else◌,
}

-- A float carries its repr, and so does a list, a table, and a date, of which only `str` is asked.
mutual
  pub data TomlValue : Type 0 where
    flag : Bool → TomlValue
    whole : ℤ → TomlValue
    real : (numerator : ℤ) (scale : ℕ) (repr : String) → TomlValue
    infinite : (negative : Bool) → TomlValue
    nan : TomlValue
    text : String → TomlValue
    date : (repr : String) → TomlValue
    array : (repr : String) → TomlItems → TomlValue
    table : (repr : String) → TomlEntries → TomlValue

  pub data TomlItems : Type 0 where
    nil : TomlItems
    item : TomlValue → TomlItems → TomlItems

  pub data TomlEntries : Type 0 where
    empty : TomlEntries
    entry : String → TomlValue → TomlEntries → TomlEntries

abbrev pub TomlTable : Type 0
TomlTable = Dict TomlValue

unfoldable pub items_of : TomlItems → List TomlValue
items_of nil = []
items_of (item v vs) = v ∷ items_of vs

unfoldable pub entries_of : TomlEntries → TomlTable
entries_of empty = []
entries_of (entry k v es) = (k, v) ∷ entries_of es

-- `str(value)`.
unfoldable pub str_of : TomlValue → String
str_of (flag b) = if b then "True" else "False"
str_of (whole z) = decimal z
str_of (real z k r) = r
str_of (infinite b) = if b then "-inf" else "inf"
str_of nan = "nan"
str_of (text s) = s
str_of (date r) = r
str_of (array r vs) = r
str_of (table r es) = r

-- `d.get(key, default)`.
unfoldable pub get_or : String → TomlValue → TomlTable → TomlValue
get_or key default d = elim (lookup key d) [ none ↦ default | some v ↦ v ]
