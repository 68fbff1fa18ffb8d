-- ===== src/Config/Validators.antt =====
-- agent_runner/config/validators.py, and the validators of single fields of agent_runner/config/parsers.py.
use cli_agent_runner.Schedule.Windows.{allowed}
use cli_agent_runner.Prelude.{
  ◌*◌, Bool, List, Option, String, [], ◌^◌, any, codes, if◌then◌else◌, false, leb, lookup, ltb, map,
  negsuc, none, not, pos, same_codes, some, str_eq, take, true, ℕ, ℤ, ◌∷◌,
}
use cli_agent_runner.Config.{Real, finite, infinity}
use cli_agent_runner.Config.Values.{
  TomlValue, flag, whole, real, infinite, text, array, table, TomlTable, items_of, entries_of,
  str_of,
}

infixl 5 ◌>>=◌
unfoldable pub ◌>>=◌ : {A B : Type 0} → Option A → (A → Option B) → Option B
none >>= f = none
some a >>= f = f a

unfoldable pub guard : Bool → Option Bool
guard b = if b then some b else none

abbrev pub names : String → List String → Bool
names s allowed = any (str_eq s) allowed

-- Raises on a key that is not allowed.
unfoldable pub reject_unknown_fields : TomlTable → List String → Option Bool
unfolding guard
reject_unknown_fields d allowed = guard (not (any (λ e. not (names e.0 allowed)) d))

unfoldable pub require_table : TomlTable → String → Option TomlTable
unfolding entries_of
require_table d key = elim (lookup key d) [
  | none ↦ some []
  | some (table r es) ↦ some (entries_of es)
  | some v ↦ none
]

unfoldable pub require_positive_int : TomlValue → Option ℕ
require_positive_int (whole (pos n)) = if ltb 0 n then some n else none
require_positive_int _ = none

unfoldable pub require_non_negative_int : TomlValue → Option ℕ
require_non_negative_int (whole (pos n)) = some n
require_non_negative_int _ = none

unfoldable pub require_bool : TomlValue → Option Bool
require_bool (flag b) = some b
require_bool _ = none

unfoldable pub require_str_list : TomlValue → Option (List String)
unfolding items_of str_of
require_str_list (array r vs) = some (map str_of (items_of vs))
require_str_list _ = none

unfoldable pub in_pct : ℤ → ℕ → Bool
in_pct (pos n) k = leb n (100 * 2 ^ k)
in_pct (negsuc n) k = false

unfoldable pub require_pct : TomlValue → Option Real
unfolding in_pct
require_pct (whole z) = if in_pct z 0 then some (finite z 0) else none
require_pct (real z k r) = if in_pct z k then some (finite z k) else none
require_pct _ = none

abbrev pub is_positive : Real → Bool
is_positive (finite (pos n) k) = ltb 0 n
is_positive (finite (negsuc n) k) = false
is_positive infinity = true

abbrev pub positive : Real → Option Real
positive r = if is_positive r then some r else none

unfoldable pub require_positive_pct : TomlValue → Option Real
unfolding require_pct ◌>>=◌
require_positive_pct v = require_pct v >>= positive

unfoldable pub require_positive_float : TomlValue → Option Real
require_positive_float (whole z) = positive (finite z 0)
require_positive_float (real z k r) = positive (finite z k)
require_positive_float (infinite negative) = if negative then none else some infinity
require_positive_float _ = none

-- Texts only, each of which `re.compile` takes.
unfoldable pub pattern_texts : (String → Bool) → List TomlValue → Option (List String)
pattern_texts compiles [] = some []
pattern_texts compiles (text s ∷ vs) =
    let rest = pattern_texts compiles vs in
    if compiles s then elim rest [ none ↦ none | some ss ↦ some (s ∷ ss) ] else none
pattern_texts compiles (v ∷ vs) = none

unfoldable pub validate_regex_list : (String → Bool) → TomlValue → Option (List String)
unfolding pattern_texts items_of
validate_regex_list compiles (array r vs) = pattern_texts compiles (items_of vs)
validate_regex_list compiles _ = none

abbrev pub max_brake_step_pct : ℕ
max_brake_step_pct = 50

abbrev pub max_sigterm_grace_s : ℕ
max_sigterm_grace_s = 12

abbrev pub at_most : ℕ → ℕ → Option ℕ
at_most cap n = if leb n cap then some n else none

unfoldable pub validate_brake_step_pct : TomlValue → Option ℕ
validate_brake_step_pct (whole (pos n)) = at_most max_brake_step_pct n
validate_brake_step_pct _ = none

unfoldable pub validate_sigterm_grace_s : TomlValue → Option ℕ
unfolding require_positive_int ◌>>=◌
validate_sigterm_grace_s v = require_positive_int v >>= at_most max_sigterm_grace_s

unfoldable pub validate_remote_failure_tolerance : TomlValue → Option ℕ
unfolding require_non_negative_int ◌>>=◌
validate_remote_failure_tolerance v = require_non_negative_int v >>= at_most 3600

-- `name.startswith("goal")`.
unfoldable pub is_goal_kind : String → Bool
unfolding codes
is_goal_kind name = same_codes (take 4 (codes name)) (codes "goal")

abbrev pub without_goals : List String → Option (List String)
without_goals ss = if any is_goal_kind ss then none else some ss

unfoldable pub validate_auto_stop_on : TomlValue → Option (List String)
unfolding require_str_list ◌>>=◌ is_goal_kind
validate_auto_stop_on v = require_str_list v >>= without_goals
