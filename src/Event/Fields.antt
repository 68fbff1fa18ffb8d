-- ===== src/Event/Fields.antt =====
-- The comparisons that readers of the events apply to a field: `ev.get(key) == text`, a number against
-- a literal, and the round's number. `none` is a TypeError.
use cli_agent_runner.Prelude.{
  ℕ, ◌*◌, ◌^◌, Bool, true, false, not, Option, none, some, String, str_eq, lookup, ltb,
  if◌then◌else◌, ℤ, pos, negsuc, equals,
}
use cli_agent_runner.Event.{Value, bool, int, float, nonfinite, str, Event, truthy}

-- `ev.get(key) == text`.
unfoldable pub text_is : String → String → Event → Bool
unfolding lookup
text_is key text ev = elim (lookup key ev) [ some (str s) ↦ str_eq s text | _ ↦ false ]

below_int : ℤ → ℕ → Bool
below_int (pos m) n = ltb m n
below_int (negsuc m) n = true

-- `value < n`.
unfoldable pub less_than : ℕ → Value → Option Bool
unfolding below_int
less_than n (bool b) = some (ltb (if b then 1 else 0) n)
less_than n (int z) = some (below_int z n)
less_than n (float z k r) = some (below_int z (n * 2 ^ k))
less_than n (nonfinite r) = some (str_eq r "-inf")
less_than n _ = none

-- `(ev.get(key) or 0.0) < n`.
unfoldable pub less_or_zero : String → ℕ → Event → Option Bool
unfolding less_than truthy
less_or_zero key n ev =
    let v = lookup key ev in
    if truthy v then elim v [ none ↦ none | some w ↦ less_than n w ] else some (ltb 0 n)

-- `ev.get(key, 0) != 0`.
unfoldable pub nonzero : String → Event → Bool
unfolding lookup
nonzero key ev = elim (lookup key ev) [
  | none ↦ false
  | some (bool b) ↦ b
  | some (int z) ↦ not (equals z 0)
  | some (float z k r) ↦ not (equals z 0)
  | some _ ↦ true
]

-- `ev.get("round_num")`: the runner numbers its rounds by natural numbers, and any other value of the
-- field counts as missing.
unfoldable pub round_of : Event → Option ℕ
unfolding lookup
round_of ev = elim (lookup "round_num" ev) [ some (int (pos n)) ↦ some n | _ ↦ none ]
