-- ===== src/Event.antt =====
-- The events that agent_runner/events.py reads back: a line of events-*.jsonl decodes to a dict of
-- JSON values, and every reader goes through `ev.get(...)`.
--
-- A finite float is an exact dyadic number, numerator / 2^scale, and it carries its Python repr, since
-- `str(value)` shows it; a list or dict carries its truth value and its repr.
pub mod Time
pub mod Fields
use cli_agent_runner.Prelude.{
  ℕ, Bool, true, false, not, Option, none, some, List, ℤ, pos, negsuc, String, str_eq, decimal,
  Dict, lookup, if◌then◌else◌, equals, arith, str_eq_iff, ◌≡◌,
}

pub data Value : Type 0 where
  null : Value
  bool : Bool → Value
  int : ℤ → Value
  float : (numerator : ℤ) (scale : ℕ) (repr : String) → Value
  nonfinite : (repr : String) → Value
  str : String → Value
  nested : (truth : Bool) (repr : String) → Value

abbrev pub Event : Type 0
Event = Dict Value

-- Python's truth value of `ev.get(key)`.
unfoldable pub truthy : Option Value → Bool
truthy none = false
truthy (some null) = false
truthy (some (bool b)) = b
truthy (some (int z)) = not (equals z 0)
truthy (some (float z k r)) = not (equals z 0)
truthy (some (nonfinite r)) = true
truthy (some (str s)) = not (str_eq s "")
truthy (some (nested b r)) = b

-- `str(value)`.
unfoldable pub to_str : Value → String
to_str null = "None"
to_str (bool b) = if b then "True" else "False"
to_str (int z) = decimal z
to_str (float z k r) = r
to_str (nonfinite r) = r
to_str (str s) = s
to_str (nested b r) = r

-- `str(ev.get(key, default))`.
unfoldable pub get_str : String → String → Event → String
unfolding lookup to_str
get_str key default ev = elim (lookup key ev) [ none ↦ default | some v ↦ to_str v ]

abbrev pub has_text : String → Option Value → Bool
has_text s (some (str t)) = str_eq t s
has_text s _ = false

-- `ev.get("event") == kind`.
unfoldable pub is_kind : String → Event → Bool
unfolding lookup
is_kind kind ev = has_text kind (lookup "event" ev)

has_text-ne :
    (s t : String) (v : Option Value)
    → has_text s v ≡ true
    → str_eq s t ≡ false
    → has_text t v ≡ false
has_text-ne s t (some (str u)) h d = ground (arith, str_eq_iff u s)
has_text-ne s t _ h d = absurd (ground arith)

-- An event is of one kind at most.
pub is_kind-ne :
    (s t : String) (ev : Event) → is_kind s ev ≡ true → str_eq s t ≡ false → is_kind t ev ≡ false
unfolding is_kind
is_kind-ne s t ev h d = has_text-ne s t (lookup "event" ev) h d
