-- ===== src/Throttle/Coerce.antt =====
-- The coercions of event fields in agent_runner/_throttle.py. `int(text)` reads ASCII digits: the
-- Unicode digits and the limit of 4300 digits of CPython are left out.
use cli_agent_runner.Prelude.{
  ℕ, zero, suc, ◌+◌, ◌-◌, ◌*◌, ◌/◌, ◌^◌, Bool, true, false, ◌&&◌, Option, none, some, List, [], ◌∷◌,
  ltb, ◌==◌, if◌then◌else◌, ℤ, pos, negsuc, is_digit, strip, codes,
}
use cli_agent_runner.Clock.{ticks}
use cli_agent_runner.Event.{Value, null, bool, int, float, nonfinite, str, nested}

-- The digits of `int(text)`, with single underscores between them. `after_digit` says that the
-- character before was a digit.
read_int : ℕ → Bool → List ℕ → Option ℕ
read_int acc true [] = some acc
read_int acc false [] = none
read_int acc after_digit (c ∷ cs) = elim (is_digit c) [
  | true ↦ read_int (acc * 10 + (c - b'0')) true cs
  | false ↦ elim (after_digit && (c == b'_')) [ true ↦ read_int acc false cs | false ↦ none ]
]

negate : ℕ → ℤ
negate zero = pos 0
negate (suc n) = negsuc n

signed : List ℕ → Option ℤ
signed [] = none
signed (c ∷ cs) =
    if c == b'-'
    then elim (read_int 0 false cs) [ none ↦ none | some n ↦ some (negate n) ]
    else if c == b'+'
    then elim (read_int 0 false cs) [ none ↦ none | some n ↦ some (pos n) ]
    else elim (read_int 0 false (c ∷ cs)) [ none ↦ none | some n ↦ some (pos n) ]

-- `int(text)`; `none` is a ValueError.
unfoldable pub parse_int : List ℕ → Option ℤ
unfolding signed strip read_int negate
parse_int cs = signed (strip cs)

-- `int(f)` of a finite float cuts the fraction off.
truncate : ℤ → ℕ → ℤ
truncate (pos n) k = pos (n / 2 ^ k)
truncate (negsuc n) k = negate (suc n / 2 ^ k)

or_default : Option ℤ → ℤ → ℤ
or_default none d = d
or_default (some z) d = z

unfoldable pub coerce_int : Option Value → ℤ → ℤ
unfolding parse_int read_int negate truncate or_default codes is_digit
coerce_int none default = default
coerce_int (some null) default = default
coerce_int (some (bool b)) default = if b then pos 1 else pos 0
coerce_int (some (int z)) default = z
coerce_int (some (float z k r)) default = truncate z k
coerce_int (some (nonfinite r)) default = default
coerce_int (some (str s)) default = or_default (parse_int (codes s)) default
coerce_int (some (nested b r)) default = default

abbrev pub epoch_sanity_window_s : ℕ
epoch_sanity_window_s = 366 * 24 * 3600

unfoldable pub in_sane_range : ℤ → ℕ → ℕ → ℕ
in_sane_range (negsuc n) default now = default
in_sane_range (pos n) default now =
    if ltb (now + epoch_sanity_window_s * ticks) (n * ticks) then default else n

-- `now` is in ticks. The default is an epoch that is not negative, and so is the result.
unfoldable pub coerce_epoch_int : Option Value → ℕ → ℕ → ℕ
unfolding coerce_int in_sane_range
coerce_epoch_int value default now = in_sane_range (coerce_int value (pos default)) default now
