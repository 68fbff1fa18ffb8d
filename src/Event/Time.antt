-- ===== src/Event/Time.antt =====
-- `parse_iso_ms` of agent_runner/events.py, on the formats that the runner writes: that of `now_iso_ms`,
-- YYYY-MM-DDTHH:MM:SS.mmmZ, and that of `isoformat` in the announced resume times, which may leave out
-- the milliseconds and names the zone's offset, +HH:MM. The result is in milliseconds since the first of
-- January of year 1, UTC. `none` is an exception; the other ISO forms that Python reads, with no zone
-- among them, are counted as one here.
use cli_agent_runner.Prelude.{
  ℕ, zero, suc, ◌+◌, ◌-◌, ◌*◌, ◌/◌, ◌%◌, Bool, true, false, not, ◌&&◌, Option, none, some, List, [],
  ◌∷◌, leb, ltb, ◌==◌, if◌then◌else◌, is_digit, codes,
}
use cli_agent_runner.Event.{Value, str}

infixl 5 ◌>>=◌
abbrev ◌>>=◌ : {A B : Type 0} → Option A → (A → Option B) → Option B
none >>= f = none
some a >>= f = f a

-- Reads n digits onto the number read so far.
read_digits : ℕ → ℕ → List ℕ → Option (ℕ × List ℕ)
read_digits zero acc cs = some (acc, cs)
read_digits (suc n) acc [] = none
read_digits (suc n) acc (c ∷ cs) =
    let rest = read_digits n (acc * 10 + (c - b'0')) cs in if is_digit c then rest else none

expect : ℕ → List ℕ → Option (List ℕ)
expect c [] = none
expect c (d ∷ cs) = if d == c then some cs else none

require : Bool → List ℕ → Option (List ℕ)
require true cs = some cs
require false cs = none

leap : ℕ → Bool
leap y = if (y % 400 == 0) then true else (y % 4 == 0) && not (y % 100 == 0)

nth : List ℕ → ℕ → ℕ
nth [] n = 0
nth (x ∷ xs) zero = x
nth (x ∷ xs) (suc n) = nth xs n

-- By the month's number: its length in a common year, and the days of that year before it.
month_lengths : List ℕ
month_lengths = 0 ∷ 31 ∷ 28 ∷ 31 ∷ 30 ∷ 31 ∷ 30 ∷ 31 ∷ 31 ∷ 30 ∷ 31 ∷ 30 ∷ 31 ∷ []

month_starts : List ℕ
month_starts = 0 ∷ 0 ∷ 31 ∷ 59 ∷ 90 ∷ 120 ∷ 151 ∷ 181 ∷ 212 ∷ 243 ∷ 273 ∷ 304 ∷ 334 ∷ []

month_length : ℕ → ℕ → ℕ
month_length y m = nth month_lengths m + (if (m == 2) && leap y then 1 else 0)

-- The days before a month, from the first of January of year 1.
days_before : ℕ → ℕ → ℕ
days_before y m =
    let p = y - 1 in
    p * 365 + p / 4 + p / 400 - p / 100 + nth month_starts m + (if ltb 2 m && leap y then 1 else 0)

-- The fraction of a second, in milliseconds.
read_fraction : List ℕ → Option (ℕ × List ℕ)
read_fraction [] = some (0, [])
read_fraction (c ∷ cs) =
    let fraction = read_digits 3 0 cs in if c == b'.' then fraction else some (0, c ∷ cs)

-- The minutes of an offset.
read_offset : List ℕ → Option (ℕ × List ℕ)
read_offset cs = do
  (h, cs) ← read_digits 2 0 cs
  cs ← expect b':' cs
  (m, cs) ← read_digits 2 0 cs
  cs ← require (ltb h 24 && ltb m 60) cs
  some (h * 60 + m, cs)

ahead : ℕ → Option (ℕ × List ℕ) → Option (ℕ × List ℕ)
ahead local none = none
ahead local (some (m, cs)) = if ltb local (m * 60000) then none else some (local - m * 60000, cs)

behind : ℕ → Option (ℕ × List ℕ) → Option (ℕ × List ℕ)
behind local none = none
behind local (some (m, cs)) = some (local + m * 60000, cs)

-- The zone takes the local time to UTC.
read_zone : ℕ → List ℕ → Option (ℕ × List ℕ)
read_zone local [] = none
read_zone local (c ∷ cs) =
    let east = ahead local (read_offset cs) in
    let west = behind local (read_offset cs) in
    if c == b'Z'
    then some (local, cs)
    else if c == b'+'
    then east
    else if c == b'-'
    then west
    else none

read_stamp : List ℕ → Option ℕ
read_stamp cs = do
  (y, cs) ← read_digits 4 0 cs
  cs ← expect b'-' cs
  (mo, cs) ← read_digits 2 0 cs
  cs ← expect b'-' cs
  (d, cs) ← read_digits 2 0 cs
  cs ← expect b'T' cs
  (h, cs) ← read_digits 2 0 cs
  cs ← expect b':' cs
  (mi, cs) ← read_digits 2 0 cs
  cs ← expect b':' cs
  (s, cs) ← read_digits 2 0 cs
  (ms, cs) ← read_fraction cs
  cs ← require (leb 1 y && leb 1 mo && leb mo 12 && leb 1 d && leb d (month_length y mo)) cs
  cs ← require (ltb h 24 && ltb mi 60 && ltb s 60) cs
  let day = days_before y mo + d - 1
  (utc, cs) ← read_zone ((((day * 24 + h) * 60 + mi) * 60 + s) * 1000 + ms) cs
  elim cs [ [] ↦ some utc | _ ↦ none ]

unfoldable pub parse_iso_ms : Value → Option ℕ
unfolding codes is_digit read_digits expect require leap nth month_lengths month_starts month_length
    days_before read_fraction read_offset ahead behind read_zone read_stamp
parse_iso_ms (str s) = read_stamp (codes s)
parse_iso_ms _ = none

-- 1970-01-01T00:00:00.000Z in these milliseconds.
abbrev pub unix_epoch_ms : ℕ
unix_epoch_ms = 62135596800000
