-- ===== src/Schedule/Weekdays.antt =====
-- A list of weekdays written out, as `_parse_weekday_spec` of agent_runner/schedule.py reads it.
use cli_agent_runner.Schedule.Parse.{
  around_dash, split_commas, to_lower, token_days, weekday_of, add_day, add_days,
  parse_weekday_spec, weekdays_from,
}
use cli_agent_runner.Prelude.{
  List, ℕ, ◌++◌, ◌==◌, Bool-cases, String, [], any, ap, arith, codes, false, inl, inr, is_empty,
  map, refl, some, strip, ◌∙◌, ◌∷◌, ◌≡◌,
}
use mathlib.Core.List.{append_assoc, append-nil}

pub data Weekday : Type 0 where
  monday tuesday wednesday thursday friday saturday sunday : Weekday

abbrev pub day_of : Weekday → ℕ
day_of monday = 0
day_of tuesday = 1
day_of wednesday = 2
day_of thursday = 3
day_of friday = 4
day_of saturday = 5
day_of sunday = 6

abbrev pub day_name : Weekday → String
day_name monday = "mon"
day_name tuesday = "tue"
day_name wednesday = "wed"
day_name thursday = "thu"
day_name friday = "fri"
day_name saturday = "sat"
day_name sunday = "sun"

-- The names of at least one day, with a comma between each two.
abbrev pub listed_days : Weekday → List Weekday → List ℕ
listed_days w [] = codes (day_name w)
listed_days w (v ∷ vs) = codes (day_name w) ++ b',' ∷ listed_days v vs

-- No day is listed twice.
abbrev pub NoRepeats : List ℕ → Type 0
NoRepeats [] = Unit
NoRepeats (d ∷ ds) = (any (λ e. e == d) ds ≡ false) × NoRepeats ds

-- No day of the second list is in the first.
abbrev Apart : List ℕ → List ℕ → Type 0
Apart days [] = Unit
Apart days (d ∷ ds) = (any (λ e. e == d) days ≡ false) × Apart days ds

name_tokens : List Weekday → List (List ℕ)
name_tokens [] = []
name_tokens (w ∷ ws) = codes (day_name w) ∷ name_tokens ws

split_commas-part :
    (acc xs ys : List ℕ)
    → any (λ c. c == b',') xs ≡ false
    → split_commas acc (xs ++ b',' ∷ ys) ≡ (acc ++ xs) ∷ split_commas [] ys
unfolding split_commas
split_commas-part acc [] ys h = rw append-nil refl
split_commas-part acc (x ∷ xs) ys h = elim (Bool-cases (x == b',')) [
  | inl e ↦ absurd (ground (arith, e, h))
  | inr e ↦ rw e (
      split_commas-part (acc ++ x ∷ []) xs ys (ground (arith, e, h))
      ∙ ap (λ l. l ∷ split_commas [] ys) (append_assoc acc (x ∷ []) xs))
]

split_commas-whole :
    (acc xs : List ℕ) → any (λ c. c == b',') xs ≡ false → split_commas acc xs ≡ (acc ++ xs) ∷ []
unfolding split_commas
split_commas-whole acc [] h = rw append-nil refl
split_commas-whole acc (x ∷ xs) h = elim (Bool-cases (x == b',')) [
  | inl e ↦ absurd (ground (arith, e, h))
  | inr e ↦ rw e (
      split_commas-whole (acc ++ x ∷ []) xs (ground (arith, e, h))
      ∙ ap (λ l. l ∷ []) (append_assoc acc (x ∷ []) xs))
]

no_comma : (w : Weekday) → any (λ c. c == b',') (codes (day_name w)) ≡ false
unfolding codes
no_comma monday = refl
no_comma tuesday = refl
no_comma wednesday = refl
no_comma thursday = refl
no_comma friday = refl
no_comma saturday = refl
no_comma sunday = refl

-- What the loop makes of a name.
name_is_read :
    (w : Weekday)
    → let token = map to_lower (strip (codes (day_name w))) in
      (is_empty token ≡ false) × (token_days token ≡ some (day_of w ∷ []))
unfolding codes strip to_lower token_days around_dash weekday_of
name_is_read monday = (refl, refl)
name_is_read tuesday = (refl, refl)
name_is_read wednesday = (refl, refl)
name_is_read thursday = (refl, refl)
name_is_read friday = (refl, refl)
name_is_read saturday = (refl, refl)
name_is_read sunday = (refl, refl)

split_commas-listed :
    (w : Weekday) (ws : List Weekday) → split_commas [] (listed_days w ws) ≡ name_tokens (w ∷ ws)
unfolding name_tokens
split_commas-listed w [] = split_commas-whole [] (codes (day_name w)) (no_comma w)
split_commas-listed w (v ∷ vs) =
    split_commas-part [] (codes (day_name w)) (listed_days v vs) (no_comma w)
    ∙ ap (λ l. codes (day_name w) ∷ l) (split_commas-listed v vs)

any_snoc :
    (days : List ℕ) (d e : ℕ)
    → any (λ x. x == e) days ≡ false
    → (e == d) ≡ false
    → any (λ x. x == e) (days ++ d ∷ []) ≡ false
any_snoc [] d e h n = ground (arith, n)
any_snoc (x ∷ xs) d e h n = ground (arith, h, n, any_snoc xs d e)

snoc-Apart :
    (days ds : List ℕ) (d : ℕ)
    → Apart days ds
    → any (λ e. e == d) ds ≡ false
    → Apart (days ++ d ∷ []) ds
snoc-Apart days [] d a h = tt
snoc-Apart days (e ∷ ds) d a h =
    (any_snoc days d e a.0 (ground (arith, h)), snoc-Apart days ds d a.1 (ground (arith, h)))

nil-Apart : (ds : List ℕ) → Apart [] ds
nil-Apart [] = tt
nil-Apart (d ∷ ds) = (refl, nil-Apart ds)

add_days-new :
    (days : List ℕ) (d : ℕ)
    → any (λ e. e == d) days ≡ false
    → add_days days (d ∷ []) ≡ days ++ d ∷ []
unfolding add_days add_day
add_days-new days d h = rw h refl

weekdays_from-name :
    (days : List ℕ) (w : Weekday) (ts : List (List ℕ))
    → any (λ e. e == day_of w) days ≡ false
    → weekdays_from days (codes (day_name w) ∷ ts) ≡ weekdays_from (days ++ day_of w ∷ []) ts
unfolding weekdays_from
weekdays_from-name days w ts h = ground (arith, name_is_read w, add_days-new days (day_of w) h)

weekdays_from-names :
    (days : List ℕ) (ws : List Weekday)
    → Apart days (map day_of ws)
    → NoRepeats (map day_of ws)
    → weekdays_from days (name_tokens ws) ≡ some (days ++ map day_of ws)
unfolding name_tokens
weekdays_from-names days [] a n = rw append-nil (unfold weekdays_from in refl)
weekdays_from-names days (w ∷ ws) a n =
    weekdays_from-name days w (name_tokens ws) a.0
    ∙ weekdays_from-names (days ++ day_of w ∷ []) ws
        (snoc-Apart days (map day_of ws) (day_of w) a.1 n.0) n.1
    ∙ ap (λ l. some l) (append_assoc days (day_of w ∷ []) (map day_of ws))

-- The names of days without repetitions, written with commas between them, are read back as the set of
-- those days, which stands as the list of their numbers, 0 for Monday to 6 for Sunday, in the order written.
pub parse_weekday_spec-listed :
    (w : Weekday) (ws : List Weekday)
    → NoRepeats (map day_of (w ∷ ws))
    → parse_weekday_spec (listed_days w ws) ≡ some (map day_of (w ∷ ws))
unfolding parse_weekday_spec
parse_weekday_spec-listed w ws n =
    rw (split_commas-listed w ws)
      (weekdays_from-names [] (w ∷ ws) (nil-Apart (map day_of (w ∷ ws))) n)
