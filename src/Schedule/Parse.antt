-- ===== src/Schedule/Parse.antt =====
-- `parse_window` and `_parse_weekday_spec` of agent_runner/schedule.py, on the code points of the text.
-- White space, digits and capital letters are the ASCII ones. `none` is a ValueError. A set of weekdays is
-- the list of them, without repetitions.
use cli_agent_runner.RoundOutcome.{start}
use cli_agent_runner.Prelude.{
  same_codes, ◌&&◌, ◌*◌, ◌+◌, ◌++◌, ◌-◌, ◌==◌, List, Option, String, [], any, codes, if◌then◌else◌,
  false, is_digit, is_empty, is_space, leb, ltb, map, none, some, strip, strip_left, suc, true,
  zero, ℕ, ◌∷◌,
}
use cli_agent_runner.Schedule.{Window, to_minutes}

-- `text.split(",")`.
unfoldable pub split_commas : List ℕ → List ℕ → List (List ℕ)
split_commas acc [] = acc ∷ []
split_commas acc (c ∷ cs) =
    let next = split_commas [] cs in
    let more = split_commas (acc ++ c ∷ []) cs in if c == b',' then acc ∷ next else more

unfoldable pub to_lower : ℕ → ℕ
to_lower c = if leb b'A' c && leb c b'Z' then c + 32 else c

-- `_WEEKDAYS`.
unfoldable pub weekday_of : List ℕ → Option ℕ
unfolding same_codes codes
weekday_of token =
    if same_codes token (codes "mon")
    then some 0
    else if same_codes token (codes "tue")
    then some 1
    else if same_codes token (codes "wed")
    then some 2
    else if same_codes token (codes "thu")
    then some 3
    else if same_codes token (codes "fri")
    then some 4
    else if same_codes token (codes "sat")
    then some 5
    else if same_codes token (codes "sun")
    then some 6
    else none

-- `token.partition("-")`, where there is a dash.
unfoldable pub around_dash : List ℕ → Option (List ℕ × List ℕ)
around_dash [] = none
around_dash (c ∷ cs) =
    let rest = around_dash cs in
    if c == b'-' then some ([], cs) else elim rest [ none ↦ none | some (a, b) ↦ some (c ∷ a, b) ]

-- `range(start, start + n)`.
unfoldable pub days_from : ℕ → ℕ → List ℕ
days_from zero first = []
days_from (suc n) first = first ∷ days_from n (first + 1)

-- The days of one token.
unfoldable pub token_days : List ℕ → Option (List ℕ)
token_days token = elim (around_dash token) [
  | none ↦ elim (weekday_of token) [ none ↦ none | some d ↦ some (d ∷ []) ]
  | some (a, b) ↦ elim (weekday_of a) [
    | none ↦ none
    | some start ↦ elim (weekday_of b) [
      | none ↦ none
      | some end ↦ if ltb end start then none else some (days_from (end + 1 - start) start)
    ]
  ]
]

unfoldable pub add_day : List ℕ → ℕ → List ℕ
add_day days d = if any (λ e. e == d) days then days else days ++ d ∷ []

unfoldable pub add_days : List ℕ → List ℕ → List ℕ
add_days days [] = days
add_days days (d ∷ ds) = add_days (add_day days d) ds

-- The loop over the tokens.
unfoldable pub weekdays_from : List ℕ → List (List ℕ) → Option (List ℕ)
weekdays_from days [] = some days
weekdays_from days (t ∷ ts) =
    let token = map to_lower (strip t) in
    if is_empty token
    then none
    else elim (token_days token) [ none ↦ none | some ds ↦ weekdays_from (add_days days ds) ts ]

unfoldable pub parse_weekday_spec : List ℕ → Option (List ℕ)
unfolding split_commas
parse_weekday_spec spec = weekdays_from [] (split_commas [] spec)

-- The groups of `_WINDOW_RE`.
pub record Clocks : Type 0 where
  pub sh : ℕ
  pub sm : ℕ
  pub eh : ℕ
  pub em : ℕ

abbrev pub two_digits : ℕ → ℕ → ℕ
two_digits c d = (c - b'0') * 10 + (d - b'0')

unfoldable pub match_window : List ℕ → Option Clocks
match_window (a ∷ b ∷ c ∷ d ∷ e ∷ f ∷ g ∷ h ∷ i ∷ j ∷ k ∷ []) =
    if is_digit a
      && is_digit b
      && (c == b':')
      && is_digit d
      && is_digit e
      && (f == b'-')
      && is_digit g
      && is_digit h
      && (i == b':')
      && is_digit j
      && is_digit k
    then some (record {
      sh = two_digits a b;
      sm = two_digits d e;
      eh = two_digits g h;
      em = two_digits j k;
    })
    else none
match_window _ = none

-- `spec.split(None, 1)` of a stripped text, where there are two parts.
unfoldable pub first_word : List ℕ → Option (List ℕ × List ℕ)
first_word [] = none
first_word (c ∷ cs) =
    let rest = first_word cs in
    if is_space c
    then some ([], strip_left cs)
    else elim rest [ none ↦ none | some (a, b) ↦ some (c ∷ a, b) ]

-- A text of the clocks alone.
unfoldable pub whole_parts : List ℕ → Option (List ℕ × Clocks)
whole_parts spec = elim (match_window spec) [ none ↦ none | some m ↦ some ([], m) ]

-- The days and the clocks of a stripped text.
unfoldable pub window_parts : List ℕ → Option (List ℕ × Clocks)
window_parts spec = elim (first_word spec) [
  | none ↦ whole_parts spec
  | some (head, time) ↦ elim (match_window time) [
    | none ↦ whole_parts spec
    | some m ↦ elim (parse_weekday_spec head) [ none ↦ none | some days ↦ some (days, m) ]
  ]
]

unfoldable pub window_of : String → List ℕ → Clocks → Option Window
window_of label days m = elim (to_minutes m.sh m.sm false) [
  | none ↦ none
  | some start ↦ elim (to_minutes m.eh m.em true) [
    | none ↦ none
    | some end ↦
        if start == end
        then none
        else some (record { start_min = start; end_min = end; label = label; days = days })
  ]
]

unfoldable pub parse_window : String → Option Window
unfolding window_parts window_of
parse_window s = elim (window_parts (strip (codes s))) [
  | none ↦ none
  | some (days, m) ↦ window_of s days m
]
