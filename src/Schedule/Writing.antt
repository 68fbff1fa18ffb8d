-- ===== src/Schedule/Writing.antt =====
-- A window text written out, [WEEKDAYS ]HH:MM-HH:MM, and what agent_runner/schedule.py reads of it.
use cli_agent_runner.Schedule.{Window, to_minutes}
use cli_agent_runner.Prelude.{
  ◌%◌, ◌+◌, ◌++◌, ◌/◌, ◌<◌, Bool, Bool-cases, List, [], any, arith, false, inl, inr, is_digit,
  is_space, none, not, refl, some, strip_left, true, ℕ, ◌∷◌, ◌≡◌, ◌*◌, String, codes, strip, ◌≢◌,
  ◌⊎◌,
}
use cli_agent_runner.Schedule.Parse.{
  Clocks, first_word, match_window, parse_weekday_spec, two_digits, whole_parts, window_parts,
  parse_window, window_of,
}

-- A number below a hundred.
abbrev pub tens : ℕ → ℕ
tens n = b'0' + n / 10

abbrev pub units : ℕ → ℕ
units n = b'0' + n % 10

abbrev pub written : Clocks → List ℕ
written m =
    tens m.sh
    ∷ units m.sh
    ∷ b':'
    ∷ tens m.sm
    ∷ units m.sm
    ∷ b'-'
    ∷ tens m.eh
    ∷ units m.eh
    ∷ b':'
    ∷ tens m.em
    ∷ units m.em
    ∷ []

-- Clocks that make a window: a start within the day, an end up to 24:00, and some time between.
pub record IsWindow (m : Clocks) : Type 0 where
  pub start_hour : m.sh < 24
  pub start_minute : m.sm < 60
  pub end_time : ((m.eh < 24) × (m.em < 60)) ⊎ ((m.eh ≡ 24) × (m.em ≡ 0))
  pub not_empty : m.sh * 60 + m.sm ≢ m.eh * 60 + m.em

-- The window that the clocks mean.
abbrev pub meant : String → List ℕ → Clocks → Window
meant label days m = record {
  start_min = m.sh * 60 + m.sm;
  end_min = m.eh * 60 + m.em;
  label = label;
  days = days;
}

digit_tens : (n : ℕ) → n < 100 → is_digit (tens n) ≡ true
unfolding is_digit
digit_tens n h = ground arith

digit_units : (n : ℕ) → is_digit (units n) ≡ true
unfolding is_digit
digit_units n = ground arith

read_two : (n : ℕ) → two_digits (tens n) (units n) ≡ n
read_two n = omega arith

match_window-written : (m : Clocks) → IsWindow m → match_window (written m) ≡ some m
unfolding match_window
match_window-written m h =
    rw
      (
        digit_tens m.sh (ground (arith, h.start_hour)),
        digit_units m.sh,
        digit_tens m.sm (ground (arith, h.start_minute)),
        digit_units m.sm,
        digit_tens m.eh (ground (arith, h.end_time)),
        digit_units m.eh,
        digit_tens m.em (ground (arith, h.end_time)),
        digit_units m.em,
        read_two m.sh,
        read_two m.sm,
        read_two m.eh,
        read_two m.em,
      )
      refl

-- No white space.
abbrev pub is_word : List ℕ → Bool
is_word cs = not (any is_space cs)

first_word-word :
    (head time : List ℕ)
    → is_word head ≡ true
    → first_word (head ++ b' ' ∷ time) ≡ some (head, strip_left time)
unfolding first_word
first_word-word [] time h = unfold is_space in refl
first_word-word (c ∷ cs) time h = elim (Bool-cases (is_space c)) [
  | inl e ↦ absurd (ground (arith, e, h))
  | inr e ↦ rw (e, first_word-word cs time (ground (arith, e, h))) refl
]

first_word-none : (cs : List ℕ) → is_word cs ≡ true → first_word cs ≡ none
unfolding first_word
first_word-none [] h = refl
first_word-none (c ∷ cs) h = elim (Bool-cases (is_space c)) [
  | inl e ↦ absurd (ground (arith, e, h))
  | inr e ↦ rw (e, first_word-none cs (ground (arith, e, h))) refl
]

printable : (c : ℕ) → 32 < c → is_space c ≡ false
unfolding is_space
printable c h = ground arith

strip_left-written : (m : Clocks) → strip_left (written m) ≡ written m
unfolding strip_left
strip_left-written m = rw (printable (tens m.sh) (omega arith)) refl

written-is_word : (m : Clocks) → is_word (written m) ≡ true
written-is_word m =
    rw
      (
        printable (tens m.sh) (omega arith),
        printable (units m.sh) (omega arith),
        printable (tens m.sm) (omega arith),
        printable (units m.sm) (omega arith),
        printable (tens m.eh) (omega arith),
        printable (units m.eh) (omega arith),
        printable (tens m.em) (omega arith),
        printable (units m.em) (omega arith),
      )
      (unfold is_space in refl)

start_minutes : (m : Clocks) → IsWindow m → to_minutes m.sh m.sm false ≡ some (m.sh * 60 + m.sm)
unfolding to_minutes
start_minutes m h = ground (arith, h.start_hour, h.start_minute)

end_minutes : (m : Clocks) → IsWindow m → to_minutes m.eh m.em true ≡ some (m.eh * 60 + m.em)
unfolding to_minutes
end_minutes m h = ground (arith, h.end_time)

window_of-meant :
    (label : String) (days : List ℕ) (m : Clocks)
    → IsWindow m
    → window_of label days m ≡ some (meant label days m)
unfolding window_of
window_of-meant label days m h = ground (arith, start_minutes m h, end_minutes m h, h.not_empty)

parts_alone : (m : Clocks) → IsWindow m → window_parts (written m) ≡ some ([], m)
unfolding window_parts whole_parts
parts_alone m h =
    ground (arith, first_word-none (written m) (written-is_word m), match_window-written m h)

parts_behind :
    (m : Clocks) (head days : List ℕ)
    → IsWindow m
    → is_word head ≡ true
    → parse_weekday_spec head ≡ some days
    → window_parts (head ++ b' ' ∷ written m) ≡ some (days, m)
unfolding window_parts
parts_behind m head days h word spec =
    let behind = first_word-word head (written m) word in
    ground (arith, behind, strip_left-written m, match_window-written m h, spec)

parse_window-parts :
    (s : String) (spec days : List ℕ) (m : Clocks)
    → IsWindow m
    → strip (codes s) ≡ spec
    → window_parts spec ≡ some (days, m)
    → parse_window s ≡ some (meant s days m)
unfolding parse_window
parse_window-parts s spec days m h stripped parts =
    ground (arith, stripped, parts, window_of-meant s days m h)

-- What is written of a window is read back as the window it means, with the minutes of its clocks: the
-- clocks alone, for every day, and the clocks behind any word that names weekdays, white space around
-- the text aside. The start is before 24:00, the end at most 24:00, and the two differ.
pub parse_window-meant :
    (plain dated : String) (m : Clocks) (head days : List ℕ)
    → IsWindow m
    → is_word head ≡ true
    → parse_weekday_spec head ≡ some days
    → strip (codes plain) ≡ written m
    → strip (codes dated) ≡ head ++ b' ' ∷ written m
    → (parse_window plain ≡ some (meant plain [] m))
      × (parse_window dated ≡ some (meant dated days m))
parse_window-meant plain dated m head days h word spec a b = (
  parse_window-parts plain (written m) [] m h a (parts_alone m h),
  parse_window-parts dated (head ++ b' ' ∷ written m) days m h b
      (parts_behind m head days h word spec),
)
