-- ===== src/Schedule/Reading.antt =====
-- What `parse_window` of agent_runner/schedule.py builds: the bounds of a window and of its days.
use cli_agent_runner.Schedule.Windows.{IsValid, to_minutes_bounds}
use cli_agent_runner.Schedule.Parse.{
  add_day, add_days, days_from, token_days, weekday_of, weekdays_from, Clocks, around_dash,
  parse_weekday_spec, to_lower, window_of, window_parts, first_word, match_window, parse_window,
  whole_parts,
}
use cli_agent_runner.Prelude.{
  ◌+◌, ◌++◌, ◌<◌, ◌==◌, Bool-cases, List, [], any, arith, inl, inr, some, suc, zero, ℕ, ◌∷◌, ◌≡◌,
  ◌≤◌, ◌-◌, Option-cases, String, if◌then◌else◌, is_empty, ltb, map, none, strip, ◌≢◌, codes, false,
  refl, true,
}
use cli_agent_runner.Schedule.{Window, to_minutes}

-- Every day is a weekday.
abbrev pub AllWeekdays : List ℕ → Type 0
AllWeekdays [] = Unit
AllWeekdays (d ∷ ds) = (d < 7) × AllWeekdays ds

weekday_of-lt : (token : List ℕ) (d : ℕ) → weekday_of token ≡ some d → d < 7
unfolding weekday_of
weekday_of-lt token d h = ground arith

days_from-AllWeekdays : (n first : ℕ) → first + n ≤ 7 → AllWeekdays (days_from n first)
unfolding days_from
days_from-AllWeekdays zero first h = tt
days_from-AllWeekdays (suc n) first h =
    (omega arith, days_from-AllWeekdays n (first + 1) (omega arith))

append-AllWeekdays : (ds : List ℕ) (d : ℕ) → AllWeekdays ds → d < 7 → AllWeekdays (ds ++ d ∷ [])
append-AllWeekdays [] d a h = (h, tt)
append-AllWeekdays (e ∷ ds) d a h = (a.0, append-AllWeekdays ds d a.1 h)

add_days-AllWeekdays :
    (days ds : List ℕ) → AllWeekdays days → AllWeekdays ds → AllWeekdays (add_days days ds)
unfolding add_days add_day
add_days-AllWeekdays days [] a b = a
add_days-AllWeekdays days (d ∷ ds) a b = elim (Bool-cases (any (λ e. e == d) days)) [
  | inl e ↦ rw e (add_days-AllWeekdays days ds a b.1)
  | inr e ↦ rw e (add_days-AllWeekdays (days ++ d ∷ []) ds (append-AllWeekdays days d a b.0) b.1)
]

subst-AllWeekdays : (ds es : List ℕ) → ds ≡ es → AllWeekdays ds → AllWeekdays es
subst-AllWeekdays ds es e a = rw (← e) a

range-AllWeekdays :
    (a b ds : List ℕ) (first last : ℕ)
    → weekday_of a ≡ some first
    → weekday_of b ≡ some last
    → (if ltb last first then none else some (days_from (last + 1 - first) first)) ≡ some ds
    → AllWeekdays ds
range-AllWeekdays a b ds first last p q h = elim (Bool-cases (ltb last first)) [
  | inl e ↦ absurd (ground (arith, e, h))
  | inr e ↦
      subst-AllWeekdays (days_from (last + 1 - first) first) ds (ground (arith, e, h))
        (days_from-AllWeekdays (last + 1 - first) first (ground (arith, e, weekday_of-lt b last q)))
]

token_days-AllWeekdays : (token ds : List ℕ) → token_days token ≡ some ds → AllWeekdays ds
unfolding token_days
token_days-AllWeekdays token ds h = elim (Option-cases (around_dash token)) [
  | inl e ↦ elim (Option-cases (weekday_of token)) [
    | inl f ↦ absurd (ground (arith, e, f, h))
    | inr (d, f) ↦
        subst-AllWeekdays (d ∷ []) ds (ground (arith, e, f, h)) (weekday_of-lt token d f, tt)
  ]
  | inr ((a, b), e) ↦ elim (Option-cases (weekday_of a)) [
    | inl f ↦ absurd (ground (arith, e, f, h))
    | inr (first, f) ↦ elim (Option-cases (weekday_of b)) [
      | inl g ↦ absurd (ground (arith, e, f, g, h))
      | inr (last, g) ↦ range-AllWeekdays a b ds first last f g (ground (arith, e, f, g, h))
    ]
  ]
]

weekdays_from-AllWeekdays :
    (tokens : List (List ℕ)) (days ds : List ℕ)
    → AllWeekdays days
    → weekdays_from days tokens ≡ some ds
    → AllWeekdays ds
unfolding weekdays_from
weekdays_from-AllWeekdays [] days ds a h = subst-AllWeekdays days ds (ground (arith, h)) a
weekdays_from-AllWeekdays (t ∷ ts) days ds a h =
    let token = map to_lower (strip t) in
    elim (Bool-cases (is_empty token)) [
      | inl e ↦ absurd (ground (arith, e, h))
      | inr e ↦ elim (Option-cases (token_days token)) [
        | inl f ↦ absurd (ground (arith, e, f, h))
        | inr (new, f) ↦
            weekdays_from-AllWeekdays ts (add_days days new) ds
              (add_days-AllWeekdays days new a (token_days-AllWeekdays token new f))
              (ground (arith, e, f, h))
      ]
    ]

whole_parts-AllWeekdays :
    (spec days : List ℕ) (m : Clocks) → whole_parts spec ≡ some (days, m) → AllWeekdays days
unfolding whole_parts
whole_parts-AllWeekdays spec days m h = subst-AllWeekdays [] days (ground (arith, h)) tt

window_parts-AllWeekdays :
    (spec days : List ℕ) (m : Clocks) → window_parts spec ≡ some (days, m) → AllWeekdays days
unfolding window_parts parse_weekday_spec
window_parts-AllWeekdays spec days m h = elim (Option-cases (first_word spec)) [
  | inl e ↦ whole_parts-AllWeekdays spec days m (ground (arith, e, h))
  | inr ((head, time), e) ↦ elim (Option-cases (match_window time)) [
    | inl f ↦ whole_parts-AllWeekdays spec days m (ground (arith, e, f, h))
    | inr (n, f) ↦ elim (Option-cases (parse_weekday_spec head)) [
      | inl g ↦ absurd (ground (arith, e, f, g, h))
      | inr (ds, g) ↦
          subst-AllWeekdays ds days (ground (arith, e, f, g, h))
            (weekdays_from-AllWeekdays _ [] ds tt g)
    ]
  ]
]

-- What `parse_window` promises of a window: its bounds, that it is not empty, its label, its days.
pub record IsParsed (label : String) (w : Window) : Type 0 where
  pub valid : IsValid w
  pub not_empty : w.start_min ≢ w.end_min
  pub labelled : w.label ≡ label
  pub weekdays : AllWeekdays w.days

window_of-IsParsed :
    (label : String) (days : List ℕ) (m : Clocks) (w : Window)
    → AllWeekdays days
    → window_of label days m ≡ some w
    → IsParsed label w
unfolding window_of
window_of-IsParsed label days m w a h = elim (Option-cases (to_minutes m.sh m.sm false)) [
  | inl e ↦ absurd (ground (arith, e, h))
  | inr (first, e) ↦ elim (Option-cases (to_minutes m.eh m.em true)) [
    | inl f ↦ absurd (ground (arith, e, f, h))
    | inr (last, f) ↦ elim (Bool-cases (first == last)) [
      | inl g ↦ absurd (ground (arith, e, f, g, h))
      | inr g ↦
          let built : Window = record {
            start_min = first;
            end_min = last;
            label = label;
            days = days;
          } in
          let same : built ≡ w = ground (arith, e, f, g, h) in
          rw (← same) (record {
            valid = record {
              starts_in_day = ground (arith, to_minutes_bounds m.sh m.sm first false e);
              ends_in_day = (to_minutes_bounds m.eh m.em last true f).0;
            };
            not_empty = ground (arith, g);
            labelled = refl;
            weekdays = a;
          })
    ]
  ]
]

-- Every window that is read from a text starts within the day, ends by its midnight, is not empty, is
-- labelled by the text, and names weekdays only.
pub parse_window-IsParsed : (s : String) (w : Window) → parse_window s ≡ some w → IsParsed s w
unfolding parse_window
parse_window-IsParsed s w h = elim (Option-cases (window_parts (strip (codes s)))) [
  | inl e ↦ absurd (ground (arith, e, h))
  | inr ((days, m), e) ↦
      window_of-IsParsed s days m w (window_parts-AllWeekdays (strip (codes s)) days m e)
        (ground (arith, e, h))
]
