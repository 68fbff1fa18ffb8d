-- ===== src/Goal/Once.antt =====
-- An advisory of agent_runner/goal.py is not repeated.
use mathlib.Core.List.{reverse, reverse-append}
use cli_agent_runner.Goal.Assess.{
  Tagged, bucket, check_signature, episode_start, fired_since, has_tag, round_has_activity,
  same_signature, Series, assess_treadmill, assess_window, constant_sig, round_nums, series_of,
  tag_of, tag_rounds, unless_fired, unless_moving,
}
use cli_agent_runner.Event.{Event, is_kind}
use cli_agent_runner.Prelude.{
  ◌++◌, ◌==◌, Bool, Bool-cases, List, Option, [], any, arith, inl, inr, true, ℕ, ◌∷◌, ◌≡◌,
  any-append, refl, ◌-◌, any-drop, any-take, ap, last_n, length, none, take,
}
use cli_agent_runner.Goal.{Signature}

abbrev pub listed : ℕ → List ℕ → Bool
listed n ns = any (λ m. m == n) ns

-- A round has an event among these.
abbrev pub occurs : ℕ → List Tagged → Bool
occurs n ts = any (λ t. has_tag n t.0) ts

abbrev pub is_assessment : Event → Bool
is_assessment = is_kind "goal_assessment"

abbrev pub completed : ℕ → List Event → List ℕ
completed current_round tail = round_nums current_round [] (tag_rounds none tail)

-- The walk back ends at the first round of the window or at an earlier one.
episode_start-listed :
    (tagged : List Tagged) (sig : Signature) (first : ℕ) (earlier all : List ℕ)
    → listed first all ≡ true
    → ((n : ℕ) → listed n earlier ≡ true → listed n all ≡ true)
    → listed (episode_start tagged sig first earlier) all ≡ true
unfolding episode_start
episode_start-listed tagged sig first [] all h k = h
episode_start-listed tagged sig first (rn ∷ earlier) all h k =
    elim (Bool-cases (round_has_activity (bucket rn tagged))) [
      | inl a ↦ elim (Bool-cases (same_signature (check_signature [] (bucket rn tagged)) sig)) [
        | inl s ↦
            rw (a, s)
              (episode_start-listed tagged sig rn earlier all (k rn (ground arith))
                (λ n l. k n (ground (arith, l))))
        | inr s ↦ rw (a, s) h
      ]
      | inr a ↦ rw a h
    ]

recorded_later :
    (current : Option ℕ) (xs ys : List Event) (e : Event)
    → is_assessment e ≡ true
    → any (λ t. is_kind "goal_assessment" t.1) (tag_rounds current (xs ++ e ∷ ys)) ≡ true
unfolding tag_rounds
recorded_later current [] ys e a = ground (arith, a)
recorded_later current (x ∷ xs) ys e a = ground (arith, recorded_later (tag_of current x) xs ys e a)

-- What is recorded behind an event of a round counts as fired since that round.
fired_since-recorded :
    (rn : ℕ) (current : Option ℕ) (xs ys : List Event) (e : Event)
    → is_assessment e ≡ true
    → occurs rn (tag_rounds current (xs ++ e ∷ [])) ≡ true
    → fired_since rn (tag_rounds current (xs ++ e ∷ ys)) ≡ true
unfolding fired_since tag_rounds
fired_since-recorded rn current [] ys e a h = elim (Bool-cases (has_tag rn (tag_of current e))) [
  | inl b ↦ rw (b, a) refl
  | inr b ↦ absurd (ground (arith, h, b))
]
fired_since-recorded rn current (x ∷ xs) ys e a h =
    elim (Bool-cases (has_tag rn (tag_of current x))) [
      | inl b ↦ rw b (ground (arith, recorded_later (tag_of current x) xs ys e a))
      | inr b ↦ rw b (fired_since-recorded rn (tag_of current x) xs ys e a (ground (arith, h, b)))
    ]

any-reverse : (p : ℕ → Bool) (ns : List ℕ) → any p (reverse ns) ≡ true → any p ns ≡ true
any-reverse p [] h = h
any-reverse p (n ∷ ns) h = elim (Bool-cases (p n)) [
  | inl b ↦ ground (arith, b)
  | inr b ↦ ground (
    arith,
    b,
    any-reverse p ns (
        ground (
          arith,
          b,
          h,
          ap (any p) (reverse-append (n ∷ []) ns),
          any-append p (reverse ns) (n ∷ []),
        )),
  )
]

unless_moving-fired :
    (k : ℕ) (tagged : List Tagged) (series : Series) (first : ℕ) (earlier : List ℕ)
    → fired_since (episode_start tagged (constant_sig series) first earlier) tagged ≡ true
    → unless_moving k tagged series first earlier ≡ none
unfolding unless_moving unless_fired
unless_moving-fired k tagged series first earlier f = ground (arith, f)

-- Where every completed round has been recorded on, no window gives an advisory.
assess_window-quiet :
    (k : ℕ) (tagged : List Tagged) (window earlier all : List ℕ)
    → ((n : ℕ) → listed n all ≡ true → fired_since n tagged ≡ true)
    → ((n : ℕ) → listed n window ≡ true → listed n all ≡ true)
    → ((n : ℕ) → listed n earlier ≡ true → listed n all ≡ true)
    → assess_window k tagged window earlier ≡ none
unfolding assess_window
assess_window-quiet k tagged [] earlier all f w h = refl
assess_window-quiet k tagged (first ∷ rns) earlier all f w h =
    let series = series_of [] tagged (first ∷ rns) in
    let quiet = unless_moving-fired k tagged series first (reverse earlier) (
      f _ (
        episode_start-listed tagged (constant_sig series) first (reverse earlier) all
          (w first (ground arith)) (λ n l. h n (any-reverse (λ m. m == n) earlier l)))) in
    ground (arith, quiet)

-- Once an assessment is recorded there is no further advisory until a round that begins after it
-- completes: where every completed round has an event up to the assessment, the assessor is silent.
pub assessed_is_quiet :
    (xs ys : List Event) (e : Event) (current_round k : ℕ)
    → is_assessment e ≡ true
    → ((n : ℕ)
        → listed n (completed current_round (xs ++ e ∷ ys)) ≡ true
        → occurs n (tag_rounds none (xs ++ e ∷ [])) ≡ true)
    → assess_treadmill (xs ++ e ∷ ys) current_round k ≡ none
unfolding assess_treadmill
assessed_is_quiet xs ys e current_round k a h =
    let nums = completed current_round (xs ++ e ∷ ys) in
    let quiet =
      assess_window-quiet k (tag_rounds none (xs ++ e ∷ ys)) (last_n k nums)
        (take (length nums - k) nums) nums (λ n l. fired_since-recorded n none xs ys e a (h n l))
        (λ n l. any-drop (λ m. m == n) (length nums - k) nums l)
        (λ n l. any-take (λ m. m == n) (length nums - k) nums l) in
    ground (arith, quiet)
