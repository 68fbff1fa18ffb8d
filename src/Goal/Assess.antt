-- ===== src/Goal/Assess.antt =====
-- `assess_treadmill` of agent_runner/goal.py, over the events tail.
use cli_agent_runner.EventLog.{names}
use cli_agent_runner.RoundOutcome.{start}
use cli_agent_runner.Event.Fields.{round_of}
use mathlib.Core.List.{reverse}
use cli_agent_runner.Prelude.{
  ◌&&◌, ◌*◌, ◌+◌, ◌++◌, ◌-◌, ◌==◌, Bool, Dict, List, Option, String, [], ◌^◌, any, if◌then◌else◌,
  false, insert, is_empty, last_n, length, lookup, ltb, map, negsuc, none, not, pos, some, str_eq,
  take, true, ◌||◌, ℕ, ℤ, ◌∷◌, codes, text_less,
}
use cli_agent_runner.Goal.{Number, CheckEntry, Signature, Advisory}
use cli_agent_runner.Event.{Value, Event, bool, int, float, str, is_kind, truthy}

abbrev pub Tagged : Type 0
Tagged = Option ℕ × Event

-- An event without a number belongs to the round of the event before it.
abbrev pub tag_of : Option ℕ → Event → Option ℕ
tag_of current e = elim (round_of e) [ none ↦ current | some n ↦ some n ]

unfoldable pub tag_rounds : Option ℕ → List Event → List Tagged
tag_rounds current [] = []
tag_rounds current (e ∷ es) = (tag_of current e, e) ∷ tag_rounds (tag_of current e) es

-- `sorted` of a set.
unfoldable pub insert_round : ℕ → List ℕ → List ℕ
insert_round n [] = n ∷ []
insert_round n (m ∷ ms) =
    let rest = insert_round n ms in
    if ltb n m then n ∷ m ∷ ms else if n == m then m ∷ ms else m ∷ rest

abbrev pub note_round : ℕ → Option ℕ → List ℕ → List ℕ
note_round current_round none nums = nums
note_round current_round (some n) nums = if ltb n current_round then insert_round n nums else nums

-- The completed rounds, in their order.
unfoldable pub round_nums : ℕ → List ℕ → List Tagged → List ℕ
round_nums current_round nums [] = nums
round_nums current_round nums ((tag, e) ∷ ts) =
    round_nums current_round (note_round current_round tag nums) ts

abbrev pub has_tag : ℕ → Option ℕ → Bool
has_tag rn none = false
has_tag rn (some n) = n == rn

-- `buckets.get(rn, [])`.
unfoldable pub bucket : ℕ → List Tagged → List Event
bucket rn [] = []
bucket rn ((tag, e) ∷ ts) = let rest = bucket rn ts in if has_tag rn tag then e ∷ rest else rest

abbrev pub head_text : Option Value → Option String
head_text (some (str s)) = some s
head_text _ = none

abbrev pub Heads : Type 0
Heads = Option String × Option String

abbrev pub note_head : Heads → Event → Heads
note_head (before, after) e =
    if is_kind "round_substrate_before" e
    then (head_text (lookup "git_head" e), after)
    else if is_kind "round_substrate_after" e
    then (before, head_text (lookup "git_head" e))
    else (before, after)

unfoldable pub note_heads : Heads → List Event → Heads
note_heads hs [] = hs
note_heads hs (e ∷ es) = note_heads (note_head hs e) es

abbrev pub differ : Heads → Bool
differ (some a, some b) = not (str_eq a b)
differ _ = false

unfoldable pub git_head_moved : List Event → Bool
unfolding note_heads
git_head_moved events = differ (note_heads (none, none) events)

abbrev pub is_dirty : Event → Bool
is_dirty e = is_kind "dirty_detected" e || is_kind "dirty_auto_committed" e

unfoldable pub round_has_activity : List Event → Bool
unfolding git_head_moved
round_has_activity events = any is_dirty events || git_head_moved events

unfoldable pub coerced_check_value : Option Value → Option Number
coerced_check_value (some (bool b)) =
    some (record { numerator = if b then pos 1 else pos 0; scale = 0 })
coerced_check_value (some (int z)) = some (record { numerator = z; scale = 0 })
coerced_check_value (some (float z k r)) = some (record { numerator = z; scale = k })
coerced_check_value _ = none

-- One event of a round's signature.
unfoldable pub note_check : Signature → Event → Signature
unfolding coerced_check_value
note_check sig e =
    if not (is_kind "goal_check" e) || truthy (lookup "skipped" e)
    then sig
    else elim (head_text (lookup "name" e)) [
      | none ↦ sig
      | some name ↦
          insert name (truthy (lookup "satisfied" e), coerced_check_value (lookup "value" e)) sig
    ]

unfoldable pub check_signature : Signature → List Event → Signature
check_signature sig [] = sig
check_signature sig (e ∷ es) = check_signature (note_check sig e) es

scaled : ℤ → ℕ → ℤ
scaled (pos n) k = pos (n * 2 ^ k)
scaled (negsuc n) k = negsuc ((n + 1) * 2 ^ k - 1)

same_ℤ : ℤ → ℤ → Bool
same_ℤ (pos m) (pos n) = m == n
same_ℤ (negsuc m) (negsuc n) = m == n
same_ℤ _ _ = false

same_value : Option Number → Option Number → Bool
unfolding scaled same_ℤ
same_value none none = true
same_value (some a) (some b) = same_ℤ (scaled a.numerator b.scale) (scaled b.numerator a.scale)
same_value _ _ = false

abbrev pub same_bool : Bool → Bool → Bool
same_bool true b = b
same_bool false b = not b

unfoldable pub same_entry : CheckEntry → CheckEntry → Bool
unfolding same_value
same_entry (b, v) (c, w) = same_bool b c && same_value v w

-- `a == b` of two dicts.
unfoldable pub all_found : Signature → Signature → Bool
unfolding same_entry
all_found [] b = true
all_found ((name, entry) ∷ a) b =
    elim (lookup name b) [ none ↦ false | some found ↦ same_entry entry found ] && all_found a b

unfoldable pub same_signature : Signature → Signature → Bool
unfolding all_found
same_signature a b = (length a == length b) && all_found a b

-- `check_series`: per check, what it said in the rounds of the window in which it appeared.
abbrev pub Series : Type 0
Series = Dict (List CheckEntry)

unfoldable pub add_entry : Series → String → CheckEntry → Series
add_entry series name entry =
    insert name (elim (lookup name series) [ none ↦ entry ∷ [] | some l ↦ l ++ entry ∷ [] ]) series

unfoldable pub add_signature : Series → Signature → Series
unfolding add_entry
add_signature series [] = series
add_signature series ((name, entry) ∷ sig) = add_signature (add_entry series name entry) sig

unfoldable pub series_of : Series → List Tagged → List ℕ → Series
unfolding add_signature check_signature
series_of series tagged [] = series
series_of series tagged (rn ∷ rns) =
    series_of (add_signature series (check_signature [] (bucket rn tagged))) tagged rns

-- All of a check's entries are the same.
abbrev pub constant : List CheckEntry → Bool
constant [] = true
constant (e ∷ es) = not (any (λ f. not (same_entry e f)) es)

abbrev pub no_entry : CheckEntry
no_entry = (false, none)

abbrev pub first_entry : List CheckEntry → CheckEntry
first_entry [] = no_entry
first_entry (e ∷ es) = e

unfoldable pub constant_sig : Series → Signature
constant_sig [] = []
constant_sig ((name, l) ∷ series) = (name, first_entry l) ∷ constant_sig series

-- The walk back from the window: the first round of the episode.
unfoldable pub episode_start : List Tagged → Signature → ℕ → List ℕ → ℕ
unfolding same_signature round_has_activity check_signature
episode_start tagged sig start [] = start
episode_start tagged sig start (rn ∷ earlier) =
    let further = episode_start tagged sig rn earlier in
    if not (round_has_activity (bucket rn tagged))
    then start
    else if not (same_signature (check_signature [] (bucket rn tagged)) sig)
    then start
    else further

-- `any` over `tagged[start_idx:]`.
unfoldable pub fired_since : ℕ → List Tagged → Bool
fired_since rn [] = false
fired_since rn ((tag, e) ∷ ts) =
    let rest = fired_since rn ts in
    if has_tag rn tag then any (λ t. is_kind "goal_assessment" t.1) ((tag, e) ∷ ts) else rest

-- `sorted` of the names.
unfoldable pub insert_name : String → List String → List String
unfolding codes text_less
insert_name a [] = a ∷ []
insert_name a (b ∷ bs) =
    let rest = insert_name a bs in if text_less (codes b) (codes a) then b ∷ rest else a ∷ b ∷ bs

unfoldable pub sorted_names : List String → List String
unfolding insert_name
sorted_names [] = []
sorted_names (a ∷ names) = insert_name a (sorted_names names)

-- The third gate, with the rounds before the window, the newest first.
unfoldable pub unless_fired : ℕ → List Tagged → Series → ℕ → List ℕ → Option Advisory
unfolding episode_start fired_since constant_sig sorted_names
unless_fired k tagged series first earlier =
    if fired_since (episode_start tagged (constant_sig series) first earlier) tagged
    then none
    else some (record { rounds = k; checks = sorted_names (map (λ e. e.0) series) })

-- The second gate.
unfoldable pub unless_moving : ℕ → List Tagged → Series → ℕ → List ℕ → Option Advisory
unfolding unless_fired
unless_moving k tagged series first earlier =
    if is_empty series
    then none
    else if any (λ e. not (constant e.1)) series
    then none
    else if not (any (λ e. not e.1.0) (constant_sig series))
    then none
    else unless_fired k tagged series first earlier

-- On a window, and the rounds before it.
unfoldable pub assess_window : ℕ → List Tagged → List ℕ → List ℕ → Option Advisory
unfolding unless_moving series_of round_has_activity
assess_window k tagged [] earlier = none
assess_window k tagged (first ∷ rns) earlier =
    if any (λ rn. not (round_has_activity (bucket rn tagged))) (first ∷ rns)
    then none
    else unless_moving k tagged (series_of [] tagged (first ∷ rns)) first (reverse earlier)

-- On the events of the newest two monthly files; k is 3.
unfoldable pub assess_treadmill : List Event → ℕ → ℕ → Option Advisory
unfolding assess_window round_nums tag_rounds
assess_treadmill tail current_round k =
    let tagged = tag_rounds none tail in
    let nums = round_nums current_round [] tagged in
    if ltb (length nums) k
    then none
    else assess_window k tagged (last_n k nums) (take (length nums - k) nums)
