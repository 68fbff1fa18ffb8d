-- ===== src/Monitor/Episodes.antt =====
-- `alert_identity` of agent_runner/_monitor_registry.py, and the loop of `_monitor_loop_iter` of
-- agent_runner/_observe.py over its polls.
use cli_agent_runner.Prelude.{
  ◌&&◌, ◌++◌, ◌-◌, ◌==◌, Bool, List, Option, String, [], any, drop, if◌then◌else◌, false, length,
  map, negsuc, none, not, pos, select, some, str_eq, true, ℕ, ℤ, ◌∷◌,
}
use cli_agent_runner.Monitor.{Alert, Context, open_round, orphans, throttled, repeats, silence}
use cli_agent_runner.Monitor.Alerting.{
  name_of, StopResult, OnAlertVerdict, draining, failed, on_alert,
}
use cli_agent_runner.Event.{Value, null, bool, int, float, nonfinite, str, nested}

-- The name, and the values of the fields that identify the episode; the text joins their reprs.
abbrev pub Identity : Type 0
Identity = String × List Value

abbrev pub or_null : Option Value → Value
or_null none = null
or_null (some v) = v

unfoldable pub identity_fields : Context → List Value
identity_fields (open_round rn elapsed threshold) = int (pos rn) ∷ []
identity_fields (orphans streak last) = elim last [ none ↦ null | some n ↦ int (pos n) ] ∷ []
identity_fields (throttled until classification agent) = str agent ∷ int (pos until) ∷ []
identity_fields (repeats count tool target) = or_null tool ∷ or_null target ∷ []
identity_fields (silence age last) = last ∷ []
identity_fields _ = []

unfoldable pub alert_identity : Alert → Identity
unfolding identity_fields name_of
alert_identity a = (name_of a.detector, identity_fields a.context)

same_int : ℤ → ℤ → Bool
same_int (pos m) (pos n) = m == n
same_int (negsuc m) (negsuc n) = m == n
same_int _ _ = false

-- The values have one repr.
same_repr : Value → Value → Bool
unfolding same_int
same_repr null null = true
same_repr (bool true) (bool b) = b
same_repr (bool false) (bool b) = not b
same_repr (int y) (int z) = same_int y z
same_repr (float y j r) (float z k s) = str_eq r s
same_repr (nonfinite r) (nonfinite s) = str_eq r s
same_repr (str r) (str s) = str_eq r s
same_repr (nested b r) (nested c s) = str_eq r s
same_repr _ _ = false

same_fields : List Value → List Value → Bool
same_fields [] [] = true
same_fields (v ∷ vs) (w ∷ ws) = same_repr v w && same_fields vs ws
same_fields _ _ = false

unfoldable pub same_identity : Identity → Identity → Bool
unfolding same_fields same_repr
same_identity (n, vs) (m, ws) = str_eq n m && same_fields vs ws

-- `seen`, the oldest key first.
abbrev pub Seen : Type 0
Seen = List Identity

unfoldable pub remembers : Identity → Seen → Bool
remembers key seen = any (same_identity key) seen

unfoldable pub forget : Identity → Seen → Seen
forget key seen = select (λ k. not (same_identity key k)) seen

abbrev pub monitor_seen_cap : ℕ
monitor_seen_cap = 512

unfoldable pub remember : Identity → Seen → Seen
remember key seen = drop (length (seen ++ key ∷ []) - monitor_seen_cap) (seen ++ key ∷ [])

-- An alert of a poll, with what `api.stop` comes to if it is called; `none` is an `on_alert` that
-- raises.
abbrev pub Firing : Type 0
Firing = Alert × Option StopResult

abbrev pub verdict_on : Option (List String) → Firing → OnAlertVerdict
verdict_on allow (a, none) = failed
verdict_on allow (a, some r) = (on_alert a allow r).verdict

abbrev pub is_draining : OnAlertVerdict → Bool
is_draining draining = true
is_draining _ = false

-- What the loop keeps over the alerts of a poll: `seen`, and the alerts handed on with their verdicts.
abbrev pub Kept : Type 0
Kept = Seen × List (Alert × OnAlertVerdict)

unfoldable pub handle : Option (List String) → Kept → Firing → Kept
unfolding remembers forget remember
handle allow (seen, handed) f =
    let key = alert_identity f.0 in
    let verdict = verdict_on allow f in
    if remembers key seen then (forget key seen ++ key ∷ [], handed) else (
      if is_draining verdict then forget key (remember key seen) else remember key seen,
      handed ++ (f.0, verdict) ∷ [],
    )

unfoldable pub handle_all : Option (List String) → Kept → List Firing → Kept
handle_all allow kept [] = kept
handle_all allow kept (f ∷ fs) = handle_all allow (handle allow kept f) fs

-- Only the keys that fire in this poll survive it.
unfoldable pub still_firing : List Firing → Seen → Seen
unfolding remembers
still_firing fs seen = select (λ k. remembers k (map (λ f. alert_identity f.0) fs)) seen

-- `none` is a poll that raises: the loop sleeps and goes on.
unfoldable pub monitor_poll : Option (List String) → Seen → Option (List Firing) → Kept
unfolding handle_all still_firing
monitor_poll allow seen none = (seen, [])
monitor_poll allow seen (some fs) =
    (still_firing fs (handle_all allow (seen, []) fs).0, (handle_all allow (seen, []) fs).1)

unfoldable pub monitor_loop : Option (List String) → Seen → List (Option (List Firing)) → Kept
unfolding monitor_poll
monitor_loop allow seen [] = (seen, [])
monitor_loop allow seen (p ∷ ps) =
    let (after, handed) = monitor_poll allow seen p in
    let (last, rest) = monitor_loop allow after ps in (last, handed ++ rest)
