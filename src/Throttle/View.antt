-- ===== src/Throttle/View.antt =====
-- The composed throttle view of agent_runner/_throttle.py: the scalar and the map agree.
use cli_agent_runner.Throttle.Ladder.{cached_exponent, events_derived_reset}
use cli_agent_runner.Throttle.Merge.{latest_transient-NodupKeys, latest_unrecovered-merged}
use cli_agent_runner.Prelude.{
  ◌≡◌, refl, Option, none, some, [], ◌∷◌, String, str_eq, str_eq_iff, Dict, lookup, lookup-insert,
  lookup-cons, lookup-not_key, NodupKeys, if◌then◌else◌, arith, ℕ, Option-cases, ◌∙◌, inl, inr, ◌↔◌,
  lookup-nil, sym,
}
use cli_agent_runner.Event.{Event, get_str}
use cli_agent_runner.Throttle.Scan.{
  Log, latest_transient_per_agent, latest_unrecovered_detected, backoff_exponent,
}
use cli_agent_runner.Throttle.Active.{
  TransientErrorState, throttle_of, put, active_from, active_throttles, check_throttle_state,
  latest_clearing, effective_throttle_view, coherent_scalar, active_throttles_of,
}

-- What the loop makes of an agent's latest event, over what it held for the agent before.
abbrev pub entry_state :
    Log
    → Dict ℕ
    → ℕ
    → String
    → Option (Option Event)
    → Option TransientErrorState
    → Option TransientErrorState
entry_state log cache now agent none before = before
entry_state log cache now agent (some none) before = before
entry_state log cache now agent (some (some ev)) before =
    elim (throttle_of log cache now agent ev) [ none ↦ before | some s ↦ some s ]

lookup-put :
    (a k : String) (o : Option TransientErrorState) (active : Dict TransientErrorState)
    → lookup a (put k o active)
      ≡ elim o [ none ↦ lookup a active | some s ↦ if str_eq k a then some s else lookup a active ]
unfolding put
lookup-put a k none active = refl
lookup-put a k (some s) active = lookup-insert a k s active

module _ (log : Log) (cache : Dict ℕ) (now : ℕ) where
  lookup-active_from :
      (latest : Dict (Option Event)) (active : Dict TransientErrorState) (a : String)
      → NodupKeys latest
      → lookup a (active_from log cache now active latest)
        ≡ entry_state log cache now a (lookup a latest) (lookup a active)
  unfolding active_from
  lookup-active_from [] active a h = unfold lookup in refl
  lookup-active_from ((k, none) ∷ latest) active a h = ground (
    arith,
    lookup-active_from latest active a h.1,
    lookup-cons a k none latest,
    str_eq_iff k a,
    lookup-not_key k latest h.0,
  )
  lookup-active_from ((k, some ev) ∷ latest) active a h =
      let o = throttle_of log cache now k ev in
      ground (
        arith,
        lookup-active_from latest (put k o active) a h.1,
        lookup-cons a k (some ev) latest,
        str_eq_iff k a,
        lookup-not_key k latest h.0,
        lookup-put a k o active,
      )

pub lookup-active :
    (log : Log) (now : ℕ) (a : String)
    → lookup a (active_throttles log now)
      ≡ entry_state log [] now a (lookup a (latest_transient_per_agent log)) none
unfolding active_throttles
lookup-active log now a =
    lookup-active_from log [] now (latest_transient_per_agent log) [] a
      (latest_transient-NodupKeys log)
    ∙ unfold lookup in refl

cached_exponent-nil : (log : Log) (a : String) → cached_exponent [] log a ≡ backoff_exponent log a
unfolding cached_exponent lookup
cached_exponent-nil log a = refl

throttle_of-cache :
    (log : Log) (cache : Dict ℕ) (now : ℕ) (a : String) (ev : Event)
    → cached_exponent cache log a ≡ backoff_exponent log a
    → throttle_of log cache now a ev ≡ throttle_of log [] now a ev
unfolding throttle_of events_derived_reset
throttle_of-cache log cache now a ev h = rw (h, cached_exponent-nil log a)

entry_state-cache :
    (log : Log) (cache : Dict ℕ) (now : ℕ) (a : String) (latest : Option (Option Event))
    (before : Option TransientErrorState)
    → cached_exponent cache log a ≡ backoff_exponent log a
    → entry_state log cache now a latest before ≡ entry_state log [] now a latest before
entry_state-cache log cache now a none before h = refl
entry_state-cache log cache now a (some none) before h = refl
entry_state-cache log cache now a (some (some ev)) before h =
    rw (throttle_of-cache log cache now a ev h, entry_state)

-- An exponent cache that tells the truth about an agent does not change its throttle.
pub active-cache :
    (log : Log) (cache : Dict ℕ) (now : ℕ) (a : String)
    → cached_exponent cache log a ≡ backoff_exponent log a
    → lookup a (active_throttles_of log cache (latest_transient_per_agent log) now)
      ≡ lookup a (active_throttles log now)
unfolding active_throttles
active-cache log cache now a h =
    let latest = latest_transient_per_agent log in
    let u = latest_transient-NodupKeys log in
    lookup-active_from log cache now latest [] a u
    ∙ entry_state-cache log cache now a (lookup a latest) (lookup a []) h
    ∙ sym (lookup-active_from log [] now latest [] a u)

throttle_of-agent :
    (log : Log) (cache : Dict ℕ) (now : ℕ) (a : String) (ev : Event) (s : TransientErrorState)
    → throttle_of log cache now a ev ≡ some s
    → s.agent ≡ a
unfolding throttle_of
throttle_of-agent log cache now a ev s h = ground arith

-- The scalar of the global scan is the entry that its agent has in the merged map.
pub check-active :
    (log : Log) (now : ℕ) (s : TransientErrorState)
    → check_throttle_state log now ≡ some s
    → lookup s.agent (active_throttles log now) ≡ some s
unfolding check_throttle_state
check-active log now s h = elim (Option-cases (latest_unrecovered_detected log)) [
  | inl e ↦ absurd (ground arith)
  | inr (ev, e) ↦
      let a = get_str "agent" "unknown" ev in
      ground (
        arith,
        lookup-active log now s.agent,
        latest_unrecovered-merged log ev,
        throttle_of-agent log [] now a ev s,
      )
]

-- Each entry stands under its own agent.
abbrev Labelled : Dict TransientErrorState → Type 0
Labelled [] = Unit
Labelled ((k, s) ∷ d) = (s.agent ≡ k) × Labelled d

abbrev Good : Dict TransientErrorState → Type 0
Good d = NodupKeys d × Labelled d

-- Every entry of the list is found in the dict d under its agent.
abbrev Held : Dict TransientErrorState → Dict TransientErrorState → Type 0
Held d [] = Unit
Held d ((k, s) ∷ rest) = (lookup s.agent d ≡ some s) × Held d rest

latest_clearing-none : (d : Dict TransientErrorState) → (latest_clearing d ≡ none) ↔ (d ≡ [])
unfolding latest_clearing
latest_clearing-none [] = (λ h. refl, λ h. refl)
latest_clearing-none ((k, s) ∷ d) = (λ h. cc, λ h. cc)

-- The scalar is empty exactly when the map is.
pub view-none_iff :
    (log : Log) (now : ℕ)
    → ((effective_throttle_view log now).0 ≡ none) ↔ ((effective_throttle_view log now).1 ≡ [])
unfolding effective_throttle_view coherent_scalar
view-none_iff log now = elim (Option-cases (check_throttle_state log now)) [
  | inl e ↦ rw (e, coherent_scalar) (latest_clearing-none _)
  | inr (t, e) ↦
      let held = check-active log now t e in
      (
        λ h. absurd (ground arith),
        λ h. absurd (ground (arith, lookup-nil {V = TransientErrorState} t.agent)),
      )
]
