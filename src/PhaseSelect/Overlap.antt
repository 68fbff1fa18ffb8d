-- ===== src/PhaseSelect/Overlap.antt =====
-- The check of agent_runner/phase_select.py for phases whose windows collide.
use cli_agent_runner.Schedule.{Window, contains, minutes_per_day}
use cli_agent_runner.PhaseSelect.{Config, Profile}
use cli_agent_runner.Prelude.{
  ◌&&◌, ◌++◌, Bool, List, Option, String, [], any, if◌then◌else◌, false, is_empty, lookup, none,
  not, some, str_eq, suc, true, zero, ◌||◌, ℕ, ◌∷◌,
}

unfoldable pub effectively_open : Window → List Window → ℕ → ℕ → Bool
effectively_open w pauses d m = contains w d m && not (any (λ p. contains p d m) pauses)

-- `any(p(x) for x in range(n))`.
unfoldable pub any_below : ℕ → (ℕ → Bool) → Bool
any_below zero p = false
any_below (suc n) p = any_below n p || p n

unfoldable pub windows_collide : Window → Window → List Window → List Window → Bool
unfolding any_below effectively_open
windows_collide a b pause_a pause_b = any_below 7 (λ d.
    any_below minutes_per_day
      (λ m. effectively_open a pause_a d m && effectively_open b pause_b d m))

pub record Candidate : Type 0 where
  pub phase : String
  pub profile : Profile

has_windows : Option Profile → Bool
has_windows none = false
has_windows (some s) = not (is_empty s.run_windows)

-- The phases that override both the agent and the run windows.
unfoldable pub overlap_candidates : Config → List String → List Candidate
unfolding has_windows
overlap_candidates cfg [] = []
overlap_candidates cfg (p ∷ ps) =
    let rest = overlap_candidates cfg ps in
    elim (lookup p cfg.overrides) [
      | none ↦ rest
      | some ov ↦
          if ov.agent && has_windows ov.schedule
          then record { phase = p; profile = cfg.profile_for (some p) } ∷ rest
          else rest
    ]

pub record WindowOverlap : Type 0 where
  pub phase_a : String
  pub phase_b : String
  pub window_a : String
  pub window_b : String

-- The first colliding pair of the two phases' windows.
hit_b : Window → Candidate → Candidate → List Window → Option (Window × Window)
hit_b wa a b [] = none
hit_b wa a b (wb ∷ wbs) =
    let rest = hit_b wa a b wbs in
    if windows_collide wa wb a.profile.pause_windows b.profile.pause_windows
    then some (wa, wb)
    else rest

hit_a : Candidate → Candidate → List Window → Option (Window × Window)
unfolding hit_b
hit_a a b [] = none
hit_a a b (wa ∷ was) =
    let rest = hit_a a b was in
    elim (hit_b wa a b b.profile.run_windows) [ none ↦ rest | some hit ↦ some hit ]

same_zone : Option String → Option String → Bool
same_zone none none = true
same_zone (some s) (some t) = str_eq s t
same_zone _ _ = false

overlap_of : Candidate → Candidate → List WindowOverlap
unfolding hit_a same_zone
overlap_of a b =
    if not (same_zone a.profile.timezone b.profile.timezone)
    then []
    else elim (hit_a a b a.profile.run_windows) [
      | none ↦ []
      | some (wa, wb) ↦
          record { phase_a = a.phase; phase_b = b.phase; window_a = wa.label; window_b = wb.label }
          ∷ []
    ]

overlaps_with : Candidate → List Candidate → List WindowOverlap
unfolding overlap_of
overlaps_with a [] = []
overlaps_with a (b ∷ bs) = overlap_of a b ++ overlaps_with a bs

-- `itertools.combinations(candidates, 2)`.
overlaps_among : List Candidate → List WindowOverlap
unfolding overlaps_with
overlaps_among [] = []
overlaps_among (a ∷ as') = overlaps_with a as' ++ overlaps_among as'

unfoldable pub find_phase_window_overlaps : Config → List WindowOverlap
unfolding overlaps_among overlap_candidates
find_phase_window_overlaps cfg = overlaps_among (overlap_candidates cfg cfg.phases)
