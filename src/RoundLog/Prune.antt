-- ===== src/RoundLog/Prune.antt =====
-- What agent_runner/round_log.py keeps when it prunes.
use cli_agent_runner.Prelude.{
  ◌++◌, Bool-cases, List, [], ap, arith, drop, inl, inr, leb, length, refl, suc, take, tests, zero,
  ℕ, ◌∷◌, ◌≡◌, ◌≤◌, ◌==◌, length-drop, length-take, ltb, take-drop,
}
use mathlib.Core.List.{Perm, append-nil}
use mathlib.Core.List.Perm
use cli_agent_runner.RoundLog.{Candidate, insert_desc, sort_desc, prune}

module _ {ℓ} {A : Type ℓ} where
  -- No key of the list is above n.
  abbrev pub NotAbove : ℕ → List (Candidate A) → Type 0
  NotAbove n [] = Unit
  NotAbove n (d ∷ ds) = (d.1 ≤ n) × NotAbove n ds

  -- Every key of the first list is at or above every key of the second.
  abbrev pub Above : List (Candidate A) → List (Candidate A) → Type 0
  Above [] gone = Unit
  Above (c ∷ cs) gone = NotAbove c.1 gone × Above cs gone

  abbrev Descending : List (Candidate A) → Type 0
  Descending [] = Unit
  Descending (c ∷ cs) = NotAbove c.1 cs × Descending cs

  NotAbove-mono : (m n : ℕ) (cs : List (Candidate A)) → m ≤ n → NotAbove m cs → NotAbove n cs
  NotAbove-mono m n [] h a = tt
  NotAbove-mono m n (c ∷ cs) h a = (omega arith, NotAbove-mono m n cs h a.1)

  insert_desc-NotAbove :
      (n : ℕ) (c : Candidate A) (ds : List (Candidate A))
      → c.1 ≤ n
      → NotAbove n ds
      → NotAbove n (insert_desc c ds)
  unfolding insert_desc
  insert_desc-NotAbove n c [] h a = (h, tt)
  insert_desc-NotAbove n c (d ∷ ds) h a = ground (arith, insert_desc-NotAbove n c ds h a.1)

  insert_desc-Descending :
      (c : Candidate A) (ds : List (Candidate A)) → Descending ds → Descending (insert_desc c ds)
  unfolding insert_desc
  insert_desc-Descending c [] h = (tt, tt)
  insert_desc-Descending c (d ∷ ds) h = elim (Bool-cases (leb d.1 c.1)) [
    | inl e ↦ rw e ((omega tests, NotAbove-mono d.1 c.1 ds (omega tests) h.0), h)
    | inr e ↦
        rw e
          (insert_desc-NotAbove d.1 c ds (ground (arith, e)) h.0, insert_desc-Descending c ds h.1)
  ]

  sort_desc-Descending : (cs : List (Candidate A)) → Descending (sort_desc cs)
  unfolding sort_desc
  sort_desc-Descending [] = tt
  sort_desc-Descending (c ∷ cs) = insert_desc-Descending c (sort_desc cs) (sort_desc-Descending cs)

  insert_desc-perm : (c : Candidate A) (ds : List (Candidate A)) → Perm (insert_desc c ds) (c ∷ ds)
  unfolding insert_desc
  insert_desc-perm c [] = Perm.refl (c ∷ [])
  insert_desc-perm c (d ∷ ds) = elim (Bool-cases (leb d.1 c.1)) [
    | inl e ↦ rw e (Perm.refl (c ∷ d ∷ ds))
    | inr e ↦ rw e (Perm.trans (Perm.cons d (insert_desc-perm c ds)) (Perm.swap c d ds))
  ]

  sort_desc-perm : (cs : List (Candidate A)) → Perm (sort_desc cs) cs
  unfolding sort_desc
  sort_desc-perm [] = Perm.refl []
  sort_desc-perm (c ∷ cs) =
      Perm.trans (insert_desc-perm c (sort_desc cs)) (Perm.cons c (sort_desc-perm cs))

  drop-NotAbove : (m n : ℕ) (cs : List (Candidate A)) → NotAbove m cs → NotAbove m (drop n cs)
  drop-NotAbove m zero cs h = h
  drop-NotAbove m (suc n) [] h = tt
  drop-NotAbove m (suc n) (c ∷ cs) h = drop-NotAbove m n cs h.1

  take-Above-drop :
      (n : ℕ) (cs : List (Candidate A)) → Descending cs → Above (take n cs) (drop n cs)
  take-Above-drop zero cs h = tt
  take-Above-drop (suc n) [] h = tt
  take-Above-drop (suc n) (c ∷ cs) h = (drop-NotAbove c.1 n cs h.0, take-Above-drop n cs h.1)

  Above-nil : (cs : List (Candidate A)) → Above cs []
  Above-nil [] = tt
  Above-nil (c ∷ cs) = (tt, Above-nil cs)

  -- The files that a prune leaves, by those that it unlinks.
  abbrev pub left_by : ℕ → List (Candidate A) → List (Candidate A) → List (Candidate A)
  left_by keep cs [] = sort_desc cs
  left_by keep cs (g ∷ gs) = take keep (sort_desc cs)

  abbrev pub TakesOldest : ℕ → List (Candidate A) → List (Candidate A) → Type ℓ
  TakesOldest keep cs gone =
      Perm (left_by keep cs gone ++ gone) cs
      × Above (left_by keep cs gone) gone
      × (length gone ≤ length (left_by keep cs gone))

  none-TakesOldest : (keep : ℕ) (cs : List (Candidate A)) → TakesOldest keep cs []
  none-TakesOldest keep cs =
      (rw append-nil (sort_desc-perm cs), Above-nil (sort_desc cs), omega arith)

  split-TakesOldest :
      (keep : ℕ) (cs gone : List (Candidate A))
      → drop keep (sort_desc cs) ≡ gone
      → length gone ≤ keep
      → TakesOldest keep cs gone
  split-TakesOldest keep cs [] e h = none-TakesOldest keep cs
  split-TakesOldest keep cs (g ∷ gs) e h =
      let logs = sort_desc cs in
      (
        rw (← e, take-drop keep logs) (sort_desc-perm cs),
        rw (← e) (take-Above-drop keep logs (sort_desc-Descending cs)),
        omega (arith, ap length e, length-take keep logs, length-drop keep logs, h),
      )

  -- A prune only takes the oldest: what it leaves and what it unlinks are together the candidates, no
  -- unlinked file is newer than one that is left, and it never unlinks more files than it leaves.
  pub prune_oldest : (keep : ℕ) (cs : List (Candidate A)) → TakesOldest keep cs (prune keep cs).1
  unfolding prune
  prune_oldest keep cs = elim (Bool-cases (keep == 0)) [
    | inl e ↦ rw e (none-TakesOldest keep cs)
    | inr e ↦ elim (Bool-cases (ltb keep (length (drop keep (sort_desc cs))))) [
      | inl t ↦ rw (e, t) (none-TakesOldest keep cs)
      | inr t ↦
          rw (e, t) (split-TakesOldest keep cs (drop keep (sort_desc cs)) refl (ground (arith, t)))
    ]
  ]
