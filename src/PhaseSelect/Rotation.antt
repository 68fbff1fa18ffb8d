-- ===== src/PhaseSelect/Rotation.antt =====
-- The rotation of the phases in agent_runner/phase_select.py.
use mathlib.Core.List.{map-append}
use mathlib.Core.Path.{ap₂}
use native.Mathlib.Nat.{mod-eq_of_lt, mod-lt}
use native.Mathlib.Numerals.{add-one}
use cli_agent_runner.PhaseSelect.{Config, candidate_phases, rotate_from, rotation_index}
use cli_agent_runner.Prelude.{
  ◌%◌, ◌+◌, ◌++◌, List, Option, String, [], ap, arith, drop, get_elem?, length, map, refl, some,
  suc, take, true, zero, ℕ, ◌∙◌, ◌∷◌, ◌≡◌, ◌≢◌, ◌≤◌, ◌-◌, ◌<◌, false, is_empty, length-drop, sym,
}

-- The elements at j, j + 1, ….
slice : List String → ℕ → ℕ → List (Option String)
slice xs zero j = []
slice xs (suc n) j = get_elem? xs j ∷ slice xs n (j + 1)

slice-suc : (x : String) (xs : List String) (n j : ℕ) → slice (x ∷ xs) n (suc j) ≡ slice xs n j
unfolding slice
slice-suc x xs zero j = refl
slice-suc x xs (suc n) j =
    rw (add-one (suc j), add-one j) (ap (λ l. get_elem? xs j ∷ l) (slice-suc x xs n (suc j)))

slice-take :
    (xs : List String) (n j : ℕ) → j + n ≤ length xs → slice xs n j ≡ map some (take n (drop j xs))
unfolding slice
slice-take xs zero j h = refl
slice-take [] (suc n) j h = absurd (omega arith)
slice-take (x ∷ xs) (suc n) zero h =
    ap (λ l. some x ∷ l) (slice-suc x xs n 0 ∙ slice-take xs n 0 (omega arith))
slice-take (x ∷ xs) (suc n) (suc j) h =
    slice-suc x xs (suc n) j ∙ slice-take xs (suc n) j (omega arith)

take-all : (n : ℕ) (xs : List String) → length xs ≤ n → take n xs ≡ xs
take-all zero [] h = refl
take-all zero (x ∷ xs) h = absurd (omega arith)
take-all (suc n) [] h = refl
take-all (suc n) (x ∷ xs) h = ap (λ l. x ∷ l) (take-all n xs (omega arith))

module _ (xs : List String) (k : ℕ) where
  -- The part of the rotation before the end of the list, and the part after it.
  rotate-before :
      (n left i : ℕ) → k + i + left ≤ n → rotate_from xs k n left i ≡ slice xs left (k + i)
  unfolding rotate_from slice
  rotate-before n zero i h = refl
  rotate-before n (suc left) i h =
      let index : (k + i) % n ≡ k + i = mod-eq_of_lt (omega arith) in
      let next : k + (i + 1) ≡ k + i + 1 = omega arith in
      rw index (
        ap (λ l. get_elem? xs (k + i) ∷ l)
          (rotate-before n left (i + 1) (omega arith) ∙ ap (slice xs left) next))

  rotate-after :
      (n left i j : ℕ) → k + i ≡ n + j → j + left ≤ n → rotate_from xs k n left i ≡ slice xs left j
  unfolding rotate_from slice
  rotate-after n zero i j e h = refl
  rotate-after n (suc left) i j e h =
      let index : (k + i) % n ≡ j = grind arith in
      rw index (
        ap (λ l. get_elem? xs j ∷ l)
          (rotate-after n left (i + 1) (j + 1) (omega arith) (omega arith)))

  rotate-add :
      (n a b i : ℕ)
      → rotate_from xs k n (a + b) i ≡ rotate_from xs k n a i ++ rotate_from xs k n b (i + a)
  unfolding rotate_from
  rotate-add n zero b i =
      let left : 0 + b ≡ b = omega arith in let at : i + 0 ≡ i = omega arith in rw (left, at)
  rotate-add n (suc a) b i =
      let left : suc a + b ≡ suc (a + b) = omega arith in
      let at : i + suc a ≡ i + 1 + a = omega arith in
      rw (left, at) (ap (λ l. get_elem? xs ((k + i) % n) ∷ l) (rotate-add n a b (i + 1)))

  head_part : k ≤ length xs → rotate_from xs k (length xs) (length xs - k) 0 ≡ map some (drop k xs)
  head_part h =
      let n = length xs in
      let at : k + 0 ≡ k = omega arith in
      rotate-before n (n - k) 0 (omega arith)
      ∙ slice-take xs (n - k) (k + 0) (omega arith)
      ∙ ap (λ j. map some (take (n - k) (drop j xs))) at
      ∙ ap (map some) (take-all (n - k) (drop k xs) (omega (arith, length-drop k xs)))

  tail_part :
      k ≤ length xs → rotate_from xs k (length xs) k (0 + (length xs - k)) ≡ map some (take k xs)
  tail_part h =
      let n = length xs in
      rotate-after n k (0 + (n - k)) 0 (omega arith) (omega arith) ∙ slice-take xs k 0 (omega arith)

  rotation :
      k ≤ length xs → rotate_from xs k (length xs) (length xs) 0 ≡ map some (drop k xs ++ take k xs)
  rotation h =
      let n = length xs in
      let parts : n ≡ (n - k) + k = omega arith in
      ap (λ m. rotate_from xs k n m 0) parts
      ∙ rotate-add n (n - k) k 0
      ∙ ap₂ (λ l m. l ++ m) (head_part h) (tail_part h)
      ∙ sym (map-append some (drop k xs) (take k xs))

nonempty : (xs : List String) → xs ≢ [] → is_empty xs ≡ false
nonempty [] h = absurd (h refl)
nonempty (x ∷ xs) h = refl

nonempty-length : (xs : List String) → xs ≢ [] → 0 < length xs
nonempty-length [] h = absurd (h refl)
nonempty-length (x ∷ xs) h = omega arith

rotation_index-le : (round_num n : ℕ) → 0 < n → rotation_index round_num n ≤ n
unfolding rotation_index
rotation_index-le round_num n h = omega (arith, mod-lt (round_num + n - 1) h)

-- Under the policy "skip" the candidates are all phases, from the round's own to the end of the list and
-- then from its start.
pub candidates-rotation :
    (cfg : Config) (round_num : ℕ)
    → cfg.skips ≡ true
    → cfg.phases ≢ []
    → let k = rotation_index round_num (length cfg.phases) in
      candidate_phases cfg round_num ≡ map some (drop k cfg.phases ++ take k cfg.phases)
unfolding candidate_phases
candidates-rotation cfg round_num s ne =
    let k = rotation_index round_num (length cfg.phases) in
    rw (s, nonempty cfg.phases ne)
      (rotation cfg.phases k
        (rotation_index-le round_num (length cfg.phases) (nonempty-length cfg.phases ne)))
