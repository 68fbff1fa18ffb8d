-- ===== src/Prelude/Chars.antt =====
-- Texts as their code points, and the white space that `str.strip` removes, as far as it is ASCII.
use Prim.Native.Nat.{ℕ}
use Prim.Native.Char.{code}
use Prim.Native.String.{String}
use mathlib.Core.Path.{◌≡◌, refl, ap₂}
use native.Mathlib.Omega.{arith}
use mathlib.Core.Bool.{Bool, true, false, ◌&&◌, ◌||◌, false}
use mathlib.Core.List.{List, [], ◌∷◌, reverse}
use cli_agent_runner.Prelude.Tests.{leb, ltb, ◌==◌, if◌then◌else◌}

unfoldable pub codes : String → List ℕ
codes String.[] = []
codes (String.◌∷◌ c s) = code c ∷ codes s

unfoldable pub is_digit : ℕ → Bool
is_digit c = leb b'0' c && leb c b'9'

unfoldable pub is_space : ℕ → Bool
is_space c = (leb 9 c && leb c 13) || (leb 28 c && leb c 32)

unfoldable pub strip_left : List ℕ → List ℕ
unfolding is_space
strip_left [] = []
strip_left (c ∷ cs) = let rest = strip_left cs in if is_space c then rest else c ∷ cs

unfoldable pub strip : List ℕ → List ℕ
unfolding strip_left
strip cs = reverse (strip_left (reverse (strip_left cs)))

-- `a < b` of texts.
unfoldable pub text_less : List ℕ → List ℕ → Bool
text_less cs [] = false
text_less [] (d ∷ ds) = true
text_less (c ∷ cs) (d ∷ ds) = let rest = text_less cs ds in if ltb c d then true else c == d && rest

unfoldable pub same_codes : List ℕ → List ℕ → Bool
same_codes [] [] = true
same_codes (c ∷ cs) (d ∷ ds) = c == d && same_codes cs ds
same_codes _ _ = false

pub same_codes-eq : (a b : List ℕ) → same_codes a b ≡ true → a ≡ b
unfolding same_codes
same_codes-eq [] [] h = refl
same_codes-eq [] (d ∷ ds) h = absurd (ground (arith, h))
same_codes-eq (c ∷ cs) [] h = absurd (ground (arith, h))
same_codes-eq (c ∷ cs) (d ∷ ds) h =
    ap₂ (λ x xs. x ∷ xs) (ground (arith, h)) (same_codes-eq cs ds (ground (arith, h)))

-- `text.startswith(prefix)`.
unfoldable pub starts_with : List ℕ → List ℕ → Bool
starts_with [] cs = true
starts_with (p ∷ ps) [] = false
starts_with (p ∷ ps) (c ∷ cs) = p == c && starts_with ps cs

abbrev is_nil : List ℕ → Bool
is_nil [] = true
is_nil (c ∷ cs) = false

-- `part in text`.
unfoldable pub is_within : List ℕ → List ℕ → Bool
is_within part [] = is_nil part
is_within part (c ∷ cs) = starts_with part (c ∷ cs) || is_within part cs
