-- ===== src/Vcs/Porcelain.antt =====
-- The texts that git prints, as agent_runner/vcs_state.py reads them, and the round trip of a status.
use mathlib.Core.List.{append-nil, append_assoc}
use cli_agent_runner.Prelude.{
  ◌++◌, ◌==◌, Bool, Bool-cases, List, [], any, ap, arith, if◌then◌else◌, false, inl, inr, not, refl,
  true, ◌||◌, ℕ, ◌∙◌, ◌∷◌, ◌≡◌, map,
}
use cli_agent_runner.Vcs.{Text}

-- `text.split(sep)`, from the part already read.
unfoldable pub split_at : ℕ → Text → Text → List Text
split_at sep acc [] = acc ∷ []
split_at sep acc (c ∷ cs) =
    let next = split_at sep [] cs in
    let more = split_at sep (acc ++ c ∷ []) cs in if c == sep then acc ∷ next else more

-- A status of two characters, a space, and the path.
abbrev pub is_record : Text → Bool
is_record (x ∷ y ∷ z ∷ path) = true
is_record _ = false

abbrev pub path_of : Text → Text
path_of (x ∷ y ∷ z ∷ path) = path
path_of _ = []

abbrev pub is_rename : Text → Bool
is_rename (x ∷ y ∷ rest) = x == b'R' || y == b'R'
is_rename _ = false

-- The loop of `_porcelain_paths` over the records: a rename is followed by a record of the old path.
unfoldable pub record_paths : List Text → List Text
record_paths [] = []
record_paths (r ∷ []) = if is_record r then path_of r ∷ [] else []
record_paths (r ∷ s ∷ rs) =
    let skipping = record_paths rs in
    let going = record_paths (s ∷ rs) in
    if not (is_record r) then going else path_of r ∷ (if is_rename r then skipping else going)

unfoldable pub porcelain_paths : Text → List Text
unfolding split_at record_paths
porcelain_paths stdout = record_paths (split_at 0 [] stdout)

-- An entry of a status: two characters, the path, and the old path of a rename or a copy.
pub record Changed : Type 0 where
  pub x : ℕ
  pub y : ℕ
  pub path : Text
  pub old_path : Text

abbrev pub renamed : Changed → Bool
renamed e = e.x == b'R' || e.y == b'R'

abbrev pub copied : Changed → Bool
copied e = e.x == b'C' || e.y == b'C'

-- What `git status --porcelain -z` prints of entries: the old path follows a rename and a copy.
abbrev pub head_of : Changed → Text
head_of e = e.x ∷ e.y ∷ b' ' ∷ e.path

abbrev pub has_old_path : Changed → Bool
has_old_path e = renamed e || copied e

abbrev pub printed : Changed → Text → Text
printed e rest = head_of e ++ 0 ∷ (if has_old_path e then e.old_path ++ 0 ∷ rest else rest)

abbrev pub printed_all : List Changed → Text
printed_all [] = []
printed_all (e ∷ es) = printed e (printed_all es)

abbrev pub nul_free : Text → Bool
nul_free cs = not (any (λ c. c == 0) cs)

-- No character of the entry is NUL, and the entry is not one of a copy, which `git status` finds only where
-- the configuration has status.renames = copies.
pub record IsPrintable (e : Changed) : Type 0 where
  pub x_free : (e.x == 0) ≡ false
  pub y_free : (e.y == 0) ≡ false
  pub path_free : nul_free e.path ≡ true
  pub old_free : nul_free e.old_path ≡ true
  pub no_copy : copied e ≡ false

abbrev pub AllPrintable : List Changed → Type 0
AllPrintable [] = Unit
AllPrintable (e ∷ es) = IsPrintable e × AllPrintable es

split_at-part :
    (acc xs ys : Text)
    → nul_free xs ≡ true
    → split_at 0 acc (xs ++ 0 ∷ ys) ≡ (acc ++ xs) ∷ split_at 0 [] ys
unfolding split_at
split_at-part acc [] ys h = rw append-nil refl
split_at-part acc (x ∷ xs) ys h = elim (Bool-cases (x == 0)) [
  | inl e ↦ absurd (ground (arith, e, h))
  | inr e ↦ rw e (
      split_at-part (acc ++ x ∷ []) xs ys (ground (arith, e, h))
      ∙ ap (λ l. l ∷ split_at 0 [] ys) (append_assoc acc (x ∷ []) xs))
]

abbrev after_entry : Changed → List Text → List Text
after_entry e rest = if has_old_path e then e.old_path ∷ rest else rest

-- The records after an entry are read on.
record_paths-entry :
    (e : Changed) (rest : List Text)
    → copied e ≡ false
    → record_paths (head_of e ∷ after_entry e rest) ≡ e.path ∷ record_paths rest
unfolding record_paths
record_paths-entry e [] n = elim (Bool-cases (renamed e)) [
  | inl r ↦ rw (r, record_paths, r) refl
  | inr r ↦ rw (r, n) refl
]
record_paths-entry e (s ∷ rest) n = elim (Bool-cases (renamed e)) [
  | inl r ↦ rw (r, record_paths, r) refl
  | inr r ↦ rw (r, n, record_paths, r) refl
]

split_at-printed :
    (e : Changed) (rest : Text)
    → IsPrintable e
    → split_at 0 [] (printed e rest) ≡ head_of e ∷ after_entry e (split_at 0 [] rest)
split_at-printed e rest h =
    split_at-part [] (head_of e) _ (ground (arith, h.x_free, h.y_free, h.path_free))
    ∙ ap (λ l. head_of e ∷ l)
        (elim (Bool-cases (has_old_path e)) [
          | inl r ↦ rw r (split_at-part [] e.old_path rest h.old_free)
          | inr r ↦ rw r refl
        ])

-- A status without copies, as git prints it, is read back: the paths of all entries, in order, the new path
-- of a rename.
pub porcelain-printed :
    (es : List Changed) → AllPrintable es → porcelain_paths (printed_all es) ≡ map (λ e. e.path) es
unfolding porcelain_paths
porcelain-printed [] h = unfold split_at record_paths in refl
porcelain-printed (e ∷ es) h =
    ap record_paths (split_at-printed e (printed_all es) h.0)
    ∙ record_paths-entry e (split_at 0 [] (printed_all es)) h.0.no_copy
    ∙ ap (λ l. e.path ∷ l) (porcelain-printed es h.1)
