-- ===== src/Goal/Ledger.antt =====
-- `write_ledger_advisory` of agent_runner/goal.py: the text that the ledger gets. Texts are their UTF-8
-- bytes; blank is ASCII white space.
use cli_agent_runner.Prelude.{
  List, ℕ, ◌&&◌, ◌+◌, ◌++◌, ◌==◌, Bool-cases, [], arith, if◌then◌else◌, inl, inr, is_empty, length,
  length-append, ltb, max, not, select, strip, ◌∷◌, ◌≤◌, ◌≡◌,
}

abbrev pub Block : Type 0
Block = List ℕ

abbrev pub ledger_max_bytes : ℕ
ledger_max_bytes = 8192

-- `existing.split("\n\n")`, from what has been read of the first block.
unfoldable pub split_blocks : Block → List ℕ → List Block
split_blocks acc [] = acc ∷ []
split_blocks acc (c ∷ []) = (acc ++ c ∷ []) ∷ []
split_blocks acc (c ∷ d ∷ cs) =
    let ended = split_blocks [] cs in
    let more = split_blocks (acc ++ c ∷ []) (d ∷ cs) in
    if c == 10 && d == 10 then acc ∷ ended else more

-- Blocks that are not blank.
unfoldable pub prior_blocks : List ℕ → List Block
unfolding split_blocks
prior_blocks existing = select (λ b. not (is_empty (strip b))) (split_blocks [] existing)

-- Behind blocks of a total length: the first that is too much ends the ledger.
unfoldable pub kept_behind : ℕ → List Block → List Block
kept_behind total [] = []
kept_behind total (b ∷ bs) =
    let rest = kept_behind (total + (length b + 2)) bs in
    if ltb ledger_max_bytes (total + (length b + 2)) then [] else b ∷ rest

-- The blocks behind the newest one, each behind a blank line.
unfoldable pub joined_behind : List Block → List ℕ
joined_behind [] = []
joined_behind (b ∷ bs) = 10 ∷ 10 ∷ b ++ joined_behind bs

unfoldable pub ledger_content : Block → List ℕ → List ℕ
unfolding prior_blocks kept_behind joined_behind
ledger_content new existing =
    new ++ joined_behind (kept_behind (length new) (prior_blocks existing))

length-joined_behind :
    (b : Block) (bs : List Block)
    → length (joined_behind (b ∷ bs)) ≡ 2 + length b + length (joined_behind bs)
unfolding joined_behind
length-joined_behind b bs = omega (arith, length-append b (joined_behind bs))

kept_behind-le :
    (total : ℕ) (bs : List Block)
    → total + length (joined_behind (kept_behind total bs)) ≤ max ledger_max_bytes total
unfolding kept_behind
kept_behind-le total [] = unfold joined_behind in omega arith
kept_behind-le total (b ∷ bs) = elim (Bool-cases (ltb ledger_max_bytes (total + (length b + 2)))) [
  | inl e ↦ rw e (unfold joined_behind in omega arith)
  | inr e ↦
      let below : total + (length b + 2) ≤ ledger_max_bytes = ground (arith, e) in
      rw e (
        omega (
          arith,
          below,
          kept_behind-le (total + (length b + 2)) bs,
          length-joined_behind b (kept_behind (total + (length b + 2)) bs),
        ))
]

-- However large the ledger was, it is afterwards no larger than 8192 bytes, or than the new block alone
-- where that is larger.
pub ledger_content-le :
    (new : Block) (existing : List ℕ)
    → length (ledger_content new existing) ≤ max ledger_max_bytes (length new)
unfolding ledger_content
ledger_content-le new existing = omega (
  arith,
  length-append new (joined_behind (kept_behind (length new) (prior_blocks existing))),
  kept_behind-le (length new) (prior_blocks existing),
)
