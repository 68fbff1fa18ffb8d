-- ===== src/RoundLog.antt =====
-- agent_runner/round_log.py: which round logs are kept, and the number of the next round.
pub mod Prune
pub mod Numbers
mod Tests
use cli_agent_runner.Throttle.Coerce.{parse_int}
use cli_agent_runner.EventLog.{names}
use cli_agent_runner.Prelude.{
  ℕ, ◌*◌, ◌+◌, ◌-◌, ◌==◌, Bool, List, Option, String, [], codes, drop, if◌then◌else◌, false,
  is_digit, leb, length, ltb, max, none, pos, some, str_eq, take, true, ℤ, ◌∷◌,
}

pub record PruneOutcome : Type 0 where
  pub deleted : ℕ
  pub deferred : ℕ
  pub existing : ℕ

-- A candidate with its key: the mtime of a round-*.log, or the number of an R<n>-*.log.
abbrev pub Candidate {ℓ} : Type ℓ → Type ℓ
Candidate A = A × ℕ

abbrev pub pruning_disabled : ℕ → Bool
pruning_disabled keep = keep == 0

abbrev pub is_bulk : ℕ → ℕ → Bool
is_bulk stale keep = ltb keep stale

module _ {ℓ} {A : Type ℓ} where
  -- `sorted(..., key, reverse=True)` keeps the order of equal keys.
  unfoldable pub insert_desc : Candidate A → List (Candidate A) → List (Candidate A)
  insert_desc c [] = c ∷ []
  insert_desc c (d ∷ ds) =
      let rest = insert_desc c ds in if leb d.1 c.1 then c ∷ d ∷ ds else d ∷ rest

  unfoldable pub sort_desc : List (Candidate A) → List (Candidate A)
  sort_desc [] = []
  sort_desc (c ∷ cs) = insert_desc c (sort_desc cs)

  -- The two prunes from the candidates on: the outcome, and the files that are unlinked.
  unfoldable pub prune : ℕ → List (Candidate A) → PruneOutcome × List (Candidate A)
  prune keep candidates =
      let logs = sort_desc candidates in
      let stale = drop keep logs in
      if pruning_disabled keep
      then (record { deleted = 0; deferred = 0; existing = 0 }, [])
      else if is_bulk (length stale) keep
      then (record { deleted = 0; deferred = length stale; existing = length logs }, [])
      else (record { deleted = length stale; deferred = 0; existing = length logs }, stale)

-- An entry of the log directory: a name, and the mtime of a regular file (`none` for a link, or a file
-- that vanished).
pub record Entry : Type 0 where
  pub name : String
  pub mtime : Option ℕ

abbrev pub round_current_link : String
round_current_link = "round-current.log"

-- The entries that the pattern round-*.log selects, without the link.
unfoldable pub present : List Entry → List (Candidate String)
present [] = []
present (e ∷ es) =
    let rest = present es in
    if str_eq e.name round_current_link
    then rest
    else elim e.mtime [ none ↦ rest | some m ↦ (e.name, m) ∷ rest ]

unfoldable pub prune_old_round_logs : List Entry → ℕ → PruneOutcome × List (Candidate String)
unfolding prune present
prune_old_round_logs entries retention = prune retention (present entries)

-- The digits of R<n>- at the head of a name.
unfoldable pub leading_digits : ℕ → Bool → List ℕ → Option (ℕ × List ℕ)
leading_digits acc seen [] = if seen then some (acc, []) else none
leading_digits acc seen (c ∷ cs) =
    let more = leading_digits (acc * 10 + (c - b'0')) true cs in
    if is_digit c then more else if seen then some (acc, c ∷ cs) else none

unfoldable pub agent_round : String → Option ℕ
agent_round name = elim (codes name) [
  | c ∷ cs ↦
      if c == b'R'
      then elim (leading_digits 0 false cs) [
        | some (n, d ∷ rest) ↦ if d == b'-' then some n else none
        | _ ↦ none
      ]
      else none
  | [] ↦ none
]

unfoldable pub numbered : List String → List (Candidate String)
numbered [] = []
numbered (name ∷ names) =
    let rest = numbered names in elim (agent_round name) [ none ↦ rest | some n ↦ (name, n) ∷ rest ]

-- The names are those that the pattern R*.log selects.
unfoldable pub prune_rounds_dir : List String → ℕ → PruneOutcome × List (Candidate String)
unfolding prune numbered
prune_rounds_dir names keep = prune keep (numbered names)

-- The number of round-<n>.log: what stands after the first dash of the stem, read by `int`.
after_dash : List ℕ → Option (List ℕ)
after_dash [] = none
after_dash (c ∷ cs) = let rest = after_dash cs in if c == b'-' then some cs else rest

unfoldable pub file_num : String → Option ℤ
unfolding after_dash
file_num name =
    let all = codes name in
    elim (after_dash (take (length all - 4) all)) [ none ↦ none | some rest ↦ parse_int rest ]

-- The larger of a natural number and an integer.
abbrev pub larger : ℕ → Option ℤ → ℕ
larger m (some (pos n)) = max m n
larger m _ = m

unfoldable pub max_num : ℕ → List String → ℕ
max_num m [] = m
max_num m (name ∷ names) =
    let rest = max_num m names in
    if str_eq name round_current_link then rest else larger rest (file_num name)

-- `status_num` is what `read_round_num` gives, 0 without a status.
unfoldable pub next_round_num : ℕ → List String → ℕ
unfolding max_num
next_round_num status_num names = max_num status_num names + 1
