-- ===== src/Vcs/Stash.antt =====
-- `stash_orphan` of agent_runner/vcs_state.py.
use cli_agent_runner.Clock.{ticks}
use cli_agent_runner.Throttle.Coerce.{parse_int}
use cli_agent_runner.Prelude.{
  ◌&&◌, ◌*◌, ◌+◌, ◌++◌, ◌==◌, Bool, List, Option, [], codes, decimal, if◌then◌else◌, false,
  is_empty, ltb, negsuc, none, not, pos, some, strip, take, true, ◌||◌, ℕ, ℤ, ◌∷◌, is_within,
  starts_with,
}
use cli_agent_runner.Vcs.{
  Text, Git, status_porcelain, stash_list, stash_list_times, check_ignore, stash_push, timed_out,
  answered, VcsEvent, stale_index_lock_cleared, StashRef, Result, returned, failure, git_timeout,
  Ran,
}
use cli_agent_runner.Vcs.Porcelain.{porcelain_paths}

-- What stands before and behind the first space; `none` where there is none.
unfoldable pub at_space : Text → Option (Text × Text)
at_space [] = none
at_space (c ∷ cs) =
    let rest = at_space cs in
    if c == b' ' then some ([], cs) else elim rest [ none ↦ none | some (a, b) ↦ some (c ∷ a, b) ]

-- `raw_subj.split(": ", 1)[1]`, or all of it.
unfoldable pub behind_colon : Text → Option Text
behind_colon [] = none
behind_colon (c ∷ []) = none
behind_colon (c ∷ d ∷ cs) =
    let rest = behind_colon (d ∷ cs) in if c == b':' && d == b' ' then some cs else rest

abbrev pub message_of : Text → Text
message_of subject = elim (behind_colon subject) [ none ↦ subject | some m ↦ m ]

-- The sha, the commit time and the message of a line.
unfoldable pub parse_stash_line : Text → Option (Text × ℤ × Text)
parse_stash_line line = elim (at_space line) [
  | none ↦ none
  | some (sha, rest) ↦ elim (at_space rest) [
    | none ↦ none
    | some (ct, subject) ↦ elim (parse_int ct) [
      | none ↦ none
      | some t ↦ some (sha, t, message_of subject)
    ]
  ]
]

-- The first line of a text that is not blank.
unfoldable pub first_line : Text → Text
first_line [] = []
first_line (c ∷ cs) = let rest = first_line cs in if c == 10 || c == 13 then [] else c ∷ rest

abbrev pub orphan_prefix : ℕ → Text
orphan_prefix round_num = codes "ORPHAN R" ++ codes (decimal (pos round_num))

-- `now - ct > window_s`, with now in ticks.
abbrev pub too_old : ℕ → ℤ → ℕ → Bool
too_old now (pos ct) window_s = ltb ((ct + window_s) * ticks) now
too_old now (negsuc ct) window_s = ltb (window_s * ticks) (now + (ct + 1) * ticks)

-- What the top of the stash stack says of this round.
unfoldable pub recent_orphan : Text → ℕ → ℕ → ℕ → Option StashRef
recent_orphan stdout round_num window_s now =
    let text = strip stdout in
    if is_empty text then none else elim (parse_stash_line (first_line text)) [
      | none ↦ none
      | some (sha, ct, msg) ↦
          if not (starts_with (orphan_prefix round_num) msg)
          then none
          else if too_old now ct window_s
          then none
          else some (record { sha = sha; message = msg; reused = false })
    ]

abbrev pub phase_part : Option Text → Text
phase_part none = []
phase_part (some phase) = if is_empty phase then [] else codes " phase=" ++ phase

abbrev pub stash_message : ℕ → Option Text → Text → Text
stash_message round_num phase ts = orphan_prefix round_num ++ phase_part phase ++ codes " ts=" ++ ts

-- The ref that the listing after the push names, if it is this push's.
unfoldable pub pushed_ref : Text → Text → Option StashRef
pushed_ref msg stdout =
    let text = strip stdout in
    let (sha, subject) : Text × Text = elim (at_space text) [
      | none ↦ (text, [])
      | some (a, b) ↦ (a, b)
    ] in
    if is_empty text
    then none
    else if is_within msg subject
    then some (record { sha = sha; message = msg; reused = false })
    else none

-- What the calls are given: the round, its phase, the log directory where it lies in the work tree, the
-- clock. The reasons of time-outs are fixed texts here.
pub record Request : Type 0 where
  pub round_num : ℕ
  pub phase : Option Text
  pub log_dir : Option Text
  pub stamp : Text
  pub now : ℕ
  pub idempotency_s : ℕ

module _ {ℓ} {R : Type ℓ} (git : Git R) where
  -- `detect_dirty_files`: `none` is GitTimeout.
  unfoldable pub detect_dirty_files : R → Option (List Text) × R
  unfolding porcelain_paths
  detect_dirty_files r =
      let (a, r') = git.run status_porcelain r in
      elim a [
        | timed_out ↦ (none, r')
        | answered rc out err ↦ (some (if rc == 0 then porcelain_paths out else []), r')
      ]

  unfoldable pub recent_orphan_for_round : Request → R → Result (Option StashRef) × R
  recent_orphan_for_round q r =
      let (a, r') = git.run stash_list_times r in
      elim a [
        | timed_out ↦ (git_timeout, r')
        | answered rc out err ↦ (
          returned (if rc == 0 then recent_orphan out q.round_num q.idempotency_s q.now else none),
          r',
        )
      ]

  -- `_combined_exclude_pathspec`.
  unfoldable pub exclude_pathspec : Option Text → R → Result (Option Text) × R
  exclude_pathspec none r = (returned none, r)
  exclude_pathspec (some dir) r =
      let (a, r') = git.run (check_ignore dir) r in
      elim a [
        | timed_out ↦ (git_timeout, r')
        | answered rc out err ↦ (returned (if rc == 0 then none else some dir), r')
      ]

  unfoldable pub clear_self_caused_index_lock : R → R × List VcsEvent
  clear_self_caused_index_lock r =
      if git.index_locked r then (git.unlock_index r, stale_index_lock_cleared ∷ []) else (r, [])

  -- After a push that succeeded.
  unfoldable pub after_push : Text → R → Ran R (Option StashRef)
  unfolding pushed_ref
  after_push msg r =
      let (a, r') = git.run stash_list r in
      elim a [
        | timed_out ↦ record { result = git_timeout; repo = r'; events = [] }
        | answered rc out err ↦ record {
          result = returned (if rc == 0 then pushed_ref msg out else none);
          repo = r';
          events = [];
        }
      ]

  unfoldable pub push : Request → Option Text → R → Ran R (Option StashRef)
  unfolding after_push clear_self_caused_index_lock
  push q exclude r =
      let msg = stash_message q.round_num q.phase q.stamp in
      let (a, r') = git.run (stash_push msg exclude) r in
      elim a [
        | timed_out ↦
            let (r'', es) = clear_self_caused_index_lock r' in
            record { result = failure (codes "git stash timed out"); repo = r''; events = es }
        | answered rc out err ↦ if rc == 0 then after_push msg r' else record {
          result = failure (take 200 (if is_empty err then codes "git stash push failed" else err));
          repo = r';
          events = [];
        }
      ]

  abbrev pub ended : Result (Option StashRef) → R → Ran R (Option StashRef)
  ended result r = record { result = result; repo = r; events = [] }

  -- With no recent stash of this round.
  unfoldable pub fresh_stash : Request → R → Ran R (Option StashRef)
  unfolding push exclude_pathspec
  fresh_stash q r =
      let (found, r') = exclude_pathspec q.log_dir r in
      elim found [
        | returned exclude ↦ push q exclude r'
        | failure e ↦ ended (failure e) r'
        | git_timeout ↦ ended git_timeout r'
      ]

  -- What the top of the stash stack leads to.
  unfoldable pub after_recent : Request → Result (Option StashRef) → R → Ran R (Option StashRef)
  unfolding fresh_stash
  after_recent q (returned none) r = fresh_stash q r
  after_recent q (returned (some ref)) r = ended (returned (some (record ref { reused = true }))) r
  after_recent q (failure e) r = ended (failure e) r
  after_recent q git_timeout r = ended git_timeout r

  -- What the dirty files lead to.
  unfoldable pub after_dirty : Request → Option (List Text) → R → Ran R (Option StashRef)
  unfolding after_recent recent_orphan_for_round
  after_dirty q none r = ended git_timeout r
  after_dirty q (some []) r = ended (returned none) r
  after_dirty q (some (f ∷ fs)) r =
      let (recent, r') = recent_orphan_for_round q r in after_recent q recent r'

  unfoldable pub stash_orphan : Request → R → Ran R (Option StashRef)
  unfolding after_dirty detect_dirty_files
  stash_orphan q r = let (dirty, r') = detect_dirty_files r in after_dirty q dirty r'
