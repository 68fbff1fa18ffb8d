-- ===== src/Vcs/Dirty.antt =====
-- `try_auto_commit`, `resolve_dirty_tree` and `_resolve_stash` of agent_runner/vcs_state.py.
use cli_agent_runner.Prelude.{
  ◌++◌, ◌==◌, List, Option, [], codes, decimal, if◌then◌else◌, is_empty, none, pos, some, strip,
  take, ◌∷◌,
}
use cli_agent_runner.Vcs.{
  Text, Git, add_all, diff_cached, commit, rev_parse_head, timed_out, answered, VcsEvent,
  dirty_commit_failed, dirty_auto_committed, orphan_stash_failed, orphan_idempotent_skip,
  orphan_stashed, StashRef, returned, failure, git_timeout, Ran,
}
use cli_agent_runner.Vcs.Stash.{
  Request, clear_self_caused_index_lock, exclude_pathspec, stash_orphan,
}

pub data DirtyAction : Type 0 where
  stash ignore auto_commit : DirtyAction

pub data DirtyOutcome : Type 0 where
  stashed committed : (ref : Text) → DirtyOutcome
  ignored : DirtyOutcome

abbrev pub commit_subject : Request → Text
commit_subject q =
    codes "agent-runner auto-commit: R"
    ++ codes (decimal (pos q.round_num))
    ++ elim q.phase [ none ↦ [] | some phase ↦ if is_empty phase then [] else b' ' ∷ phase ]

abbrev pub reason_of : Text → Text → Text
reason_of err default = take 200 (if is_empty err then default else err)

module _ {ℓ} {R : Type ℓ} (git : Git R) where
  abbrev failed_with : Text → R → List VcsEvent → Ran R Text
  failed_with reason r es = record { result = failure reason; repo = r; events = es }

  -- A call of ours that timed out may have left its lock behind.
  unfoldable pub after_timeout : Text → R → Ran R Text
  unfolding clear_self_caused_index_lock
  after_timeout reason r =
      let (r', es) = clear_self_caused_index_lock git r in
      record { result = failure reason; repo = r'; events = es }

  -- The commit and the sha of its result.
  unfoldable pub commit_staged : Request → R → Ran R Text
  unfolding after_timeout
  commit_staged q r =
      let (a, r1) = git.run (commit (commit_subject q)) r in
      let (h, r2) = git.run rev_parse_head r1 in
      let headed : Ran R Text = elim h [
        | timed_out ↦ record { result = git_timeout; repo = r2; events = [] }
        | answered rc out err ↦ record { result = returned (strip out); repo = r2; events = [] }
      ] in
      elim a [
        | timed_out ↦ after_timeout (codes "git commit timed out") r1
        | answered rc out err ↦
            if rc == 0
            then headed
            else failed_with (reason_of err (codes "git commit failed")) r1 []
      ]

  -- With an exclusion nothing may be staged.
  unfoldable pub after_add : Request → Option Text → R → Ran R Text
  unfolding commit_staged
  after_add q none r = commit_staged q r
  after_add q (some dir) r =
      let (a, r') = git.run diff_cached r in
      elim a [
        | timed_out ↦ record { result = git_timeout; repo = r'; events = [] }
        | answered rc out err ↦
            if rc == 0
            then record { result = returned []; repo = r'; events = [] }
            else commit_staged q r'
      ]

  unfoldable pub add_and_commit : Request → Option Text → R → Ran R Text
  unfolding after_add after_timeout
  add_and_commit q exclude r =
      let (a, r') = git.run (add_all exclude) r in
      elim a [
        | timed_out ↦ after_timeout (codes "git add timed out") r'
        | answered rc out err ↦
            if rc == 0
            then after_add q exclude r'
            else failed_with (reason_of err (codes "git add failed")) r' []
      ]

  unfoldable pub try_auto_commit : Request → R → Ran R Text
  unfolding add_and_commit exclude_pathspec
  try_auto_commit q r =
      let (found, r') = exclude_pathspec git q.log_dir r in
      elim found [
        | returned exclude ↦ add_and_commit q exclude r'
        | failure e ↦ failed_with e r' []
        | git_timeout ↦ record { result = git_timeout; repo = r'; events = [] }
      ]

  -- What `resolve_dirty_tree` makes of a commit.
  unfoldable pub resolve_commit : List Text → Ran R Text → Ran R DirtyOutcome
  resolve_commit files c = elim c.result [
    | git_timeout ↦ record { result = git_timeout; repo = c.repo; events = c.events }
    | failure reason ↦ record {
      result = returned ignored;
      repo = c.repo;
      events = c.events ++ dirty_commit_failed reason ∷ [];
    }
    | returned sha ↦
        if is_empty sha
        then record { result = returned ignored; repo = c.repo; events = c.events }
        else record {
          result = returned (committed sha);
          repo = c.repo;
          events = c.events ++ dirty_auto_committed (take 20 files) sha ∷ [];
        }
  ]

  -- `_resolve_stash`; the orphan state is written beside the event.
  unfoldable pub resolve_stash : Ran R (Option StashRef) → Ran R DirtyOutcome
  resolve_stash c = elim c.result [
    | git_timeout ↦ record { result = git_timeout; repo = c.repo; events = c.events }
    | failure reason ↦ record {
      result = returned ignored;
      repo = c.repo;
      events = c.events ++ orphan_stash_failed reason ∷ [];
    }
    | returned none ↦ record { result = returned ignored; repo = c.repo; events = c.events }
    | returned (some ref) ↦ record {
      result = returned (stashed ref.sha);
      repo = c.repo;
      events =
          c.events
          ++ (if ref.reused then orphan_idempotent_skip ref.sha else orphan_stashed ref.sha) ∷ [];
    }
  ]

  unfoldable pub resolve_dirty_tree : DirtyAction → Request → List Text → R → Ran R DirtyOutcome
  unfolding resolve_commit resolve_stash try_auto_commit stash_orphan
  resolve_dirty_tree ignore q files r = record { result = returned ignored; repo = r; events = [] }
  resolve_dirty_tree auto_commit q files r = resolve_commit files (try_auto_commit q r)
  resolve_dirty_tree stash q files r = resolve_stash (stash_orphan git q r)
