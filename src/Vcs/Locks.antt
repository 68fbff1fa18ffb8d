-- ===== src/Vcs/Locks.antt =====
-- When agent_runner/vcs_state.py removes .git/index.lock.
use cli_agent_runner.Vcs.Stash.{
  Request, after_push, fresh_stash, push, stash_message, stash_orphan, after_recent, after_dirty,
}
use cli_agent_runner.Prelude.{
  Bool, List, Option, arith, count_if, false, none, refl, some, true, ◌≡◌, count_if-append, [], ◌∷◌,
}
use cli_agent_runner.Vcs.{
  Git, Command, Answer, timed_out, VcsEvent, stale_index_lock_cleared, Ran, stash_push, stash_list,
  add_all, commit, diff_cached, rev_parse_head, Text, Result, StashRef, failure, git_timeout,
  returned,
}
use cli_agent_runner.Vcs.Dirty.{
  DirtyAction, stash, ignore, auto_commit, add_and_commit, after_add, commit_staged, commit_subject,
  resolve_commit, resolve_dirty_tree, resolve_stash, try_auto_commit,
}

abbrev pub is_timed_out : Answer → Bool
is_timed_out timed_out = true
is_timed_out _ = false

abbrev pub is_clearing : VcsEvent → Bool
is_clearing stale_index_lock_cleared = true
is_clearing _ = false

module _ {ℓ} {R : Type ℓ} (git : Git R)
    (prompt : (c : Command) (r : R) → is_timed_out (git.run c r).0 ≡ false) where
  -- No lock is removed in the run of a call.
  abbrev Keeps {κ} : {A : Type κ} → Ran R A → Type 0
  Keeps c = count_if is_clearing c.events ≡ 0

  after_push-Keeps : (msg : Text) (r : R) → Keeps (after_push git msg r)
  unfolding after_push
  after_push-Keeps msg r = ground (arith, prompt stash_list r)

  push-Keeps : (q : Request) (exclude : Option Text) (r : R) → Keeps (push git q exclude r)
  unfolding push
  push-Keeps q exclude r =
      let msg = stash_message q.round_num q.phase q.stamp in
      ground (
        arith,
        prompt (stash_push msg exclude) r,
        after_push-Keeps msg (git.run (stash_push msg exclude) r).1,
      )

  fresh_stash-Keeps : (q : Request) (r : R) → Keeps (fresh_stash git q r)
  unfolding fresh_stash
  fresh_stash-Keeps q r = grind (arith, push-Keeps q)

  after_recent-Keeps :
      (q : Request) (recent : Result (Option StashRef)) (r : R)
      → Keeps (after_recent git q recent r)
  unfolding after_recent
  after_recent-Keeps q (returned none) r = fresh_stash-Keeps q r
  after_recent-Keeps q (returned (some ref)) r = refl
  after_recent-Keeps q (failure e) r = refl
  after_recent-Keeps q git_timeout r = refl

  after_dirty-Keeps :
      (q : Request) (dirty : Option (List Text)) (r : R) → Keeps (after_dirty git q dirty r)
  unfolding after_dirty
  after_dirty-Keeps q none r = refl
  after_dirty-Keeps q (some []) r = refl
  after_dirty-Keeps q (some (f ∷ fs)) r = after_recent-Keeps q _ _

  stash_orphan-Keeps : (q : Request) (r : R) → Keeps (stash_orphan git q r)
  unfolding stash_orphan
  stash_orphan-Keeps q r = after_dirty-Keeps q _ _

  commit_staged-Keeps : (q : Request) (r : R) → Keeps (commit_staged git q r)
  unfolding commit_staged
  commit_staged-Keeps q r = ground (
    arith,
    prompt (commit (commit_subject q)) r,
    prompt rev_parse_head (git.run (commit (commit_subject q)) r).1,
  )

  after_add-Keeps : (q : Request) (ex : Option Text) (r : R) → Keeps (after_add git q ex r)
  unfolding after_add
  after_add-Keeps q none r = commit_staged-Keeps q r
  after_add-Keeps q (some dir) r =
      ground (arith, prompt diff_cached r, commit_staged-Keeps q (git.run diff_cached r).1)

  add_and_commit-Keeps :
      (q : Request) (ex : Option Text) (r : R) → Keeps (add_and_commit git q ex r)
  unfolding add_and_commit
  add_and_commit-Keeps q ex r =
      ground (arith, prompt (add_all ex) r, after_add-Keeps q ex (git.run (add_all ex) r).1)

  try_auto_commit-Keeps : (q : Request) (r : R) → Keeps (try_auto_commit git q r)
  unfolding try_auto_commit
  try_auto_commit-Keeps q r = grind (arith, add_and_commit-Keeps q)

  resolve_commit-Keeps :
      (files : List Text) (c : Ran R Text) → Keeps c → Keeps (resolve_commit git files c)
  unfolding resolve_commit
  resolve_commit-Keeps files c h = grind (arith, count_if-append is_clearing c.events, h)

  resolve_stash-Keeps : (c : Ran R (Option StashRef)) → Keeps c → Keeps (resolve_stash git c)
  unfolding resolve_stash
  resolve_stash-Keeps c h = grind (arith, count_if-append is_clearing c.events, h)

  -- The index lock is removed only behind a git of ours that timed out: where none does, no dirty tree,
  -- whatever the action and whatever git answers, makes the runner remove a lock.
  pub lock_kept :
      (action : DirtyAction) (q : Request) (files : List Text) (r : R)
      → count_if is_clearing (resolve_dirty_tree git action q files r).events ≡ 0
  unfolding resolve_dirty_tree
  lock_kept ignore q files r = refl
  lock_kept auto_commit q files r =
      resolve_commit-Keeps files (try_auto_commit git q r) (try_auto_commit-Keeps q r)
  lock_kept stash q files r = resolve_stash-Keeps (stash_orphan git q r) (stash_orphan-Keeps q r)
