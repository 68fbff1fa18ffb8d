-- ===== src/Vcs.antt =====
-- agent_runner/vcs_state.py: what becomes of the working tree that a round leaves dirty.
--
-- git is a program of its own and a parameter: what it answers to a command, and the repository after it.
-- Texts are their code points. Paths of the log directory are given as `_log_dir_exclude_pathspec` makes
-- them, relative to the work tree.
pub mod Porcelain
pub mod Stash
pub mod Dirty
pub mod Locks
pub mod Named
mod Tests
use cli_agent_runner.Prelude.{ℕ, List, Option, Bool}

abbrev pub Text : Type 0
Text = List ℕ

-- The git invocations of the module; an `exclude` is the path that the pathspec leaves out.
pub data Command : Type 0 where
  status_porcelain : Command
  stash_list stash_list_times : Command
  check_ignore : (path : Text) → Command
  stash_push : (message : Text) (exclude : Option Text) → Command
  add_all : (exclude : Option Text) → Command
  diff_cached : Command
  commit : (subject : Text) → Command
  rev_parse_head : Command

pub data Answer : Type 0 where
  timed_out : Answer
  answered : (rc : ℕ) (stdout stderr : Text) → Answer

-- git, over the states R of a repository, and the file .git/index.lock.
pub record Git {ℓ} (R : Type ℓ) : Type ℓ where
  pub run : Command → R → Answer × R
  pub index_locked : R → Bool
  pub unlock_index : R → R

-- The events that the module emits.
pub data VcsEvent : Type 0 where
  stale_index_lock_cleared : VcsEvent
  dirty_commit_failed : (reason : Text) → VcsEvent
  dirty_auto_committed : (files : List Text) (ref : Text) → VcsEvent
  orphan_stash_failed : (reason : Text) → VcsEvent
  orphan_idempotent_skip orphan_stashed : (ref : Text) → VcsEvent

pub record StashRef : Type 0 where
  pub sha : Text
  pub message : Text
  pub reused : Bool

-- What a call returns or raises: `git_timeout` is GitTimeout, `failure` the module's own error.
pub data Result {ℓ} (A : Type ℓ) : Type ℓ where
  returned : A → Result A
  failure : (reason : Text) → Result A
  git_timeout : Result A

-- A call's result, with the repository after it and the events that it emitted.
pub record Ran {ℓ κ} (R : Type ℓ) (A : Type κ) : Type (ℓ ⊔ κ) where
  pub result : Result A
  pub repo : R
  pub events : List VcsEvent
