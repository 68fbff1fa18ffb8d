-- ===== src/Vcs/Tests.antt =====
-- A small git, and the theorems about the dirty tree at it.
use cli_agent_runner.Throttle.Coerce.{parse_int}
use cli_agent_runner.Vcs.{
  StashRef, Answer, Command, Git, answered, check_ignore, returned, rev_parse_head, stash_list,
  status_porcelain,
}
use cli_agent_runner.Vcs.Locks.{is_clearing, is_timed_out, lock_kept}
use cli_agent_runner.Vcs.Stash.{
  Request, at_space, behind_colon, first_line, parse_stash_line, recent_orphan,
}
use cli_agent_runner.Prelude.{
  starts_with, ◌+◌, List, [], codes, count_if, decimal, false, is_digit, none, refl, some, strip,
  true, ℕ, ◌∷◌, ◌≡◌, arith, ◌++◌,
}
use cli_agent_runner.Vcs.{
  Git, Command, Answer, answered, status_porcelain, stash_list, check_ignore, rev_parse_head,
  returned,
}
use cli_agent_runner.Vcs.Porcelain.{
  Changed, AllPrintable, porcelain-printed, porcelain_paths, printed_all, record_paths, split_at,
}
use cli_agent_runner.Vcs.Dirty.{auto_commit, resolve_dirty_tree}

-- A rename, and a file that is not tracked.
abbrev entries : List Changed
entries =
    record { x = b'R'; y = b' '; path = codes "new"; old_path = codes "old" }
    ∷ record { x = b'?'; y = b'?'; path = codes "n.py"; old_path = [] }
    ∷ []

entries_printable : AllPrintable entries
unfolding codes
entries_printable = (
  record { x_free = refl; y_free = refl; path_free = refl; old_free = refl; no_copy = refl },
  (record { x_free = refl; y_free = refl; path_free = refl; old_free = refl; no_copy = refl }, tt),
)

porcelain-printed_example : porcelain_paths (printed_all entries) ≡ codes "new" ∷ codes "n.py" ∷ []
porcelain-printed_example = porcelain-printed entries entries_printable

-- A copy: the record of its old path is taken for an entry of its own, less its first three characters.
copy_is_misread :
    porcelain_paths (codes "C  new.py" ++ 0 ∷ (codes "lib.py" ++ 0 ∷ []))
    ≡ codes "new.py" ∷ codes ".py" ∷ []
unfolding porcelain_paths record_paths split_at codes
copy_is_misread = refl

-- A git that always answers, on a repository that counts the commands. The log directory is not ignored.
abbrev reply : Command → Answer
reply status_porcelain = answered 0 (printed_all entries) []
reply stash_list = answered 0 (codes "f00d On main: ORPHAN R3 ts=now") []
reply (check_ignore path) = answered 1 [] []
reply rev_parse_head = answered 0 (codes "c0de\n") []
reply _ = answered 0 [] []

abbrev quick : Git ℕ
quick = record { run = λ c n. (reply c, n + 1); index_locked = λ n. true; unlock_index = λ n. n }

abbrev third : Request
third = record {
  round_num = 3;
  phase = none;
  log_dir = none;
  stamp = codes "now";
  now = 0;
  idempotency_s = 5;
}

-- The stash of round 12 passes for one of round 1: the message is compared by its beginning only.
round_12_for_round_1 :
    recent_orphan (codes "f00d 100 On main: ORPHAN R12 ts=now") 1 5 0
    ≡ some (record { sha = codes "f00d"; message = codes "ORPHAN R12 ts=now"; reused = false })
unfolding recent_orphan parse_stash_line first_line at_space behind_colon starts_with parse_int
    strip codes decimal is_digit
round_12_for_round_1 = refl

quick_answers : (c : Command) (n : ℕ) → is_timed_out (quick.run c n).0 ≡ false
quick_answers c n = ground arith

lock_kept_example :
    count_if is_clearing (resolve_dirty_tree quick auto_commit third [] 0).events ≡ 0
lock_kept_example = lock_kept quick quick_answers auto_commit third [] 0

-- The stash that the push of this round made.
abbrev third_stash : StashRef
third_stash = record { sha = codes "f00d"; message = codes "ORPHAN R3 ts=now"; reused = false }
