-- ===== src/Vcs/Named.antt =====
-- Which stashes agent_runner/vcs_state.py takes for the stash of a round.
use cli_agent_runner.Vcs.Stash.{Request, orphan_prefix, stash_message}
use cli_agent_runner.Prelude.{starts_with, true, ◌≡◌, ◌⊎◌}
use cli_agent_runner.Vcs.{StashRef}

-- The stash bears the name of the round: its message begins with it, and one that is not reused has the
-- message of this request.
pub record IsNamed (q : Request) (ref : StashRef) : Type 0 where
  pub begins : starts_with (orphan_prefix q.round_num) ref.message ≡ true
  pub whole : (ref.reused ≡ true) ⊎ (ref.message ≡ stash_message q.round_num q.phase q.stamp)
