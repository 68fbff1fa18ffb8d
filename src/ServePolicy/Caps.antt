-- ===== src/ServePolicy/Caps.antt =====
-- The give-up caps of agent_runner/_serve_policy.py.
use cli_agent_runner.ServePolicy.{
  crash_loop_threshold, mem_loop, mem_loop_decision, mem_loop_threshold, no_progress_decision,
  stalled_no_progress,
}
use cli_agent_runner.Prelude.{◌+◌, Bool, arith, if◌then◌else◌, true, ℕ, ◌↔◌, ◌≡◌, ◌≤◌}

-- The memory cap gives up exactly at a terminated round that is at least the fifth in a row.
pub mem_loop_iff :
    (t : Bool) (n : ℕ)
    → ((mem_loop_decision t n).0 ≡ mem_loop) ↔ ((t ≡ true) × (mem_loop_threshold ≤ n + 1))
unfolding mem_loop_decision
mem_loop_iff t n = ground arith

-- The no-progress cap gives up exactly at a round without progress that is at least the fifth in a row.
pub stalled_iff :
    (t : Bool) (n : ℕ)
    → ((no_progress_decision t n).0 ≡ stalled_no_progress)
      ↔ ((t ≡ true) × (crash_loop_threshold ≤ n + 1))
unfolding no_progress_decision
stalled_iff t n = ground arith

pub mem_loop_streak : (t : Bool) (n : ℕ) → (mem_loop_decision t n).1 ≡ (if t then n + 1 else 0)
unfolding mem_loop_decision
mem_loop_streak t n = ground arith

pub stalled_streak : (t : Bool) (n : ℕ) → (no_progress_decision t n).1 ≡ (if t then n + 1 else 0)
unfolding no_progress_decision
stalled_streak t n = ground arith
