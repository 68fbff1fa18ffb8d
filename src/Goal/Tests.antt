-- ===== src/Goal/Tests.antt =====
-- Three busy rounds whose check never moves, and the assessor at them.
use cli_agent_runner.Goal.Ledger.{ledger_content, ledger_content-le, ledger_max_bytes}
use cli_agent_runner.Event.Fields.{round_of}
use cli_agent_runner.Goal.Once.{assessed_is_quiet, occurs, listed, completed}
use cli_agent_runner.Goal.Assess.{
  assess_treadmill, bucket, insert_round, note_check, round_nums, tag_rounds,
}
use cli_agent_runner.Prelude.{
  ◌++◌, List, String, [], false, none, pos, refl, some, ℕ, ◌∷◌, ◌≡◌, insert, str_eq, true, arith,
  codes, length, max, ◌≤◌, strip,
}
use cli_agent_runner.Event.{Event, bool, int, str, is_kind, truthy}

abbrev of_round : String → ℕ → Event
of_round kind n = ("event", str kind) ∷ ("round_num", int (pos n)) ∷ []

abbrev tests_fail : Event
tests_fail = ("event", str "goal_check") ∷ ("name", str "tests") ∷ ("satisfied", bool false) ∷ []

abbrev busy_rounds : List Event
busy_rounds =
    of_round "dirty_detected" 1
    ∷ tests_fail
    ∷ of_round "dirty_auto_committed" 2
    ∷ tests_fail
    ∷ of_round "dirty_detected" 3
    ∷ tests_fail
    ∷ []

abbrev assessment : Event
assessment = ("event", str "goal_assessment") ∷ []

busy_rounds_are_reported :
    assess_treadmill busy_rounds 4 3 ≡ some (record { rounds = 3; checks = "tests" ∷ [] })
unfolding assess_treadmill round_of str_eq insert_round bucket is_kind note_check truthy insert
busy_rounds_are_reported = refl

rounds_recorded :
    (n : ℕ)
    → listed n (completed 4 (busy_rounds ++ assessment ∷ [])) ≡ true
    → occurs n (tag_rounds none (busy_rounds ++ assessment ∷ [])) ≡ true
unfolding round_nums tag_rounds round_of insert_round str_eq
rounds_recorded n h = ground (arith, h)

assessed_is_quiet_example : assess_treadmill (busy_rounds ++ assessment ∷ []) 4 3 ≡ none
unfolding is_kind str_eq
assessed_is_quiet_example = assessed_is_quiet busy_rounds [] assessment 4 3 refl rounds_recorded

blank_block_is_dropped : ledger_content (codes "new") (codes "a\n\n\n\nb") ≡ codes "new\n\na\n\nb"
unfolding codes ledger_content strip
blank_block_is_dropped = refl

ledger_content-le_example :
    length (ledger_content (codes "new") (codes "a\n\nb"))
    ≤ max ledger_max_bytes (length (codes "new"))
ledger_content-le_example = ledger_content-le (codes "new") (codes "a\n\nb")
