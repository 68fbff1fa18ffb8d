-- ===== src/RoundLog/Tests.antt =====
-- Small directories of round logs.
use cli_agent_runner.Throttle.Coerce.{parse_int}
use cli_agent_runner.RoundLog.{
  agent_round, file_num, insert_desc, leading_digits, next_round_num, numbered, prune, sort_desc,
  Candidate,
}
use cli_agent_runner.RoundLog.Prune.{TakesOldest, prune_oldest}
use cli_agent_runner.Prelude.{List, String, [], codes, is_digit, refl, str_eq, strip, ◌∷◌, ◌≡◌}

abbrev logs : List (Candidate String)
logs = ("a", 10) ∷ ("b", 30) ∷ ("c", 20) ∷ []

prunes_one : (prune 2 logs).1 ≡ ("a", 10) ∷ []
unfolding prune sort_desc insert_desc
prunes_one = refl

defers_bulk : (prune 1 logs).0 ≡ record { deleted = 0; deferred = 2; existing = 3 }
unfolding prune sort_desc insert_desc
defers_bulk = refl

numbers_of_names : numbered ("R12-x.log" ∷ "R-x.log" ∷ "round-3.log" ∷ []) ≡ ("R12-x.log", 12) ∷ []
unfolding numbered agent_round leading_digits codes is_digit
numbers_of_names = refl

prune_oldest_example : TakesOldest 2 logs (prune 2 logs).1
prune_oldest_example = prune_oldest 2 logs

abbrev names : List String
names = "round-current.log" ∷ "round-7.log" ∷ "round-12.log" ∷ []

next_after_files : next_round_num 3 names ≡ 13
unfolding next_round_num file_num parse_int codes is_digit strip str_eq
next_after_files = refl
