-- ===== src/Schedule/Tests.antt =====
-- Windows, and the theorems about agent_runner/schedule.py at them.
use cli_agent_runner.Schedule.Weekdays
use cli_agent_runner.Schedule.Weekdays.{NoRepeats, day_of, monday, parse_weekday_spec-listed}
use cli_agent_runner.Migrations.Moves.{opens}
use cli_agent_runner.Schedule.Writing.{IsWindow, parse_window-meant}
use cli_agent_runner.Schedule.Reading.{IsParsed, parse_window-IsParsed}
use cli_agent_runner.Schedule.Parse.{
  Clocks, add_day, add_days, around_dash, days_from, first_word, match_window, parse_weekday_spec,
  parse_window, to_lower, token_days, weekday_of, weekdays_from, whole_parts,
}
use cli_agent_runner.Schedule.Resume.{next_resume_at-none}
use cli_agent_runner.Schedule.Windows.{allowed, contains_span, in_span}
use cli_agent_runner.Schedule.{
  LocalTime, Window, contains, evaluate, minutes_per_day, next_resume_at, search_from, should_run,
  to_minutes,
}
use cli_agent_runner.Prelude.{
  ◌%◌, ◌&&◌, ◌*◌, ◌+◌, List, [], arith, false, none, refl, some, true, ◌||◌, ℕ, ◌∷◌, ◌≡◌, codes,
  is_digit, is_space, strip, String, inl, map,
}

abbrev window : ℕ → ℕ → List ℕ → Window
window opens closes days = record { start_min = opens; end_min = closes; label = "w"; days = days }

-- Friday 22:00 to 02:00.
abbrev friday_night : Window
friday_night = window 1320 120 (4 ∷ [])

program : Unit {0}
unfolding should_run search_from next_resume_at evaluate to_minutes
program = tt

saturday_one_o_clock : contains friday_night 5 60 ≡ true
unfolding contains
saturday_one_o_clock = refl

contains_span_example : contains friday_night 5 60 ≡ (
    allowed friday_night 5 && in_span friday_night 60
    || allowed friday_night ((5 + 6) % 7) && in_span friday_night (60 + minutes_per_day))
contains_span_example =
    contains_span friday_night 5 60
      (record { starts_in_day = omega arith; ends_in_day = omega arith }) (omega arith)

-- Friday, 21:30:10.
abbrev friday : LocalTime
friday = record { minutes = 4 * minutes_per_day + 1290; seconds = 10 }

friday_resumes : next_resume_at friday (friday_night ∷ []) [] ≡ some (4 * minutes_per_day + 1320)
unfolding program
friday_resumes = refl

-- A pause that covers the only run window.
never : next_resume_at friday (friday_night ∷ []) (friday_night ∷ []) ≡ none
unfolding program
never = refl

next_resume_at-none_example : should_run 1000000 (friday_night ∷ []) (friday_night ∷ []) ≡ false
next_resume_at-none_example =
    next_resume_at-none friday (friday_night ∷ []) (friday_night ∷ []) 1000000 never (omega arith)

abbrev office : Clocks
office = record { sh = 9; sm = 30; eh = 17; em = 0 }

parses_office :
    parse_window " Mon-Wed,fri 09:30-17:00 "
    ≡ some (record {
      start_min = 570;
      end_min = 1020;
      label = " Mon-Wed,fri 09:30-17:00 ";
      days = 0 ∷ 1 ∷ 2 ∷ 4 ∷ [];
    })
unfolding parse_window whole_parts first_word match_window parse_weekday_spec weekdays_from to_lower
    token_days around_dash weekday_of days_from add_days add_day strip codes is_digit to_minutes
parses_office = refl

rejects_reversed_days : parse_window "fri-mon 09:30-17:00" ≡ none
unfolding parse_window whole_parts first_word match_window parse_weekday_spec weekdays_from to_lower
    token_days around_dash weekday_of days_from add_days add_day strip codes is_digit to_minutes
rejects_reversed_days = refl

-- An end at midnight may be written as 00:00, and is then the minute 0.
abbrev night : Window
night = record { start_min = 1320; end_min = 0; label = "22:00-00:00"; days = [] }

parses_night : parse_window "22:00-00:00" ≡ some night
unfolding parse_window whole_parts first_word match_window strip codes is_digit to_minutes
parses_night = refl

parse_window-IsParsed_example : IsParsed "22:00-00:00" night
parse_window-IsParsed_example = parse_window-IsParsed "22:00-00:00" night parses_night

office-IsWindow : IsWindow office
office-IsWindow = record {
  start_hour = omega arith;
  start_minute = omega arith;
  end_time = inl (omega arith, omega arith);
  not_empty = λ e. omega arith;
}

abbrev office_window : String → List ℕ → Window
office_window label days = record { start_min = 570; end_min = 1020; label = label; days = days }

parse_window-meant_example :
    (parse_window "09:30-17:00 " ≡ some (office_window "09:30-17:00 " []))
    × (parse_window " sat 09:30-17:00" ≡ some (office_window " sat 09:30-17:00" (5 ∷ [])))
parse_window-meant_example =
    parse_window-meant "09:30-17:00 " " sat 09:30-17:00" office (codes "sat") (5 ∷ [])
      office-IsWindow (unfold is_space codes in refl)
      (unfold parse_weekday_spec weekdays_from token_days around_dash weekday_of add_days add_day
          strip codes to_lower in
        refl)
      (unfold strip codes is_space in refl) (unfold strip codes is_space in refl)

days_apart : NoRepeats (map day_of (Weekdays.friday ∷ monday ∷ []))
days_apart = (refl, (refl, tt))

parse_weekday_spec-listed_example : parse_weekday_spec (codes "fri,mon") ≡ some (4 ∷ 0 ∷ [])
unfolding codes
parse_weekday_spec-listed_example =
    parse_weekday_spec-listed Weekdays.friday (monday ∷ []) days_apart
