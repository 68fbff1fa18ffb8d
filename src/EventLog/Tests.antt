-- ===== src/EventLog/Tests.antt =====
-- A small codec, and the theorems about the tailer at it.
use cli_agent_runner.Prelude.{
  ◌++◌, ◌==◌, Bool, List, Option, String, [], codes, if◌then◌else◌, false, insert, lookup, none,
  refl, some, str_eq, strip, true, ℕ, ◌∷◌, ◌≡◌,
}
use cli_agent_runner.EventLog.{
  Codec, emit, iter_event_dicts, iter_parsed_lines, lines_from, month_of, parsed_line, parsed_lines,
  read_new, read_path, is_empty,
}
use cli_agent_runner.EventLog.Tail.{
  Lawful, here, next, emitted, TailState, alone, at_head, emit_all, emitted_are_read, next_poll,
  tail_exactly_once, newline_free,
}

-- The events are truth values, rendered as 1 and 0.
abbrev render : Bool → List ℕ
render true = b'1' ∷ []
render false = b'0' ∷ []

abbrev parse : List ℕ → Option Bool
parse (c ∷ []) = if c == b'1' then some true else if c == b'0' then some false else none
parse _ = none

abbrev flags : Codec Bool
flags = record { dumps = render; loads = parse }

read_back : (b : Bool) → parse (render b) ≡ some b
read_back true = refl
read_back false = refl

flag_one_line : (b : Bool) → newline_free (render b) ≡ true
flag_one_line true = refl
flag_one_line false = refl

flag_trimmed : (b : Bool) → strip (render b) ≡ render b
unfolding strip
flag_trimmed true = refl
flag_trimmed false = refl

flag_nonempty : (b : Bool) → is_empty (render b) ≡ false
flag_nonempty true = refl
flag_nonempty false = refl

flags-Lawful : Lawful flags
flags-Lawful = record {
  loads-dumps = read_back;
  one_line = flag_one_line;
  trimmed = flag_trimmed;
  nonempty = flag_nonempty;
}

-- A second line that is blank and a third that does not decode are skipped.
skips_lines : iter_event_dicts flags (codes "1\n \nx\n0\n") ≡ true ∷ false ∷ []
unfolding iter_event_dicts iter_parsed_lines parsed_lines parsed_line lines_from strip codes
skips_lines = refl

-- A file that shrank is read again from its start.
shrunk : (read_path flags (codes "1\n") 5).1 ≡ some 2
unfolding read_path codes
shrunk = refl

abbrev month_file : String
month_file = "events-2026-03.jsonl"

month_of_file : month_of month_file ≡ codes "2026-03"
unfolding month_of codes
month_of_file = refl

emitted_are_read_example :
    (read_new flags
      (alone flags flags-Lawful month_file
        (emit_all flags flags-Lawful (true ∷ false ∷ []) (codes "torn")))
      (month_file ∷ [])
      (insert month_file 4 [])).0
    ≡ true ∷ false ∷ []
emitted_are_read_example =
    emitted_are_read flags flags-Lawful month_file (insert month_file 4 []) (codes "torn")
      (true ∷ false ∷ []) (unfold insert lookup str_eq codes in refl)

abbrev first : TailState flags flags-Lawful
first = at_head flags flags-Lawful (true ∷ [])

abbrev second : TailState flags flags-Lawful
second = record first { content = emit flags false first.content }

tail_exactly_once_example :
    second.delivered ++ (next_poll flags flags-Lawful month_file second).0
    ≡ iter_event_dicts flags second.content
tail_exactly_once_example =
    tail_exactly_once flags flags-Lawful month_file (true ∷ []) second
      (next here (emitted first false))
