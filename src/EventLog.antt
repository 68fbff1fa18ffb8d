-- ===== src/EventLog.antt =====
-- agent_runner/event_log.py, with the line format of agent_runner/events.py: month files that grow, and
-- readers that carry offsets.
--
-- A file is its bytes; the stamps and events of a line are decoded by the json module, a codec whose two
-- functions a reader is given. A read sees the file at one moment, so that its end is its size. Lines end
-- at a line feed: `json.dumps` writes no other line end.
pub mod Tail
mod Tests
use cli_agent_runner.Prelude.{
  ℕ, ◌&&◌, ◌++◌, ◌==◌, Bool, Dict, List, Option, String, [], codes, drop, if◌then◌else◌, false,
  insert, is_empty, last_n, length, lookup, ltb, map, none, pos, some, str_eq, strip, take, true,
  ◌∷◌,
}

-- `json.dumps(payload, ensure_ascii=False)` and `json.loads`, which is `none` on an error and on anything
-- but an object.
pub record Codec {ℓ} (E : Type ℓ) : Type ℓ where
  pub dumps : E → List ℕ
  pub loads : List ℕ → Option E

abbrev pub newline : ℕ
newline = 10

-- The lines of a stream from the bytes already read of the first one; the last line may lack its end.
unfoldable pub lines_from : List ℕ → List ℕ → List (List ℕ)
lines_from acc [] = if is_empty acc then [] else acc ∷ []
lines_from acc (c ∷ cs) =
    let next = lines_from [] cs in
    let more = lines_from (acc ++ c ∷ []) cs in if c == newline then acc ∷ next else more

-- By the name of the file; the files of a directory in the order of their names.
abbrev pub Files : Type 0
Files = Dict (List ℕ)

abbrev pub Offsets : Type 0
Offsets = Dict ℕ

abbrev pub offset_of : String → Offsets → ℕ
offset_of path offsets = elim (lookup path offsets) [ none ↦ 0 | some n ↦ n ]

-- The files at or after a month, by the text of the month.
unfoldable pub at_or_before : List ℕ → List ℕ → Bool
at_or_before [] ds = true
at_or_before (c ∷ cs) [] = false
at_or_before (c ∷ cs) (d ∷ ds) =
    let rest = at_or_before cs ds in if ltb c d then true else c == d && rest

-- `path.stem[len("events-"):]` of events-YYYY-MM.jsonl.
unfoldable pub month_of : String → List ℕ
month_of path = take 7 (drop 7 (codes path))

-- `seed_at_eof`.
unfoldable pub seed_at_eof : Files → Offsets
seed_at_eof [] = []
seed_at_eof ((path, bytes) ∷ files) = (path, length bytes) ∷ seed_at_eof files

abbrev pub names {ℓ} : {V : Type ℓ} → Dict V → List String
names d = map (λ e. e.0) d

abbrev pub set_offset : String → Option ℕ → Offsets → Offsets
set_offset path none offsets = offsets
set_offset path (some n) offsets = insert path n offsets

abbrev pub monitor_event_buffer : ℕ
monitor_event_buffer = 20000

module _ {ℓ} {E : Type ℓ} (codec : Codec E) where
  -- A line that is not blank and decodes.
  unfoldable pub parsed_line : List ℕ → Option (List ℕ × E)
  parsed_line line =
      let text = strip line in
      if is_empty text
      then none
      else elim (codec.loads text) [ none ↦ none | some e ↦ some (text, e) ]

  unfoldable pub parsed_lines : List (List ℕ) → List (List ℕ × E)
  parsed_lines [] = []
  parsed_lines (line ∷ lines) =
      let rest = parsed_lines lines in elim (parsed_line line) [ none ↦ rest | some r ↦ r ∷ rest ]

  -- `_iter_parsed_lines` on a stream, and `iter_event_dicts`.
  unfoldable pub iter_parsed_lines : List ℕ → List (List ℕ × E)
  iter_parsed_lines bytes = parsed_lines (lines_from [] bytes)

  unfoldable pub iter_event_dicts : List ℕ → List E
  iter_event_dicts bytes = map (λ r. r.1) (iter_parsed_lines bytes)

  -- `emit` on the file of the current month.
  unfoldable pub emit : E → List ℕ → List ℕ
  emit e bytes = bytes ++ (codec.dumps e ++ newline ∷ [])

  -- One path of `read_new_raw`: what it reads, and the offset that it writes.
  unfoldable pub read_path : List ℕ → ℕ → List (List ℕ × E) × Option ℕ
  read_path bytes offset =
      let size = length bytes in
      let pos = if ltb size offset then 0 else offset in
      if size == pos then ([], none) else (iter_parsed_lines (drop pos bytes), some size)

  -- A path that is not there yields nothing and keeps its offset.
  unfoldable pub read_new_raw : Files → List String → Offsets → List (List ℕ × E) × Offsets
  read_new_raw files [] offsets = ([], offsets)
  read_new_raw files (path ∷ paths) offsets = elim (lookup path files) [
    | none ↦ read_new_raw files paths offsets
    | some bytes ↦
        let (records, end) = read_path bytes (offset_of path offsets) in
        let (rest, last) = read_new_raw files paths (set_offset path end offsets) in
        (records ++ rest, last)
  ]

  unfoldable pub read_new : Files → List String → Offsets → List E × Offsets
  read_new files paths offsets =
      let (records, last) = read_new_raw files paths offsets in (map (λ r. r.1) records, last)

  -- `scan`, over files that can be read.
  unfoldable pub scan : Files → List E
  scan [] = []
  scan ((path, bytes) ∷ files) = iter_event_dicts bytes ++ scan files

  -- One turn of `follow` over a scope: the records, or a wait.
  unfoldable pub follow_turn : (Files → List String) → Files → Offsets → List (List ℕ × E) × Offsets
  follow_turn scope files offsets = read_new_raw files (scope files) offsets

  -- `replay_since`: the records, and the seed for the current month's file.
  unfoldable pub replay_since : String → List ℕ → Files → Offsets → List (List ℕ × E) × Offsets
  replay_since current since [] seed = ([], seed)
  replay_since current since ((path, bytes) ∷ files) seed =
      let seed' = if str_eq path current then insert path (length bytes) seed else seed in
      let (rest, last) = replay_since current since files seed' in
      if at_or_before since (month_of path)
      then (iter_parsed_lines bytes ++ rest, last)
      else (rest, last)

  -- `_EventTail.read` of agent_runner/_monitor_state.py: the buffer keeps the newest events.
  unfoldable pub tail_read : Files → Offsets × List E → Offsets × List E
  tail_read files (offsets, buffer) =
      let (fresh, offsets') = read_new files (names files) offsets in
      (offsets', last_n monitor_event_buffer (buffer ++ fresh))
