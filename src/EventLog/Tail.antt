-- ===== src/EventLog/Tail.antt =====
-- Reading back what `emit` appended, with offsets carried from poll to poll: agent_runner/event_log.py
-- against the one abstract list of the events in the file.
use mathlib.Core.List.{append-nil, append_assoc}
use cli_agent_runner.Prelude.{
  ◌&&◌, ◌++◌, ◌==◌, Bool, List, [], ap, drop, false, is_empty, length, not, refl, some, strip, true,
  ℕ, ◌∷◌, ◌≡◌, Bool-cases, String, arith, inl, inr, map, sym, ◌∙◌, ◌<◌, Option, length-append,
  lookup, none, str_eq_iff, ltb, lookup-insert,
}
use cli_agent_runner.EventLog.{
  Codec, newline, Offsets, iter_event_dicts, iter_parsed_lines, lines_from, parsed_line,
  parsed_lines, Files, emit, offset_of, read_new, read_new_raw, read_path, set_offset,
}

abbrev pub newline_free : List ℕ → Bool
newline_free [] = true
newline_free (c ∷ cs) = not (c == newline) && newline_free cs

-- What the reader relies on of the json module: a rendered object is read back, takes one line, and has
-- no white space at its ends.
pub record Lawful {ℓ} {E : Type ℓ} (codec : Codec E) : Type ℓ where
  pub loads-dumps : (e : E) → codec.loads (codec.dumps e) ≡ some e
  pub one_line : (e : E) → newline_free (codec.dumps e) ≡ true
  pub trimmed : (e : E) → strip (codec.dumps e) ≡ codec.dumps e
  pub nonempty : (e : E) → is_empty (codec.dumps e) ≡ false

drop-append {ℓ} : {A : Type ℓ} (xs ys : List A) → drop (length xs) (xs ++ ys) ≡ ys
drop-append [] ys = refl
drop-append (x ∷ xs) ys = drop-append xs ys

lines-line :
    (acc xs ys : List ℕ)
    → newline_free xs ≡ true
    → lines_from acc (xs ++ newline ∷ ys) ≡ (acc ++ xs) ∷ lines_from [] ys
unfolding lines_from
lines-line acc [] ys h = rw append-nil refl
lines-line acc (x ∷ xs) ys h = elim (Bool-cases (x == newline)) [
  | inl e ↦ absurd (ground (arith, e, h))
  | inr e ↦ rw e (
      lines-line (acc ++ x ∷ []) xs ys (ground (arith, e, h))
      ∙ ap (λ l. l ∷ lines_from [] ys) (append_assoc acc (x ∷ []) xs))
]

module _ {ℓ} {E : Type ℓ} (codec : Codec E) (law : Lawful codec) where
  -- The bytes of a file of these events.
  abbrev pub encode : List E → List ℕ
  encode [] = []
  encode (e ∷ es) = codec.dumps e ++ newline ∷ encode es

  encode-append : (xs ys : List E) → encode (xs ++ ys) ≡ encode xs ++ encode ys
  encode-append [] ys = refl
  encode-append (x ∷ xs) ys =
      ap (λ l. codec.dumps x ++ newline ∷ l) (encode-append xs ys)
      ∙ sym (append_assoc (codec.dumps x) (newline ∷ encode xs) (encode ys))

  parsed-dumps : (e : E) → parsed_line codec (codec.dumps e) ≡ some (codec.dumps e, e)
  unfolding parsed_line
  parsed-dumps e =
      rw (law.trimmed e, law.nonempty e, law.loads-dumps e) (ap (λ l. some (l, e)) (law.trimmed e))

  iter-encode : (es : List E) → iter_event_dicts codec (encode es) ≡ es
  unfolding iter_event_dicts iter_parsed_lines parsed_lines
  iter-encode [] = unfold lines_from in refl
  iter-encode (e ∷ es) =
      rw (lines-line [] (codec.dumps e) (encode es) (law.one_line e), parsed_lines, parsed-dumps e)
        (ap (λ l. e ∷ l) (iter-encode es))

  abbrev pub alone : String → List ℕ → Files
  alone path bytes = (path, bytes) ∷ []

  lookup-alone : (path : String) (bytes : List ℕ) → lookup path (alone path bytes) ≡ some bytes
  unfolding lookup
  lookup-alone path bytes = ground (arith, str_eq_iff path path)

  read_new-alone :
      (path : String) (bytes : List ℕ) (offsets : Offsets)
      → read_new codec (alone path bytes) (path ∷ []) offsets ≡ (
        map (λ r. r.1) (read_path codec bytes (offset_of path offsets)).0,
        set_offset path (read_path codec bytes (offset_of path offsets)).1 offsets,
      )
  unfolding read_new read_new_raw read_path
  read_new-alone path bytes offsets =
      rw (read_new_raw, lookup-alone path bytes, read_new_raw, append-nil) refl

  abbrev pub ends_at : ℕ → Option ℕ → ℕ
  ends_at from none = from
  ends_at from (some n) = n

  read_path-more :
      (bytes : List ℕ) (n : ℕ)
      → n < length bytes
      → read_path codec bytes n ≡ (iter_parsed_lines codec (drop n bytes), some (length bytes))
  unfolding read_path
  read_path-more bytes n h =
      let fits : ltb (length bytes) n ≡ false = ground arith in
      let more : (length bytes == n) ≡ false = ground arith in rw (fits, more) refl

  read_path-same : (bytes : List ℕ) → read_path codec bytes (length bytes) ≡ ([], none)
  unfolding read_path
  read_path-same bytes =
      let fits : ltb (length bytes) (length bytes) ≡ false = ground arith in
      let same : (length bytes == length bytes) ≡ true = ground arith in rw (fits, same) refl

  -- What is read at an offset where the rest of the file is whole lines.
  read_path-rest :
      (before : List ℕ) (rest : List E)
      → (map (λ r. r.1) (read_path codec (before ++ encode rest) (length before)).0 ≡ rest)
        × (ends_at (length before) (read_path codec (before ++ encode rest) (length before)).1
            ≡ length (before ++ encode rest))
  unfolding iter_parsed_lines iter_event_dicts
  read_path-rest before [] = rw (append-nil, read_path-same before) (refl, refl)
  read_path-rest before (e ∷ es) =
      let longer : length before < length (before ++ encode (e ∷ es)) = omega (
        arith,
        length-append before (encode (e ∷ es)),
        length-append (codec.dumps e) (newline ∷ encode es),
      ) in
      rw (read_path-more (before ++ encode (e ∷ es)) (length before) longer) (
        ap (iter_event_dicts codec) (drop-append before (encode (e ∷ es))) ∙ iter-encode (e ∷ es),
        refl,
      )

  offset_of-set_offset :
      (path : String) (end : Option ℕ) (offsets : Offsets)
      → offset_of path (set_offset path end offsets) ≡ ends_at (offset_of path offsets) end
  offset_of-set_offset path none offsets = refl
  offset_of-set_offset path (some n) offsets =
      ground (arith, lookup-insert path path n offsets, str_eq_iff path path)

  -- A read at an offset before whole lines yields them, and moves the offset to the end.
  read_new-rest :
      (path : String) (offsets : Offsets) (before : List ℕ) (rest : List E)
      → offset_of path offsets ≡ length before
      → (let after = read_new codec (alone path (before ++ encode rest)) (path ∷ []) offsets in
          (after.0 ≡ rest) × (offset_of path after.1 ≡ length (before ++ encode rest)))
  read_new-rest path offsets before rest h =
      let r = read_path codec (before ++ encode rest) (length before) in
      rw (read_new-alone path (before ++ encode rest) offsets, h)
        (
          (read_path-rest before rest).0,
          offset_of-set_offset path r.1 offsets
              ∙ ap (λ n. ends_at n r.1) h
              ∙ (read_path-rest before rest).1,
        )

  abbrev pub emit_all : List E → List ℕ → List ℕ
  emit_all [] bytes = bytes
  emit_all (e ∷ es) bytes = emit_all es (emit codec e bytes)

  emit_all-encode : (es : List E) (bytes : List ℕ) → emit_all es bytes ≡ bytes ++ encode es
  unfolding emit
  emit_all-encode [] bytes = rw append-nil refl
  emit_all-encode (e ∷ es) bytes =
      emit_all-encode es (emit codec e bytes)
      ∙ append_assoc bytes (codec.dumps e ++ newline ∷ []) (encode es)
      ∙ ap (λ l. bytes ++ l) (append_assoc (codec.dumps e) (newline ∷ []) (encode es))

  -- Events that are emitted to a file are what the next read of it yields, whatever stood in the file
  -- before, if the reader's offset was at the end of it.
  pub emitted_are_read :
      (path : String) (offsets : Offsets) (bytes : List ℕ) (es : List E)
      → offset_of path offsets ≡ length bytes
      → (read_new codec (alone path (emit_all es bytes)) (path ∷ []) offsets).0 ≡ es
  emitted_are_read path offsets bytes es h =
      rw (emit_all-encode es bytes) (read_new-rest path offsets bytes es h).0

  pub record TailState : Type ℓ where
    pub content : List ℕ
    pub offsets : Offsets
    pub delivered : List E

  -- An event is emitted, or the reader polls and hands on what is new.
  pub data Step (path : String) : TailState → TailState → Type ℓ where
    emitted : (t : TailState) (e : E) → Step path t (record t { content = emit codec e t.content })
    polled :
        (t : TailState)
        → Step path t (record {
          content = t.content;
          offsets = (read_new codec (alone path t.content) (path ∷ []) t.offsets).1;
          delivered =
              t.delivered ++ (read_new codec (alone path t.content) (path ∷ []) t.offsets).0;
        })

  pub data Reach (path : String) (s : TailState) : TailState → Type ℓ where
    here : Reach path s s
    next : {t u : TailState} → Reach path s t → Step path t u → Reach path s u

  -- What the reader has handed on, and what it has still to read.
  record Split (path : String) (t : TailState) : Type ℓ where
    done : List E
    pending : List E
    content_eq : t.content ≡ encode done ++ encode pending
    offset_eq : offset_of path t.offsets ≡ length (encode done)
    delivered_eq : t.delivered ≡ done

  emitted-content :
      (done pending : List E) (e : E) (bytes : List ℕ)
      → bytes ≡ encode done ++ encode pending
      → emit codec e bytes ≡ encode done ++ encode (pending ++ e ∷ [])
  unfolding emit
  emitted-content done pending e bytes h =
      ap (λ c. c ++ (codec.dumps e ++ newline ∷ [])) h
      ∙ append_assoc (encode done) (encode pending) (codec.dumps e ++ newline ∷ [])
      ∙ ap (λ l. encode done ++ l) (sym (encode-append pending (e ∷ [])))

  -- What the next poll yields.
  abbrev pub next_poll : String → TailState → List E × Offsets
  next_poll path t = read_new codec (alone path t.content) (path ∷ []) t.offsets

  Split-poll :
      (path : String) (t : TailState) (s : Split path t)
      → ((next_poll path t).0 ≡ s.pending)
        × (offset_of path (next_poll path t).1 ≡ length (encode s.done ++ encode s.pending))
  Split-poll path t s =
      rw s.content_eq (read_new-rest path t.offsets (encode s.done) s.pending s.offset_eq)

  Step-Split : {path : String} {t u : TailState} → Step path t u → Split path t → Split path u
  Step-Split (emitted t e) s = record {
    done = s.done;
    pending = s.pending ++ e ∷ [];
    content_eq = emitted-content s.done s.pending e t.content s.content_eq;
    offset_eq = s.offset_eq;
    delivered_eq = s.delivered_eq;
  }
  Step-Split {path} (polled t) s = record {
    done = s.done ++ s.pending;
    pending = [];
    content_eq =
        s.content_eq
        ∙ sym (encode-append s.done s.pending)
        ∙ sym (append-nil (encode (s.done ++ s.pending)));
    offset_eq = (Split-poll path t s).1 ∙ ap length (sym (encode-append s.done s.pending));
    delivered_eq =
        ap (λ l. t.delivered ++ l) (Split-poll path t s).0
        ∙ ap (λ d. d ++ s.pending) s.delivered_eq;
  }

  Reach-Split : {path : String} {s t : TailState} → Reach path s t → Split path s → Split path t
  Reach-Split here h = h
  Reach-Split (next r st) h = Step-Split st (Reach-Split r h)

  -- A reader that starts at the head of a file of whole lines.
  abbrev pub at_head : List E → TailState
  at_head es = record { content = encode es; offsets = []; delivered = [] }

  at_head-Split : (path : String) (es : List E) → Split path (at_head es)
  unfolding lookup
  at_head-Split path es = record {
    done = [];
    pending = es;
    content_eq = refl;
    offset_eq = refl;
    delivered_eq = refl;
  }

  -- The tailer refines the plain list of the file's events: however emits and polls interleave, what it
  -- has handed on, followed by what the next poll yields, is every event of the file, once and in order.
  pub tail_exactly_once :
      (path : String) (es : List E) (t : TailState)
      → Reach path (at_head es) t
      → t.delivered ++ (next_poll path t).0 ≡ iter_event_dicts codec t.content
  tail_exactly_once path es t r =
      let s = Reach-Split r (at_head-Split path es) in
      ap (λ l. t.delivered ++ l) (Split-poll path t s).0
      ∙ ap (λ d. d ++ s.pending) s.delivered_eq
      ∙ sym (iter-encode (s.done ++ s.pending))
      ∙ ap (iter_event_dicts codec) (encode-append s.done s.pending ∙ sym s.content_eq)
