-- ===== src/Logging/Lines.antt =====
-- What reaches the file of src/logging/logger.cpp.
use lob_engine.Prelude.{
  ℕ, zero, suc, ◌+◌, ◌-◌, ◌<◌, ◌≡◌, ◌⊎◌, refl, sym, ap, ◌∙◌, inl, inr, List, [], ◌∷◌, ◌++◌, map,
  append_assoc, append-nil, arith, length, length-append, min, ok, Bytes, u64_mod, ◌==◌,
  if◌then◌else◌,
}
use lob_engine.SpscQueue.{DropQueue, capacity, enqueue, enqueue_all}
use lob_engine.SpscQueue.Refine.{Holds}
use lob_engine.SpscQueue.Drops.{enqueue_all_keeps}
use lob_engine.Gateway.Publish.Sends.{drain_ring_empties, emit_all}
use lob_engine.Logging.Records.{
  LogRecord, LogEntry, copy_over, zeros, stored_text, make_record, log_entry, c_string, line_of,
  write_record, logger_drain,
}

abbrev first_part : ℕ → Bytes → Bytes
first_part zero text = []
first_part (suc n) [] = []
first_part (suc n) (c ∷ text) = c ∷ first_part n text

-- What is left of a text: at most so many bytes, up to a zero byte.
abbrev pub visible : ℕ → Bytes → Bytes
visible n text = c_string (first_part n text)

min-suc : (a b : ℕ) → min (suc a) (suc b) ≡ suc (min a b)
min-suc a b = omega arith

min-zero : (a : ℕ) → min a 0 ≡ 0
min-zero a = omega arith

zero-min : (a : ℕ) → min 0 a ≡ 0
zero-min a = omega arith

-- The copy of a text into a field that is one byte longer ends with a zero byte.
copied :
    (n : ℕ) (text : Bytes)
    → c_string (copy_over (min (length text) n) text (zeros (suc n))) ≡ visible n text
copied zero text = rw (min-zero (length text)) refl
copied (suc n) [] = rw (zero-min (suc n)) refl
copied (suc n) (c ∷ text) =
    rw (min-suc (length text) n) (ap (λ r. if c == 0 then [] else (c ∷ r)) (copied n text))

pub c_string-stored_text :
    (n : ℕ) (text : Bytes) → c_string (stored_text (suc n) text) ≡ visible n text
unfolding stored_text
c_string-stored_text n text = rw (same n) (copied n text)
  where
    same : (n : ℕ) → suc n - 1 ≡ n
    same n = omega arith

-- The line of an entry: at most 15 bytes of the category and 255 of the message.
abbrev pub entry_line : (ℕ → Bytes) → LogEntry → Bytes
entry_line to_string e =
    line_of to_string e.level (visible 15 e.category) (visible 255 e.message) e.now

abbrev pub entry_lines : (ℕ → Bytes) → List LogEntry → Bytes
entry_lines to_string [] = []
entry_lines to_string (e ∷ es) = entry_line to_string e ++ entry_lines to_string es

abbrev pub log_entries : ℕ → DropQueue LogRecord → List LogEntry → DropQueue LogRecord
log_entries bits d [] = d
log_entries bits d (e ∷ es) = log_entries bits (log_entry bits d e) es

-- A split of the records is a split of the entries.
split_entries :
    (es : List LogEntry) (kept lost : List LogRecord)
    → map make_record es ≡ kept ++ lost
    → (ks : List LogEntry) × (ls : List LogEntry) × (es ≡ ks ++ ls)
      × (map make_record ks ≡ kept)
      × (map make_record ls ≡ lost)
split_entries es [] lost h = ([], es, refl, refl, h)
split_entries [] (r ∷ kept) lost h = absurd (cc h)
split_entries (e ∷ es) (r ∷ kept) lost h =
    let (ks, ls, split, k, l) = split_entries es kept lost (cc h) in
    (e ∷ ks, ls, ap (◌∷◌ e) split, cc (h, k), l)

length-map : (es : List LogEntry) → length (map make_record es) ≡ length es
length-map [] = refl
length-map (e ∷ es) = ap suc (length-map es)

no_records : (es : List LogEntry) → map make_record es ≡ [] → es ≡ []
no_records [] h = refl
no_records (e ∷ es) h = absurd (cc h)

module _ (to_string : ℕ → Bytes) (bits : ℕ) where
  entries_records :
      (d : DropQueue LogRecord) (es : List LogEntry)
      → log_entries bits d es ≡ enqueue_all bits d (map make_record es)
  unfolding log_entry enqueue_all
  entries_records d [] = refl
  entries_records d (e ∷ es) = entries_records (enqueue bits d (make_record e)) es

  written_line :
      (file : Bytes) (e : LogEntry)
      → write_record to_string file (make_record e) ≡ file ++ entry_line to_string e
  unfolding write_record make_record
  written_line file e =
      rw (c_string-stored_text 15 e.category, c_string-stored_text 255 e.message) refl

  written_lines :
      (file : Bytes) (es : List LogEntry)
      → emit_all bits (write_record to_string) file (map make_record es)
        ≡ file ++ entry_lines to_string es
  written_lines file [] = sym (append-nil file)
  written_lines file (e ∷ es) =
      ap (λ f. emit_all bits (write_record to_string) f (map make_record es)) (written_line file e)
      ∙ written_lines (file ++ entry_line to_string e) es
      ∙ append_assoc file (entry_line to_string e) (entry_lines to_string es)

  -- Entries are logged to a ring that is empty, and the writer then runs to its end: the file gets
  -- a line for each of the first entries, in order, with at most 15 bytes of its category and 255
  -- of its message, each up to a zero byte. The other entries were dropped, which happens only to
  -- a full ring, and counted, as long as the counter stays below 2 ^ 64.
  pub logger_writes :
      (rounds : ℕ) (d : DropQueue LogRecord) (es : List LogEntry) (file : Bytes)
      → Holds bits d.ring []
      → d.drops + length es < u64_mod
      → length es < rounds
      → (ks : List LogEntry) × (ls : List LogEntry) × (es ≡ ks ++ ls)
        × (d' : DropQueue LogRecord) × (logger_drain to_string bits rounds
              (log_entries bits d es)
              file
            ≡ ok (d', file ++ entry_lines to_string ks))
        × Holds bits d'.ring []
        × (d'.drops ≡ d.drops + length ls)
        × ((ls ≡ []) ⊎ (suc (length ks) ≡ capacity bits))
  unfolding logger_drain
  logger_writes rounds d es file v small enough =
      let same = entries_records d es in
      let (kept, lost, split, held, drops, why) =
        enqueue_all_keeps bits d [] (map make_record es) v (omega (arith, small, length-map es)) in
      let (ks, ls, split', k, l) = split_entries es kept lost split in
      let few : length kept < rounds =
        omega (arith, enough, length-map es, ap length split, length-append kept lost) in
      let (d', done, emptied, drops') =
        drain_ring_empties bits (write_record to_string) rounds
          (enqueue_all bits d (map make_record es)) file kept held few in
      (
        ks,
        ls,
        split',
        d',
        rw (same, done)
            (ap (λ f. ok (d', f))
              (ap (emit_all bits (write_record to_string) file) (sym k) ∙ written_lines file ks)),
        emptied,
        omega (arith, drops', drops, ap length l, length-map ls),
        elim why [
          | inl none_lost ↦ inl (no_records ls (l ∙ none_lost))
          | inr full ↦ inr (omega (arith, full, ap length k, length-map ks))
        ],
      )
