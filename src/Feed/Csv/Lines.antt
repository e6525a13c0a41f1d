-- ===== src/Feed/Csv/Lines.antt =====
-- The calls of `next` of src/feed/csv_replay.cpp against the lines of the file.
use lob_engine.Prelude.{
  ℕ, zero, suc, ◌+◌, ◌<◌, ◌≤◌, ◌≡◌, refl, ap₂, ◌∙◌, List, [], ◌∷◌, arith, Run, ok, add64,
  add64-of_lt, u64_mod, length, Bytes, ◌⊎◌, inl, inr,
}
use lob_engine.Core.{OrderEvent}
use lob_engine.Feed.Csv.{
  after_line, Numbers, Parsed, CsvReplayReader, parse_line, next, next_from, read_all,
}

module _ (numbers : Numbers) where
  abbrev put_event : Parsed → List OrderEvent → List OrderEvent
  put_event (Parsed.event ev) evs = ev ∷ evs
  put_event _ evs = evs

  -- The events of the lines that give one.
  abbrev pub events_of : List Bytes → List OrderEvent
  events_of [] = []
  events_of (line ∷ lines) = put_event (parse_line numbers line) (events_of lines)

  put_event-length :
      (p : Parsed) (evs : List OrderEvent) → length (put_event p evs) ≤ suc (length evs)
  put_event-length (Parsed.event ev) evs = omega arith
  put_event-length Parsed.skipped evs = omega arith
  put_event-length Parsed.failed evs = omega arith

  pub events_of-length : (lines : List Bytes) → length (events_of lines) ≤ length lines
  events_of-length [] = omega arith
  events_of-length (line ∷ lines) =
      omega (
        arith,
        put_event-length (parse_line numbers line) (events_of lines),
        events_of-length lines,
      )

  abbrev count_failure : Parsed → ℕ → ℕ
  count_failure Parsed.failed n = suc n
  count_failure _ n = n

  -- The number of the lines that are refused.
  abbrev pub failures_of : List Bytes → ℕ
  failures_of [] = 0
  failures_of (line ∷ lines) = count_failure (parse_line numbers line) (failures_of lines)

  Parsed-cases :
      (p : Parsed)
      → (p ≡ Parsed.skipped) ⊎ (p ≡ Parsed.failed) ⊎ ((ev : OrderEvent) × (p ≡ Parsed.event ev))
  Parsed-cases Parsed.skipped = inl refl
  Parsed-cases Parsed.failed = inr (inl refl)
  Parsed-cases (Parsed.event ev) = inr (inr (ev, refl))

  -- The reader at the end of its file, with what it gave.
  abbrev ended_with : List OrderEvent → ℕ → ℕ → Run (List OrderEvent × CsvReplayReader)
  ended_with evs n errors = ok (evs, record { file = []; line_number = n; error_count = errors })

  read_from :
      (lines : List Bytes) (f n errors : ℕ)
      → length lines < f
      → n + length lines < u64_mod
      → errors + length lines < u64_mod
      → read_all numbers f (record { file = lines; line_number = n; error_count = errors })
        ≡ ended_with (events_of lines) (n + length lines) (errors + failures_of lines)
  unfolding read_all next next_from
  read_from lines zero n errors w a b = absurd (omega (arith, w))
  read_from [] (suc f) n errors w a b = ap₂ (ended_with []) (omega arith) (omega arith)
  read_from (line ∷ lines) (suc f) n errors w a b =
      let one_more : add64 n 1 ≡ n + 1 = add64-of_lt n 1 (omega (arith, a)) in
      let one_worse : add64 errors 1 ≡ errors + 1 = add64-of_lt errors 1 (omega (arith, b)) in
      elim (Parsed-cases (parse_line numbers line)) [
        | inl s ↦
            rw (s, one_more)
              (read_from lines (suc f) (n + 1) errors (omega (arith, w)) (omega (arith, a))
                  (omega (arith, b))
                ∙ ap₂ (ended_with (events_of lines)) (omega arith) (omega arith))
        | inr (inl s) ↦
            rw (s, after_line, one_more, one_worse)
              (read_from lines (suc f) (n + 1) (errors + 1) (omega (arith, w)) (omega (arith, a))
                  (omega (arith, b))
                ∙ ap₂ (ended_with (events_of lines)) (omega arith) (omega arith))
        | inr (inr (ev, s)) ↦
            rw (s, one_more)
              (rw
                (read_from lines f (n + 1) errors (omega (arith, w)) (omega (arith, a))
                  (omega (arith, b)))
                (ap₂ (ended_with (ev ∷ events_of lines)) (omega arith) (omega arith)))
      ]

-- Calling `next` until it gives no event, more often than there are lines, gives the events of the
-- lines that parse, in their order; the reader is then at the end of its file, has counted every
-- line, and as errors exactly the lines that are refused: a bad line is passed over and stops
-- nothing. The counters stay below 2 ^ 64.
pub read_all_lines :
    (numbers : Numbers) (f : ℕ) (r : CsvReplayReader)
    → length r.file < f
    → r.line_number + length r.file < u64_mod
    → r.error_count + length r.file < u64_mod
    → read_all numbers f r
      ≡ ok (
        events_of numbers r.file,
        record {
          file = [];
          line_number = r.line_number + length r.file;
          error_count = r.error_count + failures_of numbers r.file;
        },
      )
read_all_lines numbers f r = read_from numbers r.file f r.line_number r.error_count
