-- ===== src/Tests/Logging.antt =====
-- Runs of the logger.
use lob_engine.Prelude.{
  ℕ, suc, ◌+◌, ◌≡◌, ◌⊎◌, refl, List, [], ◌∷◌, ◌++◌, arith, length, ok, Bytes, codes,
}
use lob_engine.SpscQueue.{DropQueue, capacity}
use lob_engine.SpscQueue.Refine.{Holds, initial-Holds}
use lob_engine.Logging.Records.{
  LogLevel, LogRecord, LogEntry, make_record, stored_text, logger_drain,
}
use lob_engine.Logging.Lines.{entry_line, entry_lines, log_entries, logger_writes}

abbrev one_digit : ℕ → Bytes
one_digit n = (n + b'0') ∷ []

abbrev long_category : LogEntry
long_category = record {
  level = LogLevel.warn;
  category = codes "matching_engine_1";
  message = codes "full";
  now = 7;
}

-- The category is cut after 15 bytes.
long_category_line :
    entry_line one_digit long_category
    ≡ codes "{\"ts\":7,\"level\":\"WARN\",\"cat\":\"matching_engine\",\"msg\":\"full\"}\n"
long_category_line = refl

abbrev empty_log : DropQueue LogRecord
unfolding make_record stored_text
empty_log = record {
  ring = record { head = 0; tail = 0; buffer = λ i. make_record long_category };
  drops = 0;
}

-- A ring of two places keeps the first of two entries.
logger_writes_example :
    (ks : List LogEntry) × (ls : List LogEntry) × (long_category ∷ long_category ∷ [] ≡ ks ++ ls)
    × (d' : DropQueue LogRecord) × (logger_drain one_digit 1 3
          (log_entries 1 empty_log (long_category ∷ long_category ∷ []))
          []
        ≡ ok (d', [] ++ entry_lines one_digit ks))
    × Holds 1 d'.ring []
    × (d'.drops ≡ 0 + length ls)
    × ((ls ≡ []) ⊎ (suc (length ks) ≡ capacity 1))
unfolding make_record stored_text
logger_writes_example =
    logger_writes one_digit 1 3 empty_log (long_category ∷ long_category ∷ []) []
      (initial-Holds 1 _ (omega arith)) (omega arith) (omega arith)
