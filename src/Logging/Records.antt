-- ===== src/Logging/Records.antt =====
-- `Logger::log` and `Logger::writer_loop` of src/logging/logger.cpp, with `LogRecord` and `level_str`
-- of logger.hpp. std::to_string is a parameter; a reading of the clock is a part of the entry.
use lob_engine.Prelude.{
  ℕ, zero, suc, ◌-◌, ◌==◌, [], ◌∷◌, ◌++◌, if◌then◌else◌, Run, Bytes, codes, min, length,
}
use lob_engine.SpscQueue.{DropQueue, enqueue}
use lob_engine.Gateway.Publish.{drain_ring}

-- `Logger::Level`
pub data LogLevel : Type 0 where
  debug info warn error : LogLevel

pub record LogRecord : Type 0 where
  pub level : LogLevel
  pub category : Bytes
  pub message : Bytes
  pub timestamp : ℕ

-- What `log` is called with, and the reading of the clock.
pub record LogEntry : Type 0 where
  pub level : LogLevel
  pub category : Bytes
  pub message : Bytes
  pub now : ℕ

abbrev pub level_str : LogLevel → Bytes
level_str LogLevel.debug = codes "DEBUG"
level_str LogLevel.info = codes "INFO"
level_str LogLevel.warn = codes "WARN"
level_str LogLevel.error = codes "ERROR"

-- `std::memset(field, 0, size)`
abbrev pub zeros : ℕ → Bytes
zeros zero = []
zeros (suc n) = 0 ∷ zeros n

-- `std::memcpy(field, text, count)` over what the field holds
abbrev pub copy_over : ℕ → Bytes → Bytes → Bytes
copy_over zero text field = field
copy_over (suc count) [] field = field
copy_over (suc count) (c ∷ text) [] = []
copy_over (suc count) (c ∷ text) (_ ∷ field) = c ∷ copy_over count text field

-- A field of so many bytes after both.
unfoldable pub stored_text : ℕ → Bytes → Bytes
stored_text size text = copy_over (min (length text) (size - 1)) text (zeros size)

unfoldable pub make_record : LogEntry → LogRecord
unfolding stored_text
make_record e = record {
  level = e.level;
  category = stored_text 16 e.category;
  message = stored_text 256 e.message;
  timestamp = e.now;
}

unfoldable pub log_entry : ℕ → DropQueue LogRecord → LogEntry → DropQueue LogRecord
unfolding make_record enqueue
log_entry bits d e = enqueue bits d (make_record e)

-- How `operator<<` reads an array of char.
abbrev pub c_string : Bytes → Bytes
c_string [] = []
c_string (c ∷ cs) = if c == 0 then [] else c ∷ c_string cs

abbrev pub line_of : (ℕ → Bytes) → LogLevel → Bytes → Bytes → ℕ → Bytes
line_of to_string level category message ts =
    codes "{\"ts\":"
    ++ to_string ts
    ++ codes ",\"level\":\""
    ++ level_str level
    ++ codes "\",\"cat\":\""
    ++ category
    ++ codes "\",\"msg\":\""
    ++ message
    ++ codes "\"}\n"

unfoldable pub write_record : (ℕ → Bytes) → Bytes → LogRecord → Bytes
write_record to_string file r =
    file ++ line_of to_string r.level (c_string r.category) (c_string r.message) r.timestamp

-- `writer_loop` once `stop` has cleared the flag, at most so many rounds.
unfoldable pub logger_drain :
    (ℕ → Bytes) → ℕ → ℕ → DropQueue LogRecord → Bytes → Run (DropQueue LogRecord × Bytes)
unfolding drain_ring write_record
logger_drain to_string bits rounds d file = drain_ring bits (write_record to_string) rounds d file
