-- ===== src/Tests/Feed.antt =====
-- Runs of the generator, the CSV reader and the replay tool.
use lob_engine.Prelude.{
  ℕ, suc, ◌+◌, ◌*◌, ◌-◌, ◌≡◌, ◌≢◌, refl, ◌↔◌, true, false, Option, none, some, List, [], ◌∷◌, ◌%◌,
  ◌==◌, arith, ok, ℤ, pos, negsuc, length, min, leb, ◌&&◌, if◌then◌else◌, Bytes, codes, member,
}
use lob_engine.Prelude.{pieces, map, same_bytes}
use lob_engine.Prelude.Options.{◌>>=◌}
use lob_engine.Core.{OrderEvent}
use lob_engine.Engine.State.{Engine, MatchResult, initial}
use lob_engine.Engine.Submit.{submit_all}
use lob_engine.Engine.Valid.{initial-Valid}
use lob_engine.Engine.History.{fresh, submit_all-LandsAll}
use lob_engine.Book.Uncrossed.{IsUncrossed, BestsApart}
use lob_engine.Feed.Synthetic.{
  Draws, InRange, SyntheticGenerator, EngineConfig, generator, next_all,
}
use lob_engine.Feed.Synthetic.Feeds.{IsFeed, next_all_feeds}
use lob_engine.Feed.Synthetic.Runs.{feed_runs}
use lob_engine.Feed.Csv.{
  new_row, parse_side, parse_order_type, Numbers, CsvReplayReader, Parsed, parse_line, read_all,
  open_reader,
}
use lob_engine.Feed.Csv.Lines.{events_of, read_all_lines}
use lob_engine.Feed.Csv.Rows.{Written, row_of, parse_line-row_of}
use lob_engine.Tools.Replay.{
  Writers, Replayed, replay_events, ReplayArgs, parse_args, parse_args_from, trade_to_csv,
}
use lob_engine.Tools.Replay.Runs.{after, replay_events_submits}
use lob_engine.Tools.Replay.Main.{Exit, replay_main, start_engine}
use lob_engine.Tools.Replay.Exits.{Expects, replay_main_exits}
use lob_engine.Engine.History.{all_trades}
use lob_engine.Tests.Snapshot.{one_number_a_field}
use lob_engine.Tests.Data.{submit_new, buy_limit}

-- A counter as the random engine: every third draw cancels, always the oldest.
abbrev pub counter : Draws ℕ
counter = record {
  cancels = λ g. (g % 3 == 2, suc g);
  buys = λ g. (g % 2 == 0, suc g);
  quantity = λ g. (10, suc g);
  index = λ n g. (0, suc g);
  spread = λ g. (pos 1, suc g);
  offset = λ g. (pos 2, suc g);
}

pub counter-InRange : InRange counter
counter-InRange = record { index = λ n g h. h; quantity = λ g. (omega arith, omega arith) }

abbrev around_10000 : EngineConfig
around_10000 = record { mid_price = pos 10000; market_maker_mode = true }

next_all_feeds_example :
    (r : List OrderEvent × SyntheticGenerator ℕ) × (next_all counter 5
        (generator around_10000 0 100)
      ≡ ok r)
    × (length r.0 ≡ min 5 100)
    × IsFeed (λ _. 0) 1 r.0
next_all_feeds_example = next_all_feeds counter around_10000 0 100 5 counter-InRange (omega arith)

feed_runs_example :
    (r : List OrderEvent × SyntheticGenerator ℕ) × (next_all counter 5
        (generator around_10000 0 100)
      ≡ ok r)
    × (a : Engine × List MatchResult) × (submit_all 6000 initial r.0 ≡ ok a)
    × IsUncrossed a.0.book
    × BestsApart a.0.book
feed_runs_example =
    feed_runs counter around_10000 0 100 5 6000 counter-InRange (omega arith) (omega arith)

-- Decimal numbers without a sign.
digits_from : ℕ → Bytes → Option ℕ
digits_from n [] = some n
digits_from n (c ∷ cs) =
    let rest = digits_from (10 * n + (c - b'0')) cs in
    if leb b'0' c && leb c b'9' then rest else none

decimal : Bytes → Option ℕ
decimal [] = none
decimal (c ∷ cs) = digits_from 0 (c ∷ cs)

abbrev decimals : Numbers
decimals = record { stoull = decimal; stoll = λ t. decimal t >>= λ n. some (pos n) }

abbrev two_lines : List Bytes
two_lines = codes "NEW,1,BUY,LIMIT,100,5,0,0,17" ∷ codes "NEW,x,BUY,LIMIT,100,5,0,0,17" ∷ []

abbrev two_line_reader : CsvReplayReader
two_line_reader = record { file = two_lines; line_number = 1; error_count = 0 }

abbrev first_line : OrderEvent
first_line = submit_new (record (buy_limit 1 100 5) { timestamp = 17 })

-- The first line is an order, the second is refused.
two_lines_events : events_of decimals two_lines ≡ first_line ∷ []
unfolding parse_line pieces new_row decimal digits_from parse_side parse_order_type
two_lines_events = refl

read_all_lines_example :
    read_all decimals 3 two_line_reader
    ≡ ok (first_line ∷ [], record { file = []; line_number = 3; error_count = 1 })
unfolding parse_line pieces new_row decimal digits_from parse_side parse_order_type
read_all_lines_example =
    read_all_lines decimals 3 two_line_reader (omega arith) (omega arith) (omega arith)

first_line_runs :
    (a : Engine × List MatchResult) × (submit_all 200 initial (events_of decimals two_lines) ≡ ok a)
first_line_runs =
    let (a, done, _) =
      submit_all-LandsAll 200 [] (first_line ∷ []) initial
        (initial-Valid (fresh []) (λ i. omega arith)) (refl, tt) (omega arith) in
    (a, rw two_lines_events done)

abbrev star_writers : Writers
star_writers = record { to_string = λ n. n ∷ []; price_to_string = λ z. b'*' ∷ [] }

abbrev started : Replayed
started = record { engine = initial; event_count = 0; trade_lines = [] }

replay_events_submits_example :
    replay_events decimals star_writers 200 3 two_line_reader started
    ≡ ok (after decimals star_writers 200 started (events_of decimals two_lines) first_line_runs.0)
replay_events_submits_example =
    replay_events_submits decimals star_writers 200 3 two_line_reader started first_line_runs.0
      (omega arith) (omega arith) (omega arith) (omega arith) first_line_runs.1

abbrev replay_files : Bytes → Option Bytes
replay_files path =
    if same_bytes path (codes "e")
    then some (codes "type,id\nNEW,1,BUY,LIMIT,100,5,0,0,17\nNEW,x,BUY,LIMIT,100,5,0,0,17\n")
    else if same_bytes path (codes "x")
    then some (codes "aggressor,passive\n")
    else none

abbrev replay_args : ReplayArgs
replay_args = record { events_path = codes "e"; snapshot_path = []; expected_path = codes "x" }

replay_main_exits_example :
    (code : ℕ) × (replay_main decimals star_writers one_number_a_field replay_files 200 3
        (codes "--expected" ∷ codes "x" ∷ codes "--events" ∷ codes "e" ∷ [])
      ≡ ok (Exit.returned code (map (trade_to_csv star_writers) (all_trades first_line_runs.0.1))))
    × ((code ≡ 0)
        ↔ Expects replay_files replay_args
            (map (trade_to_csv star_writers) (all_trades first_line_runs.0.1)))
unfolding open_reader pieces start_engine parse_args parse_args_from
replay_main_exits_example =
    replay_main_exits decimals star_writers one_number_a_field replay_files 200 3
      (codes "--expected" ∷ codes "x" ∷ codes "--events" ∷ codes "e" ∷ []) replay_args initial
      two_line_reader first_line_runs.0 refl refl refl (omega arith) (omega arith) (omega arith)
      first_line_runs.1

-- A number as one byte behind its sign.
abbrev one_byte : Bytes → Option ℕ
one_byte (c ∷ []) = some (c - 128)
one_byte _ = none

abbrev signed_byte : Bytes → Option ℤ
signed_byte (s ∷ c ∷ []) = if s == b'-' then some (negsuc (c - 128)) else some (pos (c - 128))
signed_byte _ = none

abbrev byte_numbers : Numbers
byte_numbers = record { stoull = one_byte; stoll = signed_byte }

abbrev write_byte : ℕ → Bytes
write_byte n = (n + 128) ∷ []

abbrev write_signed : ℤ → Bytes
write_signed (pos n) = b'+' ∷ (n + 128) ∷ []
write_signed (negsuc n) = b'-' ∷ (n + 128) ∷ []

reads_write_signed : (z : ℤ) → signed_byte (write_signed z) ≡ some z
reads_write_signed (pos n) = ground arith
reads_write_signed (negsuc n) = ground arith

write_signed_clean : (z : ℤ) → member b',' (write_signed z) ≡ false
write_signed_clean (pos n) = ground arith
write_signed_clean (negsuc n) = ground arith

write_signed_full : (z : ℤ) → write_signed z ≢ []
write_signed_full (pos n) e = cc e
write_signed_full (negsuc n) e = cc e

byte_written : Written byte_numbers
byte_written = record {
  digits = write_byte;
  signed = write_signed;
  reads_digits = λ n h. ground arith;
  reads_signed = λ z h. reads_write_signed z;
  digits_clean = λ n. ground arith;
  signed_clean = write_signed_clean;
  digits_full = λ n e. cc e;
  signed_full = write_signed_full;
}

parse_line-row_of_example :
    parse_line byte_numbers (row_of byte_numbers byte_written first_line) ≡ Parsed.event first_line
parse_line-row_of_example = parse_line-row_of byte_numbers byte_written first_line (
  omega arith,
  (omega arith, omega arith),
  omega arith,
  omega arith,
  (omega arith, omega arith),
  omega arith,
  refl,
)
