-- ===== src/Tools/Replay.antt =====
-- tools/replay.cpp: the arguments, the loop over the events, and the comparison with the expected
-- trades. std::to_string is a parameter, once for the numbers and once for the prices; what is
-- printed to std::cerr is left out.
pub mod Runs
pub mod Compares
pub mod Main
pub mod Exits
use lob_engine.Prelude.{
  is_empty, ℕ, zero, suc, Bool, true, false, Option, none, some, List, [], ◌∷◌, ◌++◌, map, ◌==◌,
  if◌then◌else◌, Run, ok, out_of_fuel, ◌>>=◌, add64, length, get_elem?, Bytes, codes, same_bytes,
}
use lob_engine.Core.{Price, Trade, OrderEvent}
use lob_engine.Engine.State.{Engine}
use lob_engine.Engine.Submit.{submit}
use lob_engine.Feed.Csv.{Numbers, CsvReplayReader, next}

pub record ReplayArgs : Type 0 where
  pub events_path : Bytes
  pub snapshot_path : Bytes
  pub expected_path : Bytes

abbrev no_args : ReplayArgs
no_args = record { events_path = []; snapshot_path = []; expected_path = [] }

unfoldable pub parse_args_from : List Bytes → ReplayArgs → Option ReplayArgs
parse_args_from [] a = some a
parse_args_from (arg ∷ []) a = none
parse_args_from (arg ∷ value ∷ rest) a =
    if same_bytes arg (codes "--events")
    then parse_args_from rest (record a { events_path = value })
    else if same_bytes arg (codes "--snapshot")
    then parse_args_from rest (record a { snapshot_path = value })
    else if same_bytes arg (codes "--expected")
    then parse_args_from rest (record a { expected_path = value })
    else none

-- Nothing where the usage is printed and 1 is returned.
unfoldable pub parse_args : List Bytes → Option ReplayArgs
unfolding parse_args_from
parse_args args = elim (parse_args_from args no_args) [
  | none ↦ none
  | some a ↦ if is_empty a.events_path then none else some a
]

pub record Writers : Type 0 where
  pub to_string : ℕ → Bytes
  pub price_to_string : Price → Bytes

unfoldable pub trade_to_csv : Writers → Trade → Bytes
trade_to_csv w t =
    w.to_string t.aggressor_id
    ++ b',' ∷ w.to_string t.passive_id
    ++ b',' ∷ w.price_to_string t.price
    ++ b',' ∷ w.to_string t.quantity

pub record Replayed : Type 0 where
  pub engine : Engine
  pub event_count : ℕ
  pub trade_lines : List Bytes

module _ (numbers : Numbers) (w : Writers) (fuel : ℕ) where
  abbrev pub replay_next :
      (CsvReplayReader → Replayed → Run Replayed)
      → Replayed
      → Option OrderEvent × CsvReplayReader
      → Run Replayed
  replay_next again s (none, reader) = ok s
  replay_next again s (some event, reader) = do
    (engine, result) ← submit fuel s.engine event
    again reader (record {
      engine = engine;
      event_count = add64 s.event_count 1;
      trade_lines = s.trade_lines ++ map (trade_to_csv w) result.trades;
    })

  -- `while (reader.next(event))`, at most so often.
  unfoldable pub replay_events : ℕ → CsvReplayReader → Replayed → Run Replayed
  unfolding next submit trade_to_csv
  replay_events zero reader s = out_of_fuel
  replay_events (suc f) reader s = replay_next (replay_events f) s (next numbers reader)

-- The loop over the expected lines behind the header, from a trade on. `false` is the return of 1
-- on a mismatch.
unfoldable pub compare_from : List Bytes → List Bytes → ℕ → Bool
compare_from trade_lines [] idx = idx == length trade_lines
compare_from trade_lines (line ∷ lines) idx =
    let same_idx = compare_from trade_lines lines idx in
    let next_idx = compare_from trade_lines lines (suc idx) in
    if is_empty line then same_idx else elim (get_elem? trade_lines idx) [
      | none ↦ false
      | some trade_line ↦ if same_bytes trade_line line then next_idx else false
    ]

-- The comparison with the lines of the expected file, the header first.
unfoldable pub compare_expected : List Bytes → List Bytes → Bool
unfolding compare_from
compare_expected trade_lines [] = compare_from trade_lines [] 0
compare_expected trade_lines (header ∷ lines) = compare_from trade_lines lines 0
