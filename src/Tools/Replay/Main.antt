-- ===== src/Tools/Replay/Main.antt =====
-- `main` of tools/replay.cpp. Parameters: the contents of the files, the readings and writings of
-- numbers, and the bytes of the structs in a snapshot.
use lob_engine.Prelude.{
  ℕ, false, Option, none, some, List, [], if◌then◌else◌, Run, ok, ◌>>=◌, Bytes, is_empty, pieces,
}
use lob_engine.Engine.State.{Engine, initial}
use lob_engine.Book.{empty_book}
use lob_engine.Feed.Csv.{Numbers, open_reader}
use lob_engine.Snapshot.{Layout, load}
use lob_engine.Tools.Replay.{ReplayArgs, parse_args, Writers, replay_events, compare_expected}

-- The end of the program: the result of `main` and the lines on std::cout, or the end by an
-- exception that nothing catches.
pub data Exit : Type 0 where
  returned : (code : ℕ) (out : List Bytes) → Exit
  terminated : Exit

-- The engine after "Load snapshot if provided"; nothing where 1 is returned.
unfoldable pub start_engine : Layout → (Bytes → Option Bytes) → ReplayArgs → Option Engine
start_engine layout files a =
    if is_empty a.snapshot_path
    then some initial
    else (let loaded = load layout empty_book [] 0 (files a.snapshot_path) in
        if loaded.success
        then some (record initial { book = loaded.book; pending_stops = loaded.pending_stops })
        else none)

-- "Compare with expected if provided": the result of `main`.
unfoldable pub exit_code : (Bytes → Option Bytes) → ReplayArgs → List Bytes → ℕ
unfolding compare_expected
exit_code files a trade_lines =
    if is_empty a.expected_path then 0 else elim (files a.expected_path) [
      | none ↦ 1
      | some content ↦ if compare_expected trade_lines (pieces b'\n' false content) then 0 else 1
    ]

module _ (numbers : Numbers) (w : Writers) (layout : Layout) (files : Bytes → Option Bytes)
    (fuel rounds : ℕ) where
  -- From "Replay events" on.
  unfoldable pub replay_from : ReplayArgs → Engine → Run Exit
  unfolding exit_code
  replay_from a engine = elim (open_reader (files a.events_path)) [
    | none ↦ ok Exit.terminated
    | some reader ↦
        replay_events numbers w fuel rounds reader
          (record { engine = engine; event_count = 0; trade_lines = [] })
        >>= (λ s. ok (Exit.returned (exit_code files a s.trade_lines) s.trade_lines))
  ]

  unfoldable pub replay_main : List Bytes → Run Exit
  unfolding replay_from start_engine
  replay_main args = elim (parse_args args) [
    | none ↦ ok (Exit.returned 1 [])
    | some a ↦ elim (start_engine layout files a) [
      | none ↦ ok (Exit.returned 1 [])
      | some engine ↦ replay_from a engine
    ]
  ]
