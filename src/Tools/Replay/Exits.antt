-- ===== src/Tools/Replay/Exits.antt =====
-- What `main` of tools/replay.cpp prints and returns.
use lob_engine.Prelude.{
  ℕ, ◌+◌, ◌<◌, ◌≡◌, ◌↔◌, ◌⊎◌, refl, sym, ap, ◌∙◌, Bool, true, false, Option, none, some, List, [],
  ◌∷◌, if◌then◌else◌, ok, Bytes, is_empty, pieces, map, length, u64_mod, arith, Bool-cases,
  Option-cases, inl, inr,
}
use lob_engine.Engine.State.{Engine, MatchResult}
use lob_engine.Engine.Submit.{submit_all}
use lob_engine.Engine.History.{all_trades}
use lob_engine.Feed.Csv.{Numbers, CsvReplayReader, open_reader}
use lob_engine.Feed.Csv.Lines.{events_of}
use lob_engine.Book.{empty_book}
use lob_engine.Snapshot.{Layout, load}
use lob_engine.Tools.Replay.{
  ReplayArgs, parse_args, Writers, Replayed, compare_expected, trade_to_csv,
}
use lob_engine.Tools.Replay.Runs.{replay_events_submits}
use lob_engine.Tools.Replay.Compares.{full_lines, compare_from_iff}
use lob_engine.Tools.Replay.Main.{Exit, start_engine, exit_code, replay_from, replay_main}

-- The lines of a file behind its header.
abbrev pub behind_header : Bytes → List Bytes
behind_header content = elim (pieces b'\n' false content) [ [] ↦ [] | header ∷ lines ↦ lines ]

-- No expected file is named, or it opens and lists the trades.
abbrev pub Expects : (Bytes → Option Bytes) → ReplayArgs → List Bytes → Type 0
Expects files a trade_lines =
    (is_empty a.expected_path ≡ true)
    ⊎ ((content : Bytes) × (files a.expected_path ≡ some content)
        × (full_lines (behind_header content) ≡ trade_lines))

compare_lines :
    (trade_lines lines : List Bytes)
    → (compare_expected trade_lines lines ≡ true)
      ↔ (full_lines (elim lines [ [] ↦ [] | header ∷ rest ↦ rest ]) ≡ trade_lines)
unfolding compare_expected
compare_lines ts [] = compare_from_iff ts [] 0 (omega arith)
compare_lines ts (header ∷ lines) = compare_from_iff ts lines 0 (omega arith)

zero_iff : (b : Bool) → ◌≡◌ {A = ℕ} (if b then 0 else 1) 0 ↔ (b ≡ true)
zero_iff true = (λ h. refl, λ h. refl)
zero_iff false = (λ h. absurd (omega (arith, h)), λ h. absurd (cc h))

exit_code_iff :
    (files : Bytes → Option Bytes) (a : ReplayArgs) (trade_lines : List Bytes)
    → (exit_code files a trade_lines ≡ 0) ↔ Expects files a trade_lines
unfolding exit_code
exit_code_iff files a ts = elim (Bool-cases (is_empty a.expected_path)) [
  | inl e ↦ (λ h. inl e, λ h. rw (e, exit_code) refl)
  | inr e ↦ elim (Option-cases (files a.expected_path)) [
    | inl n ↦
        let code : exit_code files a ts ≡ 1 = rw (e, exit_code, n) refl in
        (
          λ h. absurd (omega (arith, h, code)),
          λ h. elim h [ inl x ↦ absurd (cc (x, e)) | inr (c, same, full) ↦ absurd (cc (same, n)) ],
        )
    | inr (content, f) ↦
        let lines = pieces b'\n' false content in
        let same_lines = compare_lines ts lines in
        let code : exit_code files a ts ≡ (if compare_expected ts lines then 0 else 1) =
          rw (e, exit_code, f) refl in
        let test = zero_iff (compare_expected ts lines) in
        (
          λ h. inr (content, f, same_lines.0 (test.0 (sym code ∙ h))),
          λ h. elim h [
            | inl x ↦ absurd (cc (x, e))
            | inr (c, same, full) ↦
                let here : content ≡ c = cc (same, f) in
                code ∙ test.1 (same_lines.1 (ap (λ x. full_lines (behind_header x)) here ∙ full))
          ],
        )
  ]
]

-- With well-formed arguments, a snapshot that loads if one is named, and an events file, `main`
-- submits the events of all lines of that file that parse to the engine that it starts with, prints
-- the trades of all results in order, and returns 0 exactly if no expected file is named, or one
-- that opens and whose lines behind the header, the empty ones left out, are the trades. The rounds
-- are more than the lines, the submissions run through on their fuel, and the counters stay below
-- 2 ^ 64.
pub replay_main_exits :
    (numbers : Numbers) (w : Writers) (layout : Layout) (files : Bytes → Option Bytes)
    (fuel rounds : ℕ) (args : List Bytes) (a : ReplayArgs) (engine : Engine)
    (reader : CsvReplayReader) (r : Engine × List MatchResult)
    → parse_args args ≡ some a
    → start_engine layout files a ≡ some engine
    → open_reader (files a.events_path) ≡ some reader
    → length reader.file < rounds
    → reader.line_number + length reader.file < u64_mod
    → reader.error_count + length reader.file < u64_mod
    → submit_all fuel engine (events_of numbers reader.file) ≡ ok r
    → (code : ℕ) × (replay_main numbers w layout files fuel rounds args
        ≡ ok (Exit.returned code (map (trade_to_csv w) (all_trades r.1))))
      × ((code ≡ 0) ↔ Expects files a (map (trade_to_csv w) (all_trades r.1)))
unfolding replay_main replay_from
replay_main_exits numbers w layout files fuel rounds args a engine reader r parsed begun opened
      enough lines errors done =
    let out = map (trade_to_csv w) (all_trades r.1) in
    let s : Replayed = record { engine = engine; event_count = 0; trade_lines = [] } in
    let run =
      replay_events_submits numbers w fuel rounds reader s r enough lines errors
        (omega (arith, lines)) done in
    (
      exit_code files a out,
      rw (parsed, replay_main, begun, replay_from, opened, run) refl,
      exit_code_iff files a out,
    )

-- Where the arguments are refused or the named snapshot does not load, `main` returns 1 and prints
-- nothing on std::cout; an events file that does not open ends the program by an exception.
pub replay_main_refuses :
    (numbers : Numbers) (w : Writers) (layout : Layout) (files : Bytes → Option Bytes)
    (fuel rounds : ℕ) (args : List Bytes)
    → (parse_args args ≡ none
        → replay_main numbers w layout files fuel rounds args ≡ ok (Exit.returned 1 []))
      × ((a : ReplayArgs)
          → parse_args args ≡ some a
          → is_empty a.snapshot_path ≡ false
          → (load layout empty_book [] 0 (files a.snapshot_path)).success ≡ false
          → replay_main numbers w layout files fuel rounds args ≡ ok (Exit.returned 1 []))
      × ((a : ReplayArgs) (engine : Engine)
          → parse_args args ≡ some a
          → start_engine layout files a ≡ some engine
          → files a.events_path ≡ none
          → replay_main numbers w layout files fuel rounds args ≡ ok Exit.terminated)
unfolding replay_main replay_from start_engine open_reader
replay_main_refuses numbers w layout files fuel rounds args = (
  λ parsed. rw (parsed, replay_main) refl,
  λ a parsed named fails. rw (parsed, replay_main, named, start_engine, fails) refl,
  λ a engine parsed begun missing. rw (parsed, replay_main, begun, replay_from, missing) refl,
)
