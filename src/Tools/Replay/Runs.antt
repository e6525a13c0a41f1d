-- ===== src/Tools/Replay/Runs.antt =====
-- The loop of tools/replay.cpp against the submission of all the events of the file.
use lob_engine.Prelude.{
  ℕ, zero, suc, ◌+◌, ◌<◌, ◌≡◌, refl, sym, ap, ap₂, ◌∙◌, Option, none, some, List, [], ◌∷◌, ◌++◌,
  map, arith, Run, ok, out_of_fuel, >>=-eq-ok, add64, add64-of_lt, u64_mod, length, append_assoc,
  append-nil, Bytes,
}
use lob_engine.Core.{OrderEvent}
use lob_engine.Engine.State.{Engine, MatchResult}
use lob_engine.Engine.Submit.{submit, submit_all}
use lob_engine.Engine.History.{all_trades}
use lob_engine.Feed.Csv.{Numbers, CsvReplayReader, next, read_all, consed, then_read}
use lob_engine.Feed.Csv.Lines.{events_of, events_of-length, read_all_lines}
use lob_engine.Tools.Replay.{Writers, Replayed, replay_events, replay_next, trade_to_csv}

map-append : {A B : Type 0} (f : A → B) (xs ys : List A) → map f (xs ++ ys) ≡ map f xs ++ map f ys
map-append f [] ys = refl
map-append f (x ∷ xs) ys = ap (◌∷◌ (f x)) (map-append f xs ys)

consed-eq-ok :
    (ev : OrderEvent) (run : Run (List OrderEvent × CsvReplayReader))
    (r : List OrderEvent × CsvReplayReader)
    → consed ev run ≡ ok r
    → (evs : List OrderEvent) × (run ≡ ok (evs, r.1)) × (r.0 ≡ ev ∷ evs)
consed-eq-ok ev (ok (evs, r')) r h =
    let same : ◌≡◌ {A = List OrderEvent × CsvReplayReader} (ev ∷ evs, r') r = cc h in
    (
      evs,
      ap (λ (x : List OrderEvent × CsvReplayReader). ok (evs, x.1)) same,
      sym (ap (λ x. x.0) same),
    )
consed-eq-ok ev (Run.fault why) r h = absurd (cc h)
consed-eq-ok ev out_of_fuel r h = absurd (cc h)

module _ (numbers : Numbers) (w : Writers) (fuel : ℕ) where
  -- The run after more events.
  abbrev pub after : Replayed → List OrderEvent → Engine × List MatchResult → Replayed
  after s evs a = record {
    engine = a.0;
    event_count = s.event_count + length evs;
    trade_lines = s.trade_lines ++ map (trade_to_csv w) (all_trades a.1);
  }

  -- What a number of rounds does from any state.
  abbrev Follows :
      (CsvReplayReader → Run (List OrderEvent × CsvReplayReader))
      → (CsvReplayReader → Replayed → Run Replayed)
      → Type 0
  Follows read replay =
      (reader : CsvReplayReader) (s : Replayed) (r : List OrderEvent × CsvReplayReader)
      (a : Engine × List MatchResult)
      → read reader ≡ ok r
      → submit_all fuel s.engine r.0 ≡ ok a
      → s.event_count + length r.0 < u64_mod
      → replay reader s ≡ ok (after s r.0 a)

  replayed-eq :
      (e : Engine) {n n' : ℕ} {lines lines' : List Bytes}
      → n ≡ n'
      → lines ≡ lines'
      → ◌≡◌ {A = Run Replayed}
          (ok (record { engine = e; event_count = n; trade_lines = lines }))
          (ok (record { engine = e; event_count = n'; trade_lines = lines' }))
  replayed-eq e h k = cc (h, k)

  module _ (read : CsvReplayReader → Run (List OrderEvent × CsvReplayReader))
      (replay : CsvReplayReader → Replayed → Run Replayed) (ih : Follows read replay) where
    -- A round with an event, before those that the reader gives later.
    one_round :
        (ev : OrderEvent) (evs : List OrderEvent) (reader end : CsvReplayReader) (s : Replayed)
        (m : Engine × MatchResult) (rest : Engine × List MatchResult)
        → read reader ≡ ok (evs, end)
        → submit fuel s.engine ev ≡ ok m
        → submit_all fuel m.0 evs ≡ ok rest
        → s.event_count + length (ev ∷ evs) < u64_mod
        → replay_next numbers w fuel replay s (some ev, reader)
          ≡ ok (after s (ev ∷ evs) (rest.0, m.1 ∷ rest.1))
    one_round ev evs reader end s m rest reads done done' b =
        let one_more : add64 s.event_count 1 ≡ s.event_count + 1 =
          add64-of_lt s.event_count 1 (omega (arith, b)) in
        let s1 : Replayed = record {
          engine = m.0;
          event_count = add64 s.event_count 1;
          trade_lines = s.trade_lines ++ map (trade_to_csv w) m.1.trades;
        } in
        rw done (
          ih reader s1 (evs, end) rest reads done' (omega (arith, b, one_more))
          ∙ replayed-eq rest.0 (omega (arith, one_more)) (
              append_assoc s.trade_lines (map (trade_to_csv w) m.1.trades)
                (map (trade_to_csv w) (all_trades rest.1))
              ∙ ap (λ ls. s.trade_lines ++ ls)
                  (sym (map-append (trade_to_csv w) m.1.trades (all_trades rest.1)))))

    replay_next-Follows :
        (x : Option OrderEvent × CsvReplayReader) (s : Replayed)
        (r : List OrderEvent × CsvReplayReader) (a : Engine × List MatchResult)
        → then_read read x ≡ ok r
        → submit_all fuel s.engine r.0 ≡ ok a
        → s.event_count + length r.0 < u64_mod
        → replay_next numbers w fuel replay s x ≡ ok (after s r.0 a)
    unfolding submit_all
    replay_next-Follows (none, reader) s r a h k b =
        let same : r.0 ≡ [] = cc h in
        let k0 : ◌≡◌ {A = Engine × List MatchResult} (s.engine, []) a = cc (rw same at k) in
        rw (same, ← k0) (replayed-eq s.engine (omega arith) (sym (append-nil s.trade_lines)))
    replay_next-Follows (some ev, reader) s r a h k b =
        let (evs, reads, split) = consed-eq-ok ev (read reader) r h in
        let (m, done, k') = >>=-eq-ok (submit fuel s.engine ev) _ (rw split at k) in
        let (rest, done', k'') = >>=-eq-ok (submit_all fuel m.0 evs) _ k' in
        let all : ◌≡◌ {A = Engine × List MatchResult} (rest.0, m.1 ∷ rest.1) a = cc k'' in
        one_round ev evs reader r.1 s m rest reads done done' (omega (arith, b, ap length split))
        ∙ ap₂ (λ es c. ok (after s es c)) (sym split) all

  replay_events-Follows : (f : ℕ) → Follows (read_all numbers f) (replay_events numbers w fuel f)
  unfolding read_all replay_events
  replay_events-Follows zero reader s r a h k b = absurd (cc h)
  replay_events-Follows (suc f) reader s r a h k b =
      replay_next-Follows (read_all numbers f) (replay_events numbers w fuel f)
        (replay_events-Follows f) (next numbers reader) s r a h k b

  -- With more rounds than lines, the loop that reads an event, submits it and writes its trades has
  -- the effect of submitting the events of all lines that parse, if that runs through on its fuel:
  -- it leaves that engine, has counted those events, and has written the trades of all results in
  -- order, behind what was written before. The counters stay below 2 ^ 64.
  pub replay_events_submits :
      (f : ℕ) (reader : CsvReplayReader) (s : Replayed) (a : Engine × List MatchResult)
      → length reader.file < f
      → reader.line_number + length reader.file < u64_mod
      → reader.error_count + length reader.file < u64_mod
      → s.event_count + length reader.file < u64_mod
      → submit_all fuel s.engine (events_of numbers reader.file) ≡ ok a
      → replay_events numbers w fuel f reader s ≡ ok (after s (events_of numbers reader.file) a)
  replay_events_submits f reader s a enough lines errors events done =
      replay_events-Follows f reader s _ a (read_all_lines numbers f reader enough lines errors)
        done (omega (arith, events, events_of-length numbers reader.file))
