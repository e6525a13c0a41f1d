-- ===== src/Benchmarks/Runs.antt =====
-- The loop of benchmarks/benchmark_runner.cpp against the submission of the generator's events.
use lob_engine.Prelude.{
  ℕ, zero, suc, ◌+◌, ◌<◌, ◌≡◌, refl, sym, ap, ◌∙◌, Option, none, some, List, [], ◌∷◌, ◌++◌, ◌⊎◌,
  inl, inr, arith, Run, ok, >>=-eq-ok, add64, add64-of_lt, sub64, u64_mod, length, length-append,
  subst, append_assoc, ltb, Bool-cases,
}
use lob_engine.Core.{OrderEvent}
use lob_engine.Engine.State.{Engine, MatchResult}
use lob_engine.Engine.Submit.{submit, submit_all}
use lob_engine.Feed.Synthetic.{Draws, SyntheticGenerator, next, next_all, then_all}
use lob_engine.Metrics.{recorded, record_latency}
use lob_engine.Benchmarks.{BenchmarkRunner, timed_submit, after_next, run_loop}

module _ {Rng Clock : Type 0} (now_ns : Clock → ℕ × Clock) (fuel duration_ns start : ℕ)
    (draws : Draws Rng) where
  -- The last reading of the runner's clock lies behind the duration.
  abbrev pub Over : BenchmarkRunner Rng Clock → Type 0
  Over b =
      (clock : Clock) × ((now_ns clock).1 ≡ b.clock) × (duration_ns < sub64 (now_ns clock).0 start)

  -- What the loop has done, offered some events: it has submitted the first of them, with one
  -- latency each, the latest first, and has stopped at their end or when the time was over.
  pub record Ends (b : BenchmarkRunner Rng Clock) (evs : List OrderEvent)
      (b' : BenchmarkRunner Rng Clock) : Type 0 where
    pub first : List OrderEvent
    pub left : List OrderEvent
    pub split : evs ≡ first ++ left
    pub results : List MatchResult
    pub submitted : submit_all fuel b.engine first ≡ ok (b'.engine, results)
    pub latencies : List ℕ
    pub measured : length latencies ≡ length first
    pub timed :
        (older : List ℕ) → b.latency ≡ recorded older → b'.latency ≡ recorded (latencies ++ older)
    pub counted : b'.events_processed ≡ b.events_processed + length first
    pub stopped : (left ≡ []) ⊎ Over b'

  -- What a number of rounds does, from any state.
  abbrev Loops :
      (SyntheticGenerator Rng → Run (List OrderEvent × SyntheticGenerator Rng))
      → (BenchmarkRunner Rng Clock → Run (BenchmarkRunner Rng Clock))
      → ℕ
      → Type 0
  Loops read loop tests =
      (b : BenchmarkRunner Rng Clock) (r : List OrderEvent × SyntheticGenerator Rng)
      (a : Engine × List MatchResult)
      → read b.gen ≡ ok r
      → submit_all fuel b.engine r.0 ≡ ok a
      → length r.0 < tests
      → b.events_processed + length r.0 < u64_mod
      → (b' : BenchmarkRunner Rng Clock) × (loop b ≡ ok b') × Ends b r.0 b'

  module _ (read : SyntheticGenerator Rng → Run (List OrderEvent × SyntheticGenerator Rng))
      (loop : BenchmarkRunner Rng Clock → Run (BenchmarkRunner Rng Clock)) (tests : ℕ)
      (ih : Loops read loop tests) where
    -- A round with an event, before those that the generator gives later.
    one_round :
        (ev : OrderEvent) (evs : List OrderEvent) (gen end : SyntheticGenerator Rng)
        (b : BenchmarkRunner Rng Clock) (m : Engine × MatchResult)
        (rest : Engine × List MatchResult)
        → read gen ≡ ok (evs, end)
        → submit fuel b.engine ev ≡ ok m
        → submit_all fuel m.0 evs ≡ ok rest
        → length evs < tests
        → b.events_processed + length (ev ∷ evs) < u64_mod
        → (b' : BenchmarkRunner Rng Clock) × (after_next now_ns fuel duration_ns start loop b
              (some ev, gen)
            ≡ ok b')
          × Ends b (ev ∷ evs) b'
    unfolding after_next timed_submit submit_all recorded
    one_round ev evs gen end b m rest reads done done' enough small =
        let before = now_ns b.clock in
        let behind = now_ns before.1 in
        let ns = sub64 behind.0 before.0 in
        let b1 : BenchmarkRunner Rng Clock = record {
          events_processed = add64 b.events_processed 1;
          latency = record_latency b.latency ns;
          engine = m.0;
          gen = gen;
          clock = behind.1;
        } in
        let one_more : add64 b.events_processed 1 ≡ b.events_processed + 1 =
          add64-of_lt b.events_processed 1 (omega (arith, small)) in
        elim (Bool-cases (ltb duration_ns (sub64 behind.0 start))) [
          | inl over ↦ (
            b1,
            rw (done, over) refl,
            record {
              first = ev ∷ [];
              left = evs;
              split = refl;
              results = m.1 ∷ [];
              submitted = rw done refl;
              latencies = ns ∷ [];
              measured = refl;
              timed = λ older h. ap (λ l. record_latency l ns) h;
              counted = omega (arith, one_more);
              stopped = inr (before.1, refl, ground (arith, over));
            },
          )
          | inr going ↦
              let (b', run, x) =
                ih b1 (evs, end) rest reads done' enough (omega (arith, small, one_more)) in
              (
                b',
                rw (done, going) run,
                record {
                  first = ev ∷ x.first;
                  left = x.left;
                  split = ap (◌∷◌ ev) x.split;
                  results = m.1 ∷ x.results;
                  submitted = rw (done, x.submitted) refl;
                  latencies = x.latencies ++ ns ∷ [];
                  measured = omega (arith, length-append x.latencies (ns ∷ []), x.measured);
                  timed = λ older h.
                      x.timed (ns ∷ older) (ap (λ l. record_latency l ns) h)
                      ∙ ap recorded (sym (append_assoc x.latencies (ns ∷ []) older));
                  counted = omega (arith, x.counted, one_more);
                  stopped = x.stopped;
                },
              )
        ]

    after_next-Loops :
        (x : Option OrderEvent × SyntheticGenerator Rng) (b : BenchmarkRunner Rng Clock)
        (r : List OrderEvent × SyntheticGenerator Rng) (a : Engine × List MatchResult)
        → then_all draws read x ≡ ok r
        → submit_all fuel b.engine r.0 ≡ ok a
        → length r.0 < suc tests
        → b.events_processed + length r.0 < u64_mod
        → (b' : BenchmarkRunner Rng Clock) × (after_next now_ns fuel duration_ns start loop b x
            ≡ ok b')
          × Ends b r.0 b'
    unfolding after_next submit_all
    after_next-Loops (none, gen) b r a h done enough small =
        let same : r.0 ≡ [] = cc h in
        (
          record b { gen = gen },
          refl,
          record {
            first = [];
            left = [];
            split = same;
            results = [];
            submitted = refl;
            latencies = [];
            measured = refl;
            timed = λ older h'. h';
            counted = omega arith;
            stopped = inl refl;
          },
        )
    after_next-Loops (some ev, gen) b r a h done enough small =
        let (rr, reads, paired) = >>=-eq-ok (read gen) _ h in
        let split : r.0 ≡ ev ∷ rr.0 = cc paired in
        let (m, done', k) = >>=-eq-ok (submit fuel b.engine ev) _ (rw split at done) in
        let (rest, done'', _) = >>=-eq-ok (submit_all fuel m.0 rr.0) _ k in
        let (b', run, x) =
          one_round ev rr.0 gen rr.1 b m rest reads done' done''
            (omega (arith, enough, ap length split)) (omega (arith, small, ap length split)) in
        (b', run, subst (λ es. Ends b es b') (sym split) x)

  pub run_loop-Loops :
      (tests : ℕ)
      → Loops (next_all draws tests) (run_loop now_ns fuel duration_ns start draws tests) tests
  unfolding next_all run_loop
  run_loop-Loops zero b r a h done enough small = absurd (omega (arith, enough))
  run_loop-Loops (suc tests) b r a h done enough small =
      let (x, now, h') = >>=-eq-ok (next draws b.gen) _ h in
      let (b', run, ends) =
        after_next-Loops (next_all draws tests) (run_loop now_ns fuel duration_ns start draws tests)
          tests (run_loop-Loops tests) x b r a h' done enough small in
      (b', rw now run, ends)
