-- ===== src/Benchmarks/Suite.antt =====
-- The benchmarks of one call of benchmarks/bench_main.cpp: what each runner has measured.
use lob_engine.Prelude.{
  ℕ, ◌+◌, ◌*◌, ◌<◌, ◌≡◌, refl, sym, ap, ◌∙◌, subst, List, [], ◌∷◌, ◌++◌, ◌⊎◌, inl, inr, arith, ok,
  length, length-append, append-nil,
}
use lob_engine.Core.{OrderEvent}
use lob_engine.Book.Uncrossed.{IsUncrossed}
use lob_engine.Engine.State.{Engine, MatchResult, initial}
use lob_engine.Engine.Submit.{submit_all}
use lob_engine.Feed.Synthetic.{Draws, InRange, SyntheticGenerator, generator, next_all}
use lob_engine.Feed.Synthetic.Feeds.{IsFeed, next_all_feeds}
use lob_engine.Feed.Synthetic.Runs.{feed_submits}
use lob_engine.Metrics.{LatencyHistogram, recorded, reset}
use lob_engine.Benchmarks.{
  ScenarioConfig, Benchmark, BenchmarkRunner, run_scenario, run_benchmarks, get_scenario_config,
  event_limit, duration_of, empty_histogram, new_runner,
}
use lob_engine.Benchmarks.Runs.{Ends, Over, run_loop-Loops}

module _ {Rng Clock : Type 0} (now_ns : Clock → ℕ × Clock) (draws : ScenarioConfig → Draws Rng)
    (seeded : ℕ → Rng) (fuel tests : ℕ) where
  -- A runner behind its run: it has submitted the first events of its generator to an empty engine,
  -- counted them, and recorded one latency for each; it has stopped at the generator's end, or when
  -- the duration was over.
  pub record Measures (bench : Benchmark) (clock : Clock) (b : BenchmarkRunner Rng Clock)
      : Type 0 where
    pub first : List OrderEvent
    pub left : List OrderEvent
    pub last_gen : SyntheticGenerator Rng
    pub generated :
        let config = get_scenario_config bench.scenario in
        next_all (draws config) tests (generator config.generator (seeded bench.seed) event_limit)
        ≡ ok (first ++ left, last_gen)
    pub results : List MatchResult
    pub submitted : submit_all fuel initial first ≡ ok (b.engine, results)
    pub uncrossed : IsUncrossed b.engine.book
    pub latencies : List ℕ
    pub measured : length latencies ≡ length first
    pub timed : b.latency ≡ recorded latencies
    pub counted : b.events_processed ≡ length first
    pub stopped :
        (length first ≡ event_limit)
        ⊎ Over now_ns fuel
            (duration_of bench)
            (now_ns clock).0
            (draws (get_scenario_config bench.scenario))
            b

  -- The runners of benchmarks that run one after the other, from a clock on.
  pub data MeasuresAll : List Benchmark → Clock → List (BenchmarkRunner Rng Clock) → Type 0 where
    ended : {clock : Clock} → MeasuresAll [] clock []
    then :
        {bench : Benchmark} {clock : Clock} {b : BenchmarkRunner Rng Clock}
        {benches : List Benchmark} {bs : List (BenchmarkRunner Rng Clock)}
        → Measures bench clock b
        → MeasuresAll benches b.clock bs
        → MeasuresAll (bench ∷ benches) clock (b ∷ bs)

  Ends-Measures :
      (latency : LatencyHistogram) (bench : Benchmark) (clock : Clock)
      (r : List OrderEvent × SyntheticGenerator Rng) (b : BenchmarkRunner Rng Clock)
      → (let config = get_scenario_config bench.scenario in
          next_all (draws config) tests (generator config.generator (seeded bench.seed) event_limit)
          ≡ ok r)
      → length r.0 ≡ event_limit
      → IsFeed (λ _. 0) 1 r.0
      → 1002 * event_limit + 1 < fuel
      → Ends now_ns fuel
          (duration_of bench)
          (now_ns clock).0
          (draws (get_scenario_config bench.scenario))
          (new_runner now_ns seeded latency bench (now_ns clock).1)
          r.0
          b
      → Measures bench clock b
  unfolding recorded reset
  Ends-Measures latency bench clock r b generates short feed enough ends =
      let split_length : length r.0 ≡ length ends.first + length ends.left =
        ap length ends.split ∙ length-append ends.first ends.left in
      let (a, run, uncrossed, _) =
        feed_submits ends.first ends.left fuel (subst (IsFeed (λ _. 0) 1) ends.split feed)
          (omega (arith, short, enough, split_length)) in
      let same : ◌≡◌ {A = Engine × List MatchResult} a (b.engine, ends.results) =
        cc (run, ends.submitted) in
      record {
        first = ends.first;
        left = ends.left;
        last_gen = r.1;
        generated = generates ∙ ap (λ es. ok (es, r.1)) ends.split;
        results = ends.results;
        submitted = ends.submitted;
        uncrossed = subst (λ x. IsUncrossed x.0.book) same uncrossed;
        latencies = ends.latencies;
        measured = ends.measured;
        timed = ends.timed [] refl ∙ ap recorded (append-nil ends.latencies);
        counted = omega (arith, ends.counted);
        stopped = elim ends.stopped [
          | inl at_end ↦ inl (omega (arith, short, split_length, ap length at_end))
          | inr over ↦ inr over
        ];
      }

  module _ (in_range : (config : ScenarioConfig) → InRange (draws config))
      (enough_tests : event_limit < tests) (enough_fuel : 1002 * event_limit + 1 < fuel) where
    pub run_scenario-Measures :
        (latency : LatencyHistogram) (bench : Benchmark) (clock : Clock)
        → (b : BenchmarkRunner Rng Clock) × (run_scenario now_ns draws seeded fuel tests latency
              bench clock
            ≡ ok b)
          × Measures bench clock b
    unfolding run_scenario
    run_scenario-Measures latency bench clock =
        let config = get_scenario_config bench.scenario in
        let (r, generates, count, feed) =
          next_all_feeds (draws config) config.generator (seeded bench.seed) event_limit tests
            (in_range config) (omega arith) in
        let short : length r.0 ≡ event_limit = omega (arith, count, enough_tests) in
        let every = subst (IsFeed (λ _. 0) 1) (sym (append-nil r.0)) feed in
        let (a, all, _, _) = feed_submits r.0 [] fuel every (omega (arith, short, enough_fuel)) in
        let (b, run, ends) =
          run_loop-Loops now_ns fuel (duration_of bench) (now_ns clock).0 (draws config) tests
            (new_runner now_ns seeded latency bench (now_ns clock).1) r a generates all
            (omega (arith, short, enough_tests)) (omega (arith, short)) in
        (b, run, Ends-Measures latency bench clock r b generates short feed enough_fuel ends)

    -- The benchmarks of one call of `main` run one after the other without a fault, and end,
    -- whatever the clock reads: each runner has submitted the first events of its generator to an
    -- empty engine, whose book is not crossed, has counted them and recorded one latency for each,
    -- and has stopped behind all the events that the generator was made for or at a reading of the
    -- clock past the duration. The draws lie in the ranges of the distributions.
    pub run_benchmarks-MeasuresAll :
        (benches : List Benchmark) (clock : Clock)
        → (bs : List (BenchmarkRunner Rng Clock)) × (run_benchmarks now_ns draws seeded fuel tests
              benches clock
            ≡ ok bs)
          × MeasuresAll benches clock bs
    unfolding run_benchmarks
    run_benchmarks-MeasuresAll [] clock = ([], refl, MeasuresAll.ended)
    run_benchmarks-MeasuresAll (bench ∷ benches) clock =
        let (b, run, m) = run_scenario-Measures empty_histogram bench clock in
        let (bs, runs, ms) = run_benchmarks-MeasuresAll benches b.clock in
        (b ∷ bs, rw (run, runs) refl, MeasuresAll.then m ms)
