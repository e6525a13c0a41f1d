-- ===== src/Benchmarks.antt =====
-- benchmarks: scenarios.hpp, benchmark_runner.hpp and .cpp, and the arguments of bench_main.cpp. The
-- clock, the random engine and the readings of numbers from text are parameters; what is printed is
-- left out.
pub mod Runs
pub mod Suite
use lob_engine.Prelude.{
  ℕ, zero, suc, ◌*◌, ◌%◌, ◌^◌, pos, false, none, some, List, [], ◌∷◌, ltb, if◌then◌else◌, Run, ok,
  out_of_fuel, ◌>>=◌, add64, sub64, u64_mod, Option, Bytes, codes, same_bytes, ◌||◌,
}
use lob_engine.Core.{OrderEvent}
use lob_engine.Engine.State.{Engine, initial}
use lob_engine.Engine.Submit.{submit}
use lob_engine.Feed.Synthetic.{Draws, SyntheticGenerator, EngineConfig, generator, next}
use lob_engine.Metrics.{LatencyHistogram, record_latency, reset}

-- The fields of the configuration that a scenario sets, the probability in tenths; `generator` are
-- the others that the generator reads.
pub record ScenarioConfig : Type 0 where
  pub arrival_rate : ℕ
  pub cancel_tenths : ℕ
  pub price_std_dev : ℕ
  pub generator : EngineConfig

abbrev with_rates : ℕ → ℕ → ℕ → ScenarioConfig
with_rates rate tenths deviation = record {
  arrival_rate = rate;
  cancel_tenths = tenths;
  price_std_dev = deviation;
  generator = record { mid_price = pos 10000; market_maker_mode = false };
}

unfoldable pub get_scenario_config : Bytes → ScenarioConfig
get_scenario_config name =
    if same_bytes name (codes "small")
    then with_rates 100 1 5
    else if same_bytes name (codes "medium")
    then with_rates 1000 3 20
    else if same_bytes name (codes "large")
    then with_rates 10000 3 20
    else if same_bytes name (codes "high_cancel")
    then with_rates 5000 7 20
    else if same_bytes name (codes "market_heavy")
    then with_rates 2000 1 20
    else if same_bytes name (codes "iceberg_stop")
    then with_rates 1000 2 20
    else with_rates 1000 3 20

-- `kScenarioNames`
abbrev pub scenario_names : List Bytes
scenario_names =
    codes "small"
    ∷ codes "medium"
    ∷ codes "large"
    ∷ codes "high_cancel"
    ∷ codes "market_heavy"
    ∷ codes "iceberg_stop"
    ∷ []

-- The number of events that the generator is made for.
abbrev pub event_limit : ℕ
event_limit = 100000000

-- The arguments of a runner's constructor.
pub record Benchmark : Type 0 where
  pub scenario : Bytes
  pub seed : ℕ
  pub duration_sec : ℕ

-- `duration_ns`
abbrev pub duration_of : Benchmark → ℕ
duration_of bench = (bench.duration_sec * 1000000000) % u64_mod

abbrev default_benchmark : Benchmark
default_benchmark = record { scenario = codes "medium"; seed = 42; duration_sec = 10 }

-- A new runner's histogram.
abbrev pub empty_histogram : LatencyHistogram
empty_histogram = record { buckets = λ i. 0; count = 0; max_latency = 0 }

-- A runner with the engine, the generator and the clock of its run.
pub record BenchmarkRunner (Rng Clock : Type 0) : Type 0 where
  pub events_processed : ℕ
  pub latency : LatencyHistogram
  pub engine : Engine
  pub gen : SyntheticGenerator Rng
  pub clock : Clock

module _ {Rng Clock : Type 0} (now_ns : Clock → ℕ × Clock) where
  -- One round of the loop, and the time behind it.
  unfoldable pub timed_submit :
      ℕ → BenchmarkRunner Rng Clock → OrderEvent → Run (BenchmarkRunner Rng Clock × ℕ)
  timed_submit fuel b event = do
    let (t0, clock0) = now_ns b.clock
    (engine, r) ← submit fuel b.engine event
    let (t1, clock1) = now_ns clock0
    ok (
      record b {
        events_processed = add64 b.events_processed 1;
        latency = record_latency b.latency (sub64 t1 t0);
        engine = engine;
        clock = clock1;
      },
      t1,
    )

  module _ (fuel duration_ns start : ℕ) where
    -- A round behind the call of `next`, with the loop that follows it.
    unfoldable pub after_next :
        (BenchmarkRunner Rng Clock → Run (BenchmarkRunner Rng Clock))
        → BenchmarkRunner Rng Clock
        → Option OrderEvent × SyntheticGenerator Rng
        → Run (BenchmarkRunner Rng Clock)
    unfolding timed_submit
    after_next more b (none, gen) = ok (record b { gen = gen })
    after_next more b (some event, gen) = do
      (b', t1) ← timed_submit fuel (record b { gen = gen }) event
      let rest = more b'
      if ltb duration_ns (sub64 t1 start) then ok b' else rest

    -- The loop, with the number of its tests.
    unfoldable pub run_loop :
        Draws Rng → ℕ → BenchmarkRunner Rng Clock → Run (BenchmarkRunner Rng Clock)
    unfolding after_next
    run_loop draws zero b = out_of_fuel
    run_loop draws (suc tests) b = next draws b.gen >>= after_next (run_loop draws tests) b

  -- A runner in front of its loop.
  abbrev pub new_runner :
      (ℕ → Rng) → LatencyHistogram → Benchmark → Clock → BenchmarkRunner Rng Clock
  new_runner seeded latency bench clock = record {
    events_processed = 0;
    latency = reset latency;
    engine = initial;
    gen = generator (get_scenario_config bench.scenario).generator (seeded bench.seed) event_limit;
    clock = clock;
  }

  -- `run` with the work of `run_scenario`.
  unfoldable pub run_scenario :
      (ScenarioConfig → Draws Rng)
      → (ℕ → Rng)
      → ℕ
      → ℕ
      → LatencyHistogram
      → Benchmark
      → Clock
      → Run (BenchmarkRunner Rng Clock)
  unfolding run_loop
  run_scenario draws seeded fuel tests latency bench clock =
      let (start, clock') = now_ns clock in
      run_loop fuel (duration_of bench) start (draws (get_scenario_config bench.scenario)) tests
        (new_runner seeded latency bench clock')

  -- The runners of the benchmarks of one call of `main`, one after the other.
  unfoldable pub run_benchmarks :
      (ScenarioConfig → Draws Rng)
      → (ℕ → Rng)
      → ℕ
      → ℕ
      → List Benchmark
      → Clock
      → Run (List (BenchmarkRunner Rng Clock))
  unfolding run_scenario
  run_benchmarks draws seeded fuel tests [] clock = ok []
  run_benchmarks draws seeded fuel tests (bench ∷ benches) clock = do
    b ← run_scenario draws seeded fuel tests empty_histogram bench clock
    bs ← run_benchmarks draws seeded fuel tests benches b.clock
    ok (b ∷ bs)

-- What `main` does after its arguments: it runs benchmarks, or returns 1 behind the usage, or ends
-- by the exception of std::stoull or std::stoul.
pub data BenchCommand : Type 0 where
  run : (benches : List Benchmark) → BenchCommand
  usage : BenchCommand
  thrown : BenchCommand

-- `--all`, with the settings that stand before it.
abbrev all_scenarios : List Bytes → Benchmark → List Benchmark
all_scenarios [] settings = []
all_scenarios (name ∷ names) settings =
    record settings { scenario = name } ∷ all_scenarios names settings

-- An argument that takes no value, or whose value is missing.
abbrev pub all_or_usage : Bytes → Benchmark → BenchCommand
all_or_usage arg settings =
    if same_bytes arg (codes "--all")
    then BenchCommand.run (all_scenarios scenario_names settings)
    else BenchCommand.usage

module _ (stoull stoul : Bytes → Option ℕ) where
  -- The loop over the arguments.
  unfoldable pub parse_benchmarks : List Bytes → Benchmark → BenchCommand
  parse_benchmarks [] settings = BenchCommand.run (settings ∷ [])
  parse_benchmarks (arg ∷ []) settings = all_or_usage arg settings
  parse_benchmarks (arg ∷ value ∷ rest) settings =
      let with_scenario = parse_benchmarks rest (record settings { scenario = value }) in
      let with_seed = λ (n : ℕ). parse_benchmarks rest (record settings { seed = n }) in
      let with_duration =
        λ (n : ℕ). parse_benchmarks rest (record settings { duration_sec = n % 2 ^ 32 }) in
      if same_bytes arg (codes "--scenario")
      then with_scenario
      else if same_bytes arg (codes "--seed")
      then elim (stoull value) [ none ↦ BenchCommand.thrown | some n ↦ with_seed n ]
      else if same_bytes arg (codes "--duration")
      then elim (stoul value) [ none ↦ BenchCommand.thrown | some n ↦ with_duration n ]
      else all_or_usage arg settings

  unfoldable pub bench_command : List Bytes → BenchCommand
  unfolding parse_benchmarks
  bench_command args = parse_benchmarks args default_benchmark
