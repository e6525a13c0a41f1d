-- ===== src/Tests/Benchmarks.antt =====
-- Runs of the benchmarks and their arguments.
use lob_engine.Prelude.{
  ℕ, suc, ◌*◌, ◌≡◌, refl, Option, none, some, List, [], ◌∷◌, ok, arith, Bytes, codes, same_bytes,
  if◌then◌else◌,
}
use lob_engine.Benchmarks.{
  Benchmark, BenchmarkRunner, BenchCommand, run_benchmarks, bench_command, parse_benchmarks,
}
use lob_engine.Benchmarks.Suite.{MeasuresAll, run_benchmarks-MeasuresAll}
use lob_engine.Tests.Feed.{counter, counter-InRange}

-- A clock that goes on by a microsecond with each reading.
abbrev tick : ℕ → ℕ × ℕ
tick c = (1000 * c, suc c)

abbrev large : Benchmark
large = record { scenario = codes "large"; seed = 7; duration_sec = 3 }

abbrev small : Benchmark
small = record { scenario = codes "small"; seed = 7; duration_sec = 1 }

run_benchmarks-MeasuresAll_example :
    (bs : List (BenchmarkRunner ℕ ℕ)) × (run_benchmarks tick
        (λ _. counter)
        (λ seed. seed)
        100200000002
        100000001
        (large ∷ small ∷ [])
        5
      ≡ ok bs)
    × MeasuresAll tick
        (λ _. counter)
        (λ seed. seed)
        100200000002
        100000001
        (large ∷ small ∷ [])
        5
        bs
run_benchmarks-MeasuresAll_example =
    run_benchmarks-MeasuresAll tick (λ _. counter) (λ seed. seed) 100200000002 100000001
      (λ _. counter-InRange) (omega arith) (omega arith) (large ∷ small ∷ []) 5

abbrev reads_seven : Bytes → Option ℕ
reads_seven text = if same_bytes text (codes "7") then some 7 else none

-- `--all` runs the six scenarios with the settings in front of it.
all_scenarios_named :
    bench_command reads_seven reads_seven
      (codes "--seed" ∷ codes "7" ∷ codes "--all" ∷ codes "--duration" ∷ [])
    ≡ BenchCommand.run (
        record { scenario = codes "small"; seed = 7; duration_sec = 10 }
        ∷ record { scenario = codes "medium"; seed = 7; duration_sec = 10 }
        ∷ record { scenario = codes "large"; seed = 7; duration_sec = 10 }
        ∷ record { scenario = codes "high_cancel"; seed = 7; duration_sec = 10 }
        ∷ record { scenario = codes "market_heavy"; seed = 7; duration_sec = 10 }
        ∷ record { scenario = codes "iceberg_stop"; seed = 7; duration_sec = 10 }
        ∷ [])
unfolding bench_command parse_benchmarks
all_scenarios_named = refl

missing_value : bench_command reads_seven reads_seven (codes "--seed" ∷ []) ≡ BenchCommand.usage
unfolding bench_command parse_benchmarks
missing_value = refl
