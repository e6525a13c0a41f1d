-- ===== src/Metrics/Buckets.antt =====
-- The buckets of the histogram: which latencies each one takes.
use lob_engine.Prelude.{ℕ, ◌+◌, ◌≤◌, ◌<◌, ltb, arith, if◌then◌else◌}
use lob_engine.Metrics.{bucket_index, bucket_to_ns, bucket_count}

-- The width of the bucket that takes a latency.
abbrev pub resolution : ℕ → ℕ
resolution ns = if ltb ns 1000 then 1 else if ltb ns 1000000 then 1000 else 100000

-- A latency below 9 ms falls into a bucket of the histogram, and the time that stands for this
-- bucket is at most the latency, by less than the resolution of its range.
pub bucket_to_ns-bucket_index :
    (ns : ℕ)
    → ns < 9000000
    → (bucket_index ns < bucket_count)
      × (bucket_to_ns (bucket_index ns) ≤ ns)
      × (ns < bucket_to_ns (bucket_index ns) + resolution ns)
unfolding bucket_index bucket_to_ns
bucket_to_ns-bucket_index ns h = (ground arith, ground arith, ground arith)
