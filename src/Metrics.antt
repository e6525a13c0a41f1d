-- ===== src/Metrics.antt =====
-- src/metrics/histogram.hpp: the latency histogram. The buckets are a function of their index. The
-- target of `percentile`, a product of doubles cast to uint64_t, is an argument.
pub mod Buckets
pub mod Counters
pub mod Ranks
use lob_engine.Prelude.{
  ℕ, zero, suc, List, [], ◌∷◌, ◌+◌, ◌-◌, ◌*◌, ◌/◌, ltb, leb, ◌==◌, add64, if◌then◌else◌,
}

-- `kBuckets`
abbrev pub bucket_count : ℕ
bucket_count = 1000 + 1000 + 90

pub record LatencyHistogram : Type 0 where
  pub buckets : ℕ → ℕ
  pub count : ℕ
  pub max_latency : ℕ

unfoldable pub bucket_index : ℕ → ℕ
bucket_index ns =
    if ltb ns 1000
    then ns
    else if ltb ns 1000000
    then 1000 + ns / 1000
    else if ltb ns 10000000
    then 2000 + ns / 100000
    else bucket_count

unfoldable pub bucket_to_ns : ℕ → ℕ
bucket_to_ns idx =
    if ltb idx 1000
    then idx
    else if ltb idx 2000
    then (idx - 1000) * 1000
    else (idx - 2000) * 100000

-- `++buckets_[idx]`
abbrev pub bump : ℕ → (ℕ → ℕ) → ℕ → ℕ
bump idx buckets i = if i == idx then add64 (buckets i) 1 else buckets i

unfoldable pub record_latency : LatencyHistogram → ℕ → LatencyHistogram
unfolding bucket_index
record_latency h ns =
    let idx = bucket_index ns in
    record {
      buckets = if ltb idx bucket_count then bump idx h.buckets else h.buckets;
      count = add64 h.count 1;
      max_latency = if ltb h.max_latency ns then ns else h.max_latency;
    }

-- The loop of `percentile`, from a bucket on, with the number of buckets that are left.
unfoldable pub percentile_from : LatencyHistogram → ℕ → ℕ → ℕ → ℕ → ℕ
unfolding bucket_to_ns
percentile_from h target i cumulative zero = h.max_latency
percentile_from h target i cumulative (suc left) =
    let total = add64 cumulative (h.buckets i) in
    let rest = percentile_from h target (i + 1) total left in
    if leb target total then bucket_to_ns i else rest

unfoldable pub percentile : LatencyHistogram → ℕ → ℕ
unfolding percentile_from
percentile h target = if h.count == 0 then 0 else percentile_from h target 0 0 bucket_count

unfoldable pub reset : LatencyHistogram → LatencyHistogram
reset h = record { buckets = λ i. 0; count = 0; max_latency = 0 }

-- A histogram that has recorded latencies since its reset, the latest one first.
unfoldable pub recorded : List ℕ → LatencyHistogram
unfolding record_latency reset
recorded [] = reset (record { buckets = λ i. 0; count = 0; max_latency = 0 })
recorded (ns ∷ older) = record_latency (recorded older) ns
