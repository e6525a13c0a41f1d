-- ===== src/Metrics/Ranks.antt =====
-- The percentiles of the histogram against the ranks of the recorded latencies.
use lob_engine.Prelude.{
  ℕ, zero, suc, ◌+◌, ◌≤◌, ◌<◌, ◌≡◌, refl, ap, subst, ◌∙◌, sym, List, [], ◌∷◌, ltb, leb, ◌==◌,
  length, arith, add64-of_lt, add64, u64_mod, if◌then◌else◌, ◌⊎◌, inl, inr, Bool, Bool-cases, true,
  false, ==_iff,
}
use lob_engine.Metrics.{
  LatencyHistogram, bucket_count, bucket_index, bucket_to_ns, percentile, percentile_from, recorded,
  record_latency, reset,
}
use lob_engine.Metrics.Buckets.{resolution}

-- How many of the latencies are below a bound.
abbrev pub below : ℕ → List ℕ → ℕ
below bound [] = 0
below bound (ns ∷ rest) = (if ltb ns bound then 1 else 0) + below bound rest

abbrev pub largest : List ℕ → ℕ
largest [] = 0
largest (ns ∷ rest) = let m = largest rest in if ltb m ns then ns else m

-- How many of the latencies fall into a bucket, and into a bucket before it.
abbrev in_bucket : ℕ → List ℕ → ℕ
in_bucket i [] = 0
in_bucket i (ns ∷ rest) = (if i == bucket_index ns then 1 else 0) + in_bucket i rest

abbrev in_earlier : ℕ → List ℕ → ℕ
in_earlier i [] = 0
in_earlier i (ns ∷ rest) = (if ltb (bucket_index ns) i then 1 else 0) + in_earlier i rest

in_bucket-length : (i : ℕ) (ls : List ℕ) → in_bucket i ls ≤ length ls
in_bucket-length i [] = omega arith
in_bucket-length i (ns ∷ rest) = ground (arith, in_bucket-length i rest)

in_earlier-length : (i : ℕ) (ls : List ℕ) → in_earlier i ls ≤ length ls
in_earlier-length i [] = omega arith
in_earlier-length i (ns ∷ rest) = ground (arith, in_earlier-length i rest)

in_earlier-zero : (ls : List ℕ) → in_earlier 0 ls ≡ 0
in_earlier-zero [] = refl
in_earlier-zero (ns ∷ rest) = ground (arith, in_earlier-zero rest)

in_earlier-suc : (i : ℕ) (ls : List ℕ) → in_earlier (i + 1) ls ≡ in_earlier i ls + in_bucket i ls
in_earlier-suc i [] = refl
in_earlier-suc i (ns ∷ rest) = ground (arith, in_earlier-suc i rest)

-- The buckets count the latencies that fall into them.
record Counts (h : LatencyHistogram) (ls : List ℕ) : Type 0 where
  buckets : (i : ℕ) → i < bucket_count → h.buckets i ≡ in_bucket i ls
  count : h.count ≡ length ls
  max_latency : h.max_latency ≡ largest ls

recorded-Counts : (ls : List ℕ) → length ls < u64_mod → Counts (recorded ls) ls
unfolding recorded record_latency reset
recorded-Counts [] small = record { buckets = λ i h. refl; count = refl; max_latency = refl }
recorded-Counts (ns ∷ rest) small =
    let ih = recorded-Counts rest (omega (arith, small)) in
    let fits = add64-of_lt (recorded rest).count 1 (omega (arith, ih.count, small)) in
    record {
      buckets = λ i h.
          let more =
            add64-of_lt ((recorded rest).buckets i) 1
              (omega (arith, ih.buckets i h, in_bucket-length i rest, small)) in
          ground (arith, h, ih.buckets i h, more);
      count = omega (arith, fits, ih.count);
      max_latency = ground (arith, ih.max_latency);
    }

-- Where the loop of `percentile` stops: at the first bucket with which the target is reached, or
-- behind all buckets.
StopsAt : List ℕ → ℕ → ℕ → ℕ → Type 0
StopsAt ls target largest_seen v =
    ((k : ℕ) × (k < bucket_count)
      × (v ≡ bucket_to_ns k)
      × (in_earlier k ls < target)
      × (target ≤ in_earlier (k + 1) ls))
    ⊎ ((in_earlier bucket_count ls < target) × (v ≡ largest_seen))

percentile_from-StopsAt :
    (h : LatencyHistogram) (ls : List ℕ) (target i total left : ℕ)
    → Counts h ls
    → length ls < u64_mod
    → i + left ≡ bucket_count
    → total ≡ in_earlier i ls
    → total < target
    → StopsAt ls target h.max_latency (percentile_from h target i total left)
unfolding percentile_from StopsAt
percentile_from-StopsAt h ls target i total zero c small ends seen low =
    let at_end : i ≡ bucket_count = omega (arith, ends) in
    inr (omega (arith, ap (λ j. in_earlier j ls) at_end, seen, low), refl)
percentile_from-StopsAt h ls target i total (suc left) c small ends seen low =
    let more : add64 total (h.buckets i) ≡ in_earlier (i + 1) ls =
      add64-of_lt total (h.buckets i) (
        omega (
          arith,
          c.buckets i (omega (arith, ends)),
          in_earlier-suc i ls,
          seen,
          in_earlier-length (i + 1) ls,
          small,
        ))
      ∙ omega (arith, c.buckets i (omega (arith, ends)), in_earlier-suc i ls, seen) in
    elim (Bool-cases (leb target (add64 total (h.buckets i)))) [
      | inl reached ↦ rw reached (
          inl
            (i, omega (arith, ends), refl, omega (arith, seen, low), ground (arith, reached, more)))
      | inr not_yet ↦ rw not_yet (
          percentile_from-StopsAt h ls target (i + 1) _ left c small (omega (arith, ends)) more
            (ground (arith, not_yet)))
    ]

-- A bucket into which a latency falls takes the latencies from its time on, one resolution long.
bucket_bounds :
    (l ns : ℕ)
    → bucket_index l < bucket_count
    → (ltb (bucket_index ns) (bucket_index l) ≡ ltb ns (bucket_to_ns (bucket_index l)))
      × (ltb (bucket_index ns) (bucket_index l + 1)
          ≡ ltb ns (bucket_to_ns (bucket_index l) + resolution (bucket_to_ns (bucket_index l))))
unfolding bucket_index bucket_to_ns
bucket_bounds l ns h = (ground (arith, h), ground (arith, h))

below-in_earlier :
    (l : ℕ) (ls : List ℕ)
    → bucket_index l < bucket_count
    → (in_earlier (bucket_index l) ls ≡ below (bucket_to_ns (bucket_index l)) ls)
      × (in_earlier (bucket_index l + 1) ls
          ≡ below (bucket_to_ns (bucket_index l) + resolution (bucket_to_ns (bucket_index l))) ls)
below-in_earlier l [] h = (refl, refl)
below-in_earlier l (ns ∷ rest) h =
    let (same, next) = bucket_bounds l ns h in
    let (earlier, until) = below-in_earlier l rest h in
    (rw same (rw earlier refl), rw next (rw until refl))

bucket_limit : (ns : ℕ) → ltb (bucket_index ns) bucket_count ≡ ltb ns 9000000
unfolding bucket_index
bucket_limit ns = ground arith

below-bucket_count : (ls : List ℕ) → in_earlier bucket_count ls ≡ below 9000000 ls
below-bucket_count [] = refl
below-bucket_count (ns ∷ rest) = rw (bucket_limit ns) (rw (below-bucket_count rest) refl)

-- A bucket that is not empty is the one of some latency.
in_bucket-some : (i : ℕ) (ls : List ℕ) → 0 < in_bucket i ls → (l : ℕ) × (bucket_index l ≡ i)
in_bucket-some i [] h = absurd (omega (arith, h))
in_bucket-some i (ns ∷ rest) h = elim (Bool-cases (i == bucket_index ns)) [
  | inl same ↦ (ns, sym ((==_iff i (bucket_index ns)).0 same))
  | inr other ↦ in_bucket-some i rest (ground (arith, other, h))
]

-- What the percentile gives for a rank, over the latencies themselves.
pub Ranks : List ℕ → ℕ → ℕ → Type 0
Ranks ls target v =
    ((target ≤ below 9000000 ls) × (below v ls < target) × (target ≤ below (v + resolution v) ls))
    ⊎ ((below 9000000 ls < target) × (v ≡ largest ls))

in_earlier-up_to :
    (k : ℕ) (ls : List ℕ) → k < bucket_count → in_earlier (k + 1) ls ≤ in_earlier bucket_count ls
in_earlier-up_to k [] h = omega arith
in_earlier-up_to k (ns ∷ rest) h = ground (arith, in_earlier-up_to k rest h, h)

StopsAt-Ranks : (ls : List ℕ) (target v : ℕ) → StopsAt ls target (largest ls) v → Ranks ls target v
unfolding StopsAt Ranks
StopsAt-Ranks ls target v (inl (k, inside, at, before, reached)) =
    let (l, same) = in_bucket-some k ls (omega (arith, before, reached, in_earlier-suc k ls)) in
    let (earlier, until) = below-in_earlier l ls (omega (arith, same, inside)) in
    let here : bucket_to_ns (bucket_index l) ≡ v = ap bucket_to_ns same ∙ sym at in
    inl (
      omega (arith, reached, below-bucket_count ls, in_earlier-up_to k ls inside),
      omega (arith, before, ap (λ j. in_earlier j ls) same, earlier, ap (λ w. below w ls) here),
      omega (
        arith,
        reached,
        ap (λ j. in_earlier (j + 1) ls) same,
        until,
        ap (λ w. below (w + resolution w) ls) here,
      ),
    )
StopsAt-Ranks ls target v (inr (beyond, at)) =
    inr (omega (arith, beyond, below-bucket_count ls), at)

no_latency-Ranks : (ls : List ℕ) (target : ℕ) → length ls ≡ 0 → 0 < target → Ranks ls target 0
unfolding Ranks
no_latency-Ranks [] target h positive = inr (omega (arith, positive), refl)
no_latency-Ranks (ns ∷ rest) target h positive = absurd (omega (arith, h))

either-Ranks :
    (ls : List ℕ) (target v : ℕ) (test : Bool)
    → (test ≡ true → Ranks ls target 0)
    → Ranks ls target v
    → Ranks ls target (if test then 0 else v)
either-Ranks ls target v true on_true on_false = on_true refl
either-Ranks ls target v false on_true on_false = on_false

-- The time that `percentile` gives for a positive rank, of a histogram that has recorded fewer than
-- 2 ^ 64 latencies: where at least so many of them are below 9 ms, fewer of the latencies than the
-- rank are below this time, and at least as many as the rank are below the time and its resolution;
-- otherwise it is the largest latency, or 0 where nothing is recorded.
pub percentile-recorded :
    (ls : List ℕ) (target : ℕ)
    → length ls < u64_mod
    → 0 < target
    → Ranks ls target (percentile (recorded ls) target)
unfolding percentile
percentile-recorded ls target small positive =
    let c = recorded-Counts ls small in
    either-Ranks ls target _ ((recorded ls).count == 0)
      (λ none_yet.
        no_latency-Ranks ls target
          (omega (arith, (==_iff (recorded ls).count 0).0 none_yet, c.count)) positive)
      (StopsAt-Ranks ls target _ (
        subst (λ m. StopsAt ls target m (percentile_from (recorded ls) target 0 0 bucket_count))
          c.max_latency
          (percentile_from-StopsAt (recorded ls) ls target 0 0 bucket_count c small refl
            (sym (in_earlier-zero ls)) positive)))
