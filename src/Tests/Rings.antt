-- ===== src/Tests/Rings.antt =====
-- Runs of the ring, of the histogram and of the logger's size.
use lob_engine.Prelude.{
  ℕ, suc, ◌+◌, ◌*◌, ◌^◌, ◌≤◌, ◌<◌, ◌≡◌, refl, List, [], ◌∷◌, ◌++◌, ◌⊎◌, length, ok, out_of_fuel,
  arith, ◌==◌, if◌then◌else◌,
}
use lob_engine.SpscQueue.{SpscQueue, DropQueue, enqueue_all, capacity}
use lob_engine.SpscQueue.Refine.{Holds}
use lob_engine.SpscQueue.Drops.{enqueue_all_keeps}
use lob_engine.Metrics.{bucket_index, bucket_to_ns, bucket_count, percentile, recorded}
use lob_engine.Metrics.Buckets.{resolution, bucket_to_ns-bucket_index}
use lob_engine.Metrics.Ranks.{Ranks, percentile-recorded}
use lob_engine.Logging.{buffer_size}
use lob_engine.Logging.Sizes.{buffer_size_total, buffer_size_diverges}

abbrev items : List ℕ
items = 5 ∷ 6 ∷ []

-- A ring of four places that holds 5 and 6, across the end of the buffer.
abbrev wrapped : SpscQueue ℕ
wrapped = record { head = 3; tail = 1; buffer = λ i. if i == 3 then 5 else 6 }

wrapped-Holds : Holds 2 wrapped items
wrapped-Holds = record {
  in_range = omega arith;
  room = omega arith;
  tail_at = refl;
  stored = (refl, (refl, tt));
}

abbrev dropping : DropQueue ℕ
dropping = record { ring = wrapped; drops = 8 }

enqueue_all_keeps_example :
    (kept : List ℕ) × (lost : List ℕ) × (7 ∷ 8 ∷ 9 ∷ [] ≡ kept ++ lost)
    × Holds 2 (enqueue_all 2 dropping (7 ∷ 8 ∷ 9 ∷ [])).ring (items ++ kept)
    × ((enqueue_all 2 dropping (7 ∷ 8 ∷ 9 ∷ [])).drops ≡ 8 + length lost)
    × ((lost ≡ []) ⊎ (suc (length (items ++ kept)) ≡ capacity 2))
enqueue_all_keeps_example =
    enqueue_all_keeps 2 dropping items (7 ∷ 8 ∷ 9 ∷ []) wrapped-Holds (omega arith)

bucket_to_ns-bucket_index_example :
    (bucket_index 2345678 < bucket_count)
    × (bucket_to_ns (bucket_index 2345678) ≤ 2345678)
    × (2345678 < bucket_to_ns (bucket_index 2345678) + resolution 2345678)
bucket_to_ns-bucket_index_example = bucket_to_ns-bucket_index 2345678 (omega arith)

percentile-recorded_example :
    Ranks
      (5200 ∷ 700 ∷ 12 ∷ 9500000 ∷ [])
      3
      (percentile (recorded (5200 ∷ 700 ∷ 12 ∷ 9500000 ∷ [])) 3)
percentile-recorded_example =
    percentile-recorded (5200 ∷ 700 ∷ 12 ∷ 9500000 ∷ []) 3 (omega arith) (omega arith)

buffer_size_total_example :
    (j : ℕ) × (buffer_size 32 1000 ≡ ok (2 ^ j))
    × (1000 ≤ 2 ^ j)
    × (j ≤ 31)
    × ((j ≡ 0) ⊎ (2 ^ j < 2 * 1000))
buffer_size_total_example = buffer_size_total 1000 (omega arith)

buffer_size_diverges_example : buffer_size 40 3000000000 ≡ out_of_fuel
buffer_size_diverges_example = buffer_size_diverges 3000000000 40 (omega arith)
