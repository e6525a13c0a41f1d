-- ===== src/Tests/Threads.antt =====
-- Runs of the two threads of a ring.
use lob_engine.Prelude.{
  ◌<◌, ◌==◌, ℕ, ◌%◌, ◌≡◌, ◌≢◌, refl, inr, List, [], ◌++◌, arith, length, u64_mod, ◌∷◌,
}
use lob_engine.SpscQueue.{capacity, next_index, write}
use lob_engine.SpscQueue.Threads.{
  ReadOrder, Threads, Reach, start, later, load_tail, find_room, write_slot, store_tail, load_head,
  find_item, store_head_early, read_slot_late,
}
use lob_engine.SpscQueue.Threads.Known.{in_hand}
use lob_engine.SpscQueue.Threads.Interleaved.{interleaved_fifo, no_slot_race}

abbrev zeros : ℕ → ℕ
zeros i = 0

-- 5 is published to a ring of four places.
abbrev published : (s : Threads ℕ) × Reach 2 ReadOrder.release_first zeros s
unfolding next_index write
published = (
  _,
  later
      (later (later (later start (load_tail 5 refl)) (find_room 0 5 refl refl))
        (write_slot 0 5 refl))
      (store_tail 0 5 refl),
)

-- The consumer releases the slot of 5 and has not read it, while the producer may write 6.
abbrev racing : (s : Threads ℕ) × Reach 2 ReadOrder.release_first zeros s
unfolding next_index write
racing = (
  _,
  later
      (later
        (later (later (later published.1 (load_head refl)) (find_item 0 refl refl))
          (store_head_early 0 refl refl))
        (load_tail 6 refl))
      (find_room 1 6 refl refl),
)

abbrev read_late : (s : Threads ℕ) × Reach 2 ReadOrder.release_first zeros s
unfolding next_index write
read_late = (_, later (later racing.1 (write_slot 1 6 refl)) (read_slot_late 0 refl))

late_reads : read_late.0.emitted ≡ 5 ∷ []
unfolding next_index write
late_reads = refl

-- A ring of two places is full with one item.
abbrev full_ring : (s : Threads ℕ) × Reach 1 ReadOrder.read_first zeros s
unfolding next_index write
full_ring = (
  _,
  later
      (later
        (later (later (later start (load_tail 5 refl)) (find_room 0 5 refl refl))
          (write_slot 0 5 refl))
        (store_tail 0 5 refl))
      (load_tail 6 refl),
)

interleaved_fifo_example :
    (held : List ℕ) × (read_late.0.accepted
      ≡ read_late.0.emitted ++ in_hand read_late.0.consumer read_late.0.ring.buffer ++ held)
    × (length held < capacity 2)
    × ((read_late.0.ring.head == read_late.0.ring.tail) ≡ (length held == 0))
    × (read_late.0.drops ≡ length read_late.0.lost % u64_mod)
unfolding next_index write
interleaved_fifo_example = interleaved_fifo (omega arith) read_late.1

no_slot_race_example : ◌≢◌ {A = ℕ} 1 0
unfolding next_index write
no_slot_race_example = no_slot_race 1 0 6 (omega arith) racing.1 refl (inr refl)
