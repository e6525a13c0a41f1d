-- ===== src/SpscQueue/Threads/Interleaved.antt =====
-- What holds of the two threads of a ring in every order of their steps.
use lob_engine.Prelude.{
  ℕ, suc, ◌%◌, ◌≤◌, ◌<◌, ◌≡◌, ◌≢◌, ◌⊎◌, inl, inr, refl, subst, ◌∙◌, true, List, [], ◌++◌,
  append_assoc, arith, length, length-append, ◌==◌, u64_mod,
}
use lob_engine.SpscQueue.{capacity, next_index}
use lob_engine.SpscQueue.Refine.{initial-Holds, full_test, empty_test}
use lob_engine.SpscQueue.Threads.{Producer, Consumer, ReadOrder, Threads, Reach, start, later}
use lob_engine.SpscQueue.Threads.Known.{IsKnown, in_hand, slot_apart, ConsumerKnows, ProducerKnows}
use lob_engine.SpscQueue.Threads.Moves.{Move-IsKnown}

module _ {A : Type 0} {bits : ℕ} {order : ReadOrder} {filled : ℕ → A} where
  Reach-IsKnown :
      {s : Threads A}
      → 0 < capacity bits
      → Reach bits order filled s
      → (xs : List A) × IsKnown bits s xs
  Reach-IsKnown c start = (
    [],
    record {
      holds = initial-Holds bits filled c;
      told = refl;
      producer = tt;
      consumer = tt;
      counted = omega arith;
    },
  )
  Reach-IsKnown c (later r m) = let (xs, v) = Reach-IsKnown c r in Move-IsKnown bits order xs m v

  -- In every interleaving of the two threads of a ring, and for both orders in which a consumer
  -- reads a slot and stores the head: the items that the producer has published are those that the
  -- consumer has handed on, then the one whose slot it has released and not read, if there is one,
  -- then those in the ring, each once and in order. The ring holds at most one less than it has
  -- places, and none exactly if the indices are equal; and the drop counter is the number of
  -- dropped items modulo 2 ^ 64.
  pub interleaved_fifo :
      {s : Threads A}
      → 0 < capacity bits
      → Reach bits order filled s
      → (held : List A) × (s.accepted ≡ s.emitted ++ in_hand s.consumer s.ring.buffer ++ held)
        × (length held < capacity bits)
        × ((s.ring.head == s.ring.tail) ≡ (length held == 0))
        × (s.drops ≡ length s.lost % u64_mod)
  interleaved_fifo {s} c r =
      let (xs, v) = Reach-IsKnown c r in
      (xs, v.told, v.holds.room, empty_test bits s.ring xs v.holds, v.counted)

  -- In every interleaving, the slot that the producer is about to write is not the one that the
  -- consumer is about to read, also where the consumer has already released it.
  pub no_slot_race :
      {s : Threads A} (t h : ℕ) (x : A)
      → 0 < capacity bits
      → Reach bits order filled s
      → s.producer ≡ Producer.room_seen t x
      → (s.consumer ≡ Consumer.item_seen h) ⊎ (s.consumer ≡ Consumer.released h)
      → t ≢ h
  no_slot_race {s} t h x c r p (inl q) same =
      let (xs, v) = Reach-IsKnown c r in
      let (here, free) = subst (ProducerKnows bits s.ring xs) p v.producer in
      let (there, some_item) = subst (ConsumerKnows bits s.ring xs) q v.consumer in
      ground (arith, empty_test bits s.ring xs v.holds, here, there, same, some_item)
  no_slot_race {s} t h x c r p (inr q) same =
      let (xs, v) = Reach-IsKnown c r in
      let (here, free) = subst (ProducerKnows bits s.ring xs) p v.producer in
      let (small, at) = subst (ConsumerKnows bits s.ring xs) q v.consumer in
      ground (
        arith,
        slot_apart (capacity bits) s.ring.head s.ring.tail h (length xs) small at v.holds.tail_at
            free,
        here,
        same,
      )

  -- In every interleaving, an item is refused only if the ring is full at that moment: the items
  -- that are published and not handed on are then at least one less than the ring has places.
  pub refused_when_full :
      {s : Threads A} (t : ℕ) (x : A)
      → 0 < capacity bits
      → Reach bits order filled s
      → s.producer ≡ Producer.tail_loaded t x
      → (next_index bits t == s.ring.head) ≡ true
      → (left : List A) × (s.accepted ≡ s.emitted ++ left) × (capacity bits ≤ suc (length left))
  refused_when_full {s} t x c r p full =
      let (xs, v) = Reach-IsKnown c r in
      let here = subst (ProducerKnows bits s.ring xs) p v.producer in
      (
        in_hand s.consumer s.ring.buffer ++ xs,
        v.told ∙ append_assoc s.emitted (in_hand s.consumer s.ring.buffer) xs,
        ground (
          arith,
          length-append (in_hand s.consumer s.ring.buffer) xs,
          full_test bits s.ring xs v.holds,
          rw here at full,
        ),
      )
