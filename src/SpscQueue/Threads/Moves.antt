-- ===== src/SpscQueue/Threads/Moves.antt =====
-- Every step of the two threads of a ring keeps what they know.
use lob_engine.Prelude.{
  ℕ, suc, ◌<◌, ◌≡◌, refl, sym, ap, subst, ◌∙◌, List, [], ◌∷◌, ◌++◌, append_assoc, append-nil, arith,
  length, add64,
}
use lob_engine.SpscQueue.{capacity, next_index, write}
use lob_engine.SpscQueue.Refine.{
  Holds, next_index_lem, full_test, empty_test, popped_refines, write-same,
}
use lob_engine.SpscQueue.Threads.{Consumer, ReadOrder, Threads, Move}
use lob_engine.SpscQueue.Threads.Known.{
  IsKnown, in_hand, first, ProducerKnows, ConsumerKnows, write-Holds, store-Holds, in_hand-write,
  ConsumerKnows-store, ConsumerKnows-write, ProducerKnows-release, first_stored, first_stored_some,
  first_length, first_head, none_in_hand, counted_on,
}

module _ {A : Type 0} (bits : ℕ) (order : ReadOrder) {s : Threads A} where
  -- The two steps that release the first item.
  release :
      (p : Consumer A) (xs emitted : List A)
      → IsKnown bits s xs
      → 0 < length xs
      → ((y : A) (ys : List A)
          → xs ≡ y ∷ ys
          → s.accepted ≡ emitted ++ in_hand p s.ring.buffer ++ ys)
      → ((y : A) (ys : List A)
          → ConsumerKnows bits (record s.ring { head = next_index bits s.ring.head }) ys p)
      → (ys : List A) × IsKnown bits
          (record s {
            consumer = p;
            ring = record s.ring { head = next_index bits s.ring.head };
            emitted = emitted;
          })
          ys
  release p [] emitted v some_item told knows = absurd (omega (arith, some_item))
  release p (y ∷ ys) emitted v some_item told knows = (
    ys,
    record {
      holds = popped_refines bits s.ring y ys v.holds;
      told = told y ys refl;
      producer =
          ProducerKnows-release bits (next_index bits s.ring.head) s.ring y ys s.producer
            v.producer;
      consumer = knows y ys;
      counted = v.counted;
    },
  )

  -- With nothing in hand, the next item goes behind those handed on.
  taken_on :
      {xs : List A}
      → IsKnown bits s xs
      → in_hand s.consumer s.ring.buffer ≡ []
      → (x : A) (ys : List A) → xs ≡ x ∷ ys
      → s.accepted ≡ s.emitted ++ x ∷ [] ++ ys
  taken_on {xs} v empty_hand x ys q =
      v.told
      ∙ ap (λ h. s.emitted ++ h ++ xs) empty_hand
      ∙ ap (λ l. l ++ xs) (append-nil s.emitted)
      ∙ ap (λ l. s.emitted ++ l) q
      ∙ sym (append_assoc s.emitted (x ∷ []) ys)

  -- The steps that change the consumer's locals only.
  consumer_moves :
      (p : Consumer A) (xs : List A)
      → IsKnown bits s xs
      → in_hand s.consumer s.ring.buffer ≡ []
      → in_hand p s.ring.buffer ≡ []
      → ConsumerKnows bits s.ring xs p
      → IsKnown bits (record s { consumer = p }) xs
  consumer_moves p xs v before after knows = record {
    holds = v.holds;
    told = v.told ∙ ap (λ h. s.emitted ++ h ++ xs) (before ∙ sym after);
    producer = v.producer;
    consumer = knows;
    counted = v.counted;
  }

  -- Every step of either thread.
  pub Move-IsKnown :
      {t : Threads A} (xs : List A)
      → Move bits order s t
      → IsKnown bits s xs
      → (ys : List A) × IsKnown bits t ys
  Move-IsKnown xs (Move.load_tail item e) v = (
    xs,
    record {
      holds = v.holds;
      told = v.told;
      producer = refl;
      consumer = v.consumer;
      counted = v.counted;
    },
  )
  Move-IsKnown xs (Move.find_full tail item e full) v = (
    xs,
    record {
      holds = v.holds;
      told = v.told;
      producer = tt;
      consumer = v.consumer;
      counted = v.counted;
    },
  )
  Move-IsKnown xs (Move.count_drop item e) v = (
    xs,
    record {
      holds = v.holds;
      told = v.told;
      producer = tt;
      consumer = v.consumer;
      counted = ap (λ d. add64 d 1) v.counted ∙ counted_on item s.lost;
    },
  )
  Move-IsKnown xs (Move.find_room tail item e room) v =
      let here : tail ≡ s.ring.tail = subst (ProducerKnows bits s.ring xs) e v.producer in
      let test = full_test bits s.ring xs v.holds in
      let free : suc (length xs) < capacity bits =
        ground (arith, v.holds.room, test, rw here at room) in
      (
        xs,
        record {
          holds = v.holds;
          told = v.told;
          producer = (here, free);
          consumer = v.consumer;
          counted = v.counted;
        },
      )
  Move-IsKnown xs (Move.write_slot tail item e) v =
      let (here, free) = subst (ProducerKnows bits s.ring xs) e v.producer in
      (
        xs,
        rw here record {
          holds = write-Holds bits s.ring xs item v.holds;
          told =
              v.told
              ∙ ap (λ h. s.emitted ++ h ++ xs)
                  (sym (in_hand-write bits s.ring xs item s.consumer v.holds free v.consumer));
          producer = (refl, free, write-same s.ring.buffer s.ring.tail s.ring.tail item refl);
          consumer =
              ConsumerKnows-write bits s.ring (write s.ring.buffer s.ring.tail item) xs s.consumer
                v.consumer;
          counted = v.counted;
        },
      )
  Move-IsKnown xs (Move.store_tail tail item e) v =
      let (here, free, there) = subst (ProducerKnows bits s.ring xs) e v.producer in
      (
        xs ++ item ∷ [],
        rw here record {
          holds =
              store-Holds bits s.ring xs item v.holds free (ap s.ring.buffer (sym here) ∙ there);
          told = ap (λ l. l ++ item ∷ []) v.told ∙ append_assoc _ xs (item ∷ []);
          producer = tt;
          consumer =
              ConsumerKnows-store bits (next_index bits s.ring.tail) s.ring xs item s.consumer
                v.consumer;
          counted = v.counted;
        },
      )
  Move-IsKnown xs (Move.load_head e) v = (
    xs,
    consumer_moves (Consumer.head_loaded s.ring.head) xs v (none_in_hand s.ring.buffer e refl) refl
        refl,
  )
  Move-IsKnown xs (Move.find_empty head e test) v =
      (xs, consumer_moves Consumer.ready xs v (none_in_hand s.ring.buffer e refl) refl tt)
  Move-IsKnown xs (Move.find_item head e test) v =
      let here : head ≡ s.ring.head = subst (ConsumerKnows bits s.ring xs) e v.consumer in
      let some_item : 0 < length xs =
        ground (arith, empty_test bits s.ring xs v.holds, rw here at test) in
      (
        xs,
        consumer_moves (Consumer.item_seen head) xs v (none_in_hand s.ring.buffer e refl) refl
            (here, some_item),
      )
  Move-IsKnown xs (Move.copy_slot head o e) v =
      let (here, some_item) = subst (ConsumerKnows bits s.ring xs) e v.consumer in
      (
        xs,
        consumer_moves (Consumer.copied head (s.ring.buffer head)) xs v
            (none_in_hand s.ring.buffer e refl) refl
            (here, rw here (first_stored_some bits s.ring xs v.holds some_item)),
      )
  Move-IsKnown xs (Move.store_head head item e) v =
      let (here, item_first) = subst (ConsumerKnows bits s.ring xs) e v.consumer in
      rw here (
        release Consumer.ready xs (s.emitted ++ item ∷ []) v (first_length xs item item_first)
          (λ y ys q.
            let same : xs ≡ item ∷ ys =
              q ∙ ap (λ z. z ∷ ys) (first_head y ys item (ap first (sym q) ∙ item_first)) in
            rw (append-nil (s.emitted ++ item ∷ []))
              (taken_on v (none_in_hand s.ring.buffer e refl) item ys same))
          (λ y ys. tt))
  Move-IsKnown xs (Move.store_head_early head o e) v =
      let (here, some_item) = subst (ConsumerKnows bits s.ring xs) e v.consumer in
      rw here (
        release (Consumer.released s.ring.head) xs s.emitted v some_item
          (λ y ys q. taken_on v (none_in_hand s.ring.buffer e refl) (s.ring.buffer s.ring.head) ys (
            q
            ∙ ap (λ z. z ∷ ys)
                (sym (first_stored bits s.ring y ys (subst (Holds bits s.ring) q v.holds)))))
          (λ y ys. (v.holds.in_range, next_index_lem bits s.ring.head v.holds.in_range)))
  Move-IsKnown xs (Move.read_slot_late head e) v = (
    xs,
    record {
      holds = v.holds;
      told =
          v.told
          ∙ ap (λ p. s.emitted ++ in_hand p s.ring.buffer ++ xs) e
          ∙ ap (λ l. l ++ xs) (sym (append-nil (s.emitted ++ s.ring.buffer head ∷ [])));
      producer = v.producer;
      consumer = tt;
      counted = v.counted;
    },
  )
