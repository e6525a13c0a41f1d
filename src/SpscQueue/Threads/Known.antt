-- ===== src/SpscQueue/Threads/Known.antt =====
-- What the locals of the two threads of a ring say about the memory that they share, and that
-- the changes of that memory keep it.
use lob_engine.Prelude.{
  ℕ, suc, ◌+◌, ◌%◌, ◌<◌, ◌≡◌, refl, sym, ap, subst, ◌∙◌, false, Option, none, some, List, [], ◌∷◌,
  ◌++◌, arith, length, length-append, ◌==◌, add64, u64_mod,
}
use lob_engine.SpscQueue.{SpscQueue, capacity, next_index, write}
use lob_engine.SpscQueue.Refine.{
  Holds, Stored, wrap, next_index_lem, write-other, wrap_lt, apart_from_tail, wrap-suc,
}
use lob_engine.SpscQueue.Threads.{Producer, Consumer, Threads}

-- While there is room, the slot behind the items is not the one that was released last.
pub slot_apart :
    (c head tail h n : ℕ)
    → h < c
    → head ≡ wrap c (suc h)
    → tail ≡ wrap c (head + n)
    → suc n < c
    → (h == tail) ≡ false
slot_apart c head tail h n a e f free = ground arith

module _ {A : Type 0} where
  -- The item that has left the ring and is not handed on yet.
  abbrev pub in_hand : Consumer A → (ℕ → A) → List A
  in_hand (Consumer.released head) buffer = buffer head ∷ []
  in_hand _ buffer = []

  abbrev pub first : List A → Option A
  first [] = none
  first (x ∷ xs) = some x

  abbrev pub ProducerKnows : ℕ → SpscQueue A → List A → Producer A → Type 0
  ProducerKnows bits r xs (Producer.tail_loaded tail item) = tail ≡ r.tail
  ProducerKnows bits r xs (Producer.room_seen tail item) =
      (tail ≡ r.tail) × (suc (length xs) < capacity bits)
  ProducerKnows bits r xs (Producer.written tail item) =
      (tail ≡ r.tail) × (suc (length xs) < capacity bits) × (r.buffer tail ≡ item)
  ProducerKnows bits r xs _ = Unit

  abbrev pub ConsumerKnows : ℕ → SpscQueue A → List A → Consumer A → Type 0
  ConsumerKnows bits r xs (Consumer.head_loaded head) = head ≡ r.head
  ConsumerKnows bits r xs (Consumer.item_seen head) = (head ≡ r.head) × (0 < length xs)
  ConsumerKnows bits r xs (Consumer.copied head item) = (head ≡ r.head) × (first xs ≡ some item)
  ConsumerKnows bits r xs (Consumer.released head) =
      (head < capacity bits) × (r.head ≡ wrap (capacity bits) (suc head))
  ConsumerKnows bits r xs _ = Unit

  pub record IsKnown (bits : ℕ) (s : Threads A) (xs : List A) : Type 0 where
    pub holds : Holds bits s.ring xs
    pub told : s.accepted ≡ s.emitted ++ in_hand s.consumer s.ring.buffer ++ xs
    pub producer : ProducerKnows bits s.ring xs s.producer
    pub consumer : ConsumerKnows bits s.ring xs s.consumer
    pub counted : s.drops ≡ length s.lost % u64_mod

  Stored-apart :
      (c p : ℕ) (buffer : ℕ → A) (xs : List A) (x : A) (t : ℕ)
      → ((i : ℕ) → i < length xs → (wrap c (p + i) == t) ≡ false)
      → Stored c buffer p xs
      → Stored c (write buffer t x) p xs
  Stored-apart c p buffer [] x t apart s = tt
  Stored-apart c p buffer (y ∷ ys) x t apart s = (
    write-other buffer (wrap c p) t x
          (subst (λ i. (wrap c i == t) ≡ false) (omega arith) (apart 0 (omega arith)))
        ∙ s.0,
    Stored-apart c (suc p) buffer ys x t
        (λ i k.
          subst (λ j. (wrap c j == t) ≡ false) (omega arith) (apart (suc i) (omega (arith, k))))
        s.1,
  )

  Stored-behind :
      (c p : ℕ) (buffer : ℕ → A) (xs : List A) (x : A)
      → buffer (wrap c (p + length xs)) ≡ x
      → Stored c buffer p xs
      → Stored c buffer p (xs ++ x ∷ [])
  Stored-behind c p buffer [] x e s = (ap (λ i. buffer (wrap c i)) (omega arith) ∙ e, tt)
  Stored-behind c p buffer (y ∷ ys) x e s =
      (s.0, Stored-behind c (suc p) buffer ys x (ap (λ i. buffer (wrap c i)) (omega arith) ∙ e) s.1)

  -- A write of the slot behind the items leaves the items alone.
  pub write-Holds :
      (bits : ℕ) (r : SpscQueue A) (xs : List A) (x : A)
      → Holds bits r xs
      → Holds bits (record r { buffer = write r.buffer r.tail x }) xs
  write-Holds bits r xs x v = record {
    in_range = v.in_range;
    room = v.room;
    tail_at = v.tail_at;
    stored =
        Stored-apart (capacity bits) r.head r.buffer xs x r.tail
          (λ i k.
            rw v.tail_at (apart_from_tail (capacity bits) r.head (length xs) i v.in_range v.room k))
          v.stored;
  }

  -- The tail moves on over a slot that holds an item.
  pub store-Holds :
      (bits : ℕ) (r : SpscQueue A) (xs : List A) (x : A)
      → Holds bits r xs
      → suc (length xs) < capacity bits
      → r.buffer r.tail ≡ x
      → Holds bits (record r { tail = next_index bits r.tail }) (xs ++ x ∷ [])
  store-Holds bits r xs x v free e =
      let c = capacity bits in
      record {
        in_range = v.in_range;
        room = omega (arith, length-append xs (x ∷ []), free);
        tail_at =
            next_index_lem bits r.tail
              (subst (λ i. i < c) (sym v.tail_at) (wrap_lt c _ _ v.in_range v.room))
            ∙ ap (λ i. wrap c (suc i)) v.tail_at
            ∙ wrap-suc c r.head (length xs) v.in_range free
            ∙ ap (wrap c) (omega (arith, length-append xs (x ∷ [])));
        stored = Stored-behind c r.head r.buffer xs x (ap r.buffer (sym v.tail_at) ∙ e) v.stored;
      }

  pub in_hand-write :
      (bits : ℕ) (r : SpscQueue A) (xs : List A) (x : A) (p : Consumer A)
      → Holds bits r xs
      → suc (length xs) < capacity bits
      → ConsumerKnows bits r xs p
      → in_hand p (write r.buffer r.tail x) ≡ in_hand p r.buffer
  in_hand-write bits r xs x (Consumer.released h) v free k =
      ap (λ a. a ∷ [])
        (write-other r.buffer h r.tail x
          (slot_apart (capacity bits) r.head r.tail h (length xs) k.0 k.1 v.tail_at free))
  in_hand-write bits r xs x Consumer.ready v free k = refl
  in_hand-write bits r xs x (Consumer.head_loaded h) v free k = refl
  in_hand-write bits r xs x (Consumer.item_seen h) v free k = refl
  in_hand-write bits r xs x (Consumer.copied h y) v free k = refl

  -- What the consumer knows survives an item behind the others.
  pub ConsumerKnows-store :
      (bits t : ℕ) (r : SpscQueue A) (xs : List A) (x : A) (p : Consumer A)
      → ConsumerKnows bits r xs p
      → ConsumerKnows bits (record r { tail = t }) (xs ++ x ∷ []) p
  ConsumerKnows-store bits t r xs x Consumer.ready k = tt
  ConsumerKnows-store bits t r xs x (Consumer.head_loaded h) k = k
  ConsumerKnows-store bits t r xs x (Consumer.item_seen h) k =
      (k.0, omega (arith, length-append xs (x ∷ [])))
  ConsumerKnows-store bits t r [] x (Consumer.copied h y) k = absurd (cc k.1)
  ConsumerKnows-store bits t r (z ∷ zs) x (Consumer.copied h y) k = k
  ConsumerKnows-store bits t r xs x (Consumer.released h) k = k

  pub ConsumerKnows-write :
      (bits : ℕ) (r : SpscQueue A) (buffer : ℕ → A) (xs : List A) (p : Consumer A)
      → ConsumerKnows bits r xs p
      → ConsumerKnows bits (record r { buffer = buffer }) xs p
  ConsumerKnows-write bits r buffer xs Consumer.ready k = tt
  ConsumerKnows-write bits r buffer xs (Consumer.head_loaded h) k = k
  ConsumerKnows-write bits r buffer xs (Consumer.item_seen h) k = k
  ConsumerKnows-write bits r buffer xs (Consumer.copied h y) k = k
  ConsumerKnows-write bits r buffer xs (Consumer.released h) k = k

  -- What the producer knows survives the release of the first item.
  pub ProducerKnows-release :
      (bits h : ℕ) (r : SpscQueue A) (y : A) (ys : List A) (p : Producer A)
      → ProducerKnows bits r (y ∷ ys) p
      → ProducerKnows bits (record r { head = h }) ys p
  ProducerKnows-release bits h r y ys Producer.ready k = tt
  ProducerKnows-release bits h r y ys (Producer.tail_loaded t x) k = k
  ProducerKnows-release bits h r y ys (Producer.full_seen x) k = tt
  ProducerKnows-release bits h r y ys (Producer.room_seen t x) k = (k.0, omega (arith, k.1))
  ProducerKnows-release bits h r y ys (Producer.written t x) k = (k.0, omega (arith, k.1), k.2)

  pub first_stored :
      (bits : ℕ) (r : SpscQueue A) (y : A) (ys : List A)
      → Holds bits r (y ∷ ys)
      → r.buffer r.head ≡ y
  first_stored bits r y ys v = ap r.buffer (ground (arith, v.in_range)) ∙ v.stored.0

  pub first_stored_some :
      (bits : ℕ) (r : SpscQueue A) (xs : List A)
      → Holds bits r xs
      → 0 < length xs
      → first xs ≡ some (r.buffer r.head)
  first_stored_some bits r [] v h = absurd (omega (arith, h))
  first_stored_some bits r (y ∷ ys) v h = ap some (sym (first_stored bits r y ys v))

  pub first_length : (xs : List A) (x : A) → first xs ≡ some x → 0 < length xs
  first_length [] x e = absurd (cc e)
  first_length (y ∷ ys) x e = omega arith

  pub first_head : (y : A) (ys : List A) (x : A) → first (y ∷ ys) ≡ some x → y ≡ x
  first_head y ys x e = cc e

  pub none_in_hand :
      (buffer : ℕ → A) {q p : Consumer A} → q ≡ p → in_hand p buffer ≡ [] → in_hand q buffer ≡ []
  none_in_hand buffer e none_here = ap (λ p. in_hand p buffer) e ∙ none_here

  pub counted_on :
      (x : A) (lost : List A) → add64 (length lost % u64_mod) 1 ≡ length (lost ++ x ∷ []) % u64_mod
  unfolding add64
  counted_on x lost = omega (arith, length-append lost (x ∷ []))
