-- ===== src/SpscQueue/Refine.antt =====
-- The ring against a bounded FIFO list of at most capacity - 1 items.
use native.Mathlib.Nat.{mod-eq_of_lt, mod-eq-sub-mod}
use lob_engine.Prelude.{
  ℕ, suc, ◌+◌, ◌-◌, ◌%◌, ◌<◌, ◌≡◌, refl, sym, ◌∙◌, true, false, none, some, List, [], ◌∷◌, ◌++◌,
  ◌==◌, ==_iff, ==_refl, subst, length-append, if◌then◌else◌, arith, length, ltb, Bool-cases, inl,
  inr, ◌⊎◌, ap,
}
use lob_engine.SpscQueue.{capacity, write, SpscQueue, next_index, push, pop, empty}

-- A position below twice the capacity, brought back into the buffer.
abbrev pub wrap : ℕ → ℕ → ℕ
wrap c p = if ltb p c then p else p - c

-- The buffer holds the items from a position on, in their order.
abbrev pub Stored {ℓ} : {A : Type ℓ} → ℕ → (ℕ → A) → ℕ → List A → Type ℓ
Stored c buffer p [] = Unit
Stored c buffer p (x ∷ xs) = (buffer (wrap c p) ≡ x) × Stored c buffer (suc p) xs

-- A ring that holds a list: indices in range, the tail as far behind the head as the list is long.
pub record Holds {ℓ} {A : Type ℓ} (bits : ℕ) (r : SpscQueue A) (xs : List A) : Type ℓ where
  pub in_range : r.head < capacity bits
  pub room : length xs < capacity bits
  pub tail_at : r.tail ≡ wrap (capacity bits) (r.head + length xs)
  pub stored : Stored (capacity bits) r.buffer r.head xs

next_wraps : (c i : ℕ) → i < c → (i + 1) % c ≡ wrap c (suc i)
next_wraps c i h = elim (Bool-cases (ltb (suc i) c)) [
  | inl t ↦ rw t (mod-eq_of_lt (ground arith) ∙ omega arith)
  | inr t ↦ rw t (mod-eq-sub-mod (ground arith) ∙ mod-eq_of_lt (ground arith) ∙ omega arith)
]

pub next_index_lem :
    (bits i : ℕ) → i < capacity bits → next_index bits i ≡ wrap (capacity bits) (suc i)
unfolding next_index
next_index_lem bits i h = next_wraps (capacity bits) i h

pub apart_from_tail :
    (c h n i : ℕ) → h < c → n < c → i < n → (wrap c (h + i) == wrap c (h + n)) ≡ false
apart_from_tail c h n i a b d = ground arith

next_is_head : (c h n : ℕ) → h < c → n < c → (wrap c (suc (wrap c (h + n))) == h) ≡ (suc n == c)
next_is_head c h n a b = ground arith

pub is_tail : (c h n : ℕ) → h < c → n < c → (h == wrap c (h + n)) ≡ (n == 0)
is_tail c h n a b = ground arith

pub wrap_lt : (c h n : ℕ) → h < c → n < c → wrap c (h + n) < c
wrap_lt c h n a b = ground arith

pub wrap-suc :
    (c h n : ℕ) → h < c → suc n < c → wrap c (suc (wrap c (h + n))) ≡ wrap c (suc (h + n))
wrap-suc c h n a b = ground arith

wrap_shift : (c h n : ℕ) → h < c → suc n < c → wrap c (h + suc n) ≡ wrap c (wrap c (suc h) + n)
wrap_shift c h n a b = ground arith

module _ {ℓ} {A : Type ℓ} where
  pub write-same : (buffer : ℕ → A) (i j : ℕ) (x : A) → j ≡ i → write buffer j x i ≡ x
  unfolding write
  write-same buffer i j x e = rw (e, ==_refl i) refl

  pub write-other :
      (buffer : ℕ → A) (i j : ℕ) (x : A) → (i == j) ≡ false → write buffer j x i ≡ buffer i
  unfolding write
  write-other buffer i j x e = rw e refl

  -- A write at the tail touches no stored item and adds its own behind them.
  Stored-write :
      (c p : ℕ) (buffer : ℕ → A) (xs : List A) (x : A) (t : ℕ)
      → t ≡ wrap c (p + length xs)
      → ((i : ℕ) → i < length xs → (wrap c (p + i) == t) ≡ false)
      → Stored c buffer p xs
      → Stored c (write buffer t x) p (xs ++ x ∷ [])
  Stored-write c p buffer [] x t at apart s =
      (write-same buffer (wrap c p) t x (at ∙ ap (wrap c) (omega arith)), tt)
  Stored-write c p buffer (y ∷ ys) x t at apart s = (
    write-other buffer (wrap c p) t x
          (subst (λ i. (wrap c i == t) ≡ false) (omega arith) (apart 0 (omega arith)))
        ∙ s.0,
    Stored-write c (suc p) buffer ys x t (at ∙ ap (wrap c) (omega arith))
        (λ i k.
          subst (λ j. (wrap c j == t) ≡ false) (omega arith) (apart (suc i) (omega (arith, k))))
        s.1,
  )

  -- Past the end of the buffer the positions start again.
  Stored-rewind :
      (c p : ℕ) (buffer : ℕ → A) (xs : List A)
      → p + length xs < c
      → Stored c buffer (c + p) xs
      → Stored c buffer p xs
  Stored-rewind c p buffer [] h s = tt
  Stored-rewind c p buffer (y ∷ ys) h s = (
    ap buffer (ground (arith, h)) ∙ s.0,
    Stored-rewind c (suc p) buffer ys (omega (arith, h))
        (subst (λ i. Stored c buffer i ys) (omega arith) s.1),
  )

  -- The positions behind a head that moves on by one.
  Stored-next :
      (c h : ℕ) (buffer : ℕ → A) (xs : List A)
      → h < c
      → suc (length xs) < c
      → Stored c buffer (suc h) xs
      → Stored c buffer (wrap c (suc h)) xs
  Stored-next c h buffer xs a b s = elim (Bool-cases (ltb (suc h) c)) [
    | inl t ↦ rw t s
    | inr t ↦ rw t (
        Stored-rewind c (suc h - c) buffer xs (ground arith)
          (subst (λ i. Stored c buffer i xs) (ground arith) s))
  ]

  -- The initial ring, whatever its buffer is filled with, is the empty queue.
  pub initial-Holds :
      (bits : ℕ) (filled : ℕ → A)
      → 0 < capacity bits
      → Holds bits (record { head = 0; tail = 0; buffer = filled }) []
  initial-Holds bits filled h = record {
    in_range = h;
    room = h;
    tail_at = ground arith;
    stored = tt;
  }

  pushed_refines :
      (bits : ℕ) (r : SpscQueue A) (xs : List A) (x : A)
      → Holds bits r xs
      → suc (length xs) < capacity bits
      → Holds bits
          (record r { buffer = write r.buffer r.tail x; tail = next_index bits r.tail })
          (xs ++ x ∷ [])
  pushed_refines bits r xs x v free =
      let c = capacity bits in
      let a = v.in_range in
      let b = v.room in
      record {
        in_range = v.in_range;
        room = omega (arith, length-append xs (x ∷ []), free);
        tail_at =
            next_index_lem bits r.tail (subst (λ i. i < c) (sym v.tail_at) (wrap_lt c _ _ a b))
            ∙ ap (λ i. wrap c (suc i)) v.tail_at
            ∙ wrap-suc c r.head (length xs) a free
            ∙ ap (wrap c) (omega (arith, length-append xs (x ∷ [])));
        stored =
            Stored-write c r.head r.buffer xs x r.tail v.tail_at
              (λ i k. rw v.tail_at (apart_from_tail c r.head (length xs) i a b k)) v.stored;
      }

  -- The two tests of the threads, on the length of the list.
  pub full_test :
      (bits : ℕ) (r : SpscQueue A) (xs : List A)
      → Holds bits r xs
      → (next_index bits r.tail == r.head) ≡ (suc (length xs) == capacity bits)
  full_test bits r xs v =
      let c = capacity bits in
      ap (λ i. i == r.head)
        (next_index_lem bits r.tail
            (subst (λ i. i < c) (sym v.tail_at) (wrap_lt c r.head (length xs) v.in_range v.room))
          ∙ ap (λ i. wrap c (suc i)) v.tail_at)
      ∙ next_is_head c r.head (length xs) v.in_range v.room

  pub empty_test :
      (bits : ℕ) (r : SpscQueue A) (xs : List A)
      → Holds bits r xs
      → (r.head == r.tail) ≡ (length xs == 0)
  empty_test bits r xs v =
      ap (λ i. r.head == i) v.tail_at ∙ is_tail (capacity bits) r.head (length xs) v.in_range v.room

  -- A push onto a ring that holds a list returns false and changes nothing, where capacity - 1
  -- items are in it already; otherwise it returns true and appends the item to the list.
  pub push_refines :
      (bits : ℕ) (r : SpscQueue A) (xs : List A) (x : A)
      → Holds bits r xs
      → ((suc (length xs) ≡ capacity bits) × (push bits r x ≡ (r, false)))
        ⊎ ((suc (length xs) < capacity bits)
            × ((push bits r x).1 ≡ true)
            × Holds bits (push bits r x).0 (xs ++ x ∷ []))
  unfolding push
  push_refines bits r xs x v =
      let c = capacity bits in
      elim (Bool-cases (suc (length xs) == c)) [
        | inl t ↦ inl ((==_iff (suc (length xs)) c).0 t, rw (full_test bits r xs v, t) refl)
        | inr t ↦
            let free : suc (length xs) < c = ground (arith, v.room, t) in
            rw (full_test bits r xs v, t) (inr (free, refl, pushed_refines bits r xs x v free))
      ]

  pub popped_refines :
      (bits : ℕ) (r : SpscQueue A) (y : A) (ys : List A)
      → Holds bits r (y ∷ ys)
      → Holds bits (record r { head = next_index bits r.head }) ys
  popped_refines bits r y ys v =
      let c = capacity bits in
      let e = next_index_lem bits r.head v.in_range in
      record {
        in_range = rw e (ground (arith, v.in_range));
        room = omega (arith, v.room);
        tail_at = v.tail_at ∙ rw e (wrap_shift c r.head (length ys) v.in_range v.room);
        stored = rw e (Stored-next c r.head r.buffer ys v.in_range v.room v.stored.1);
      }

  -- A pop from a ring that holds the empty list gives nothing and changes nothing; from any other
  -- it gives the first item and leaves a ring that holds the others.
  pub pop_refines :
      (bits : ℕ) (r : SpscQueue A) (xs : List A)
      → Holds bits r xs
      → ((xs ≡ []) × (pop bits r ≡ (r, none)))
        ⊎ ((y : A) × (ys : List A) × (xs ≡ y ∷ ys)
            × ((pop bits r).1 ≡ some y)
            × Holds bits (pop bits r).0 ys)
  unfolding pop
  pop_refines bits r [] v = inl (refl, rw (empty_test bits r [] v) refl)
  pop_refines bits r (y ∷ ys) v =
      let t : (r.head == r.tail) ≡ false = empty_test bits r (y ∷ ys) v ∙ ground arith in
      let here : r.buffer r.head ≡ y = ap r.buffer (ground (arith, v.in_range)) ∙ v.stored.0 in
      rw t (inr (y, ys, refl, ap some here, popped_refines bits r y ys v))

  -- `empty` says whether the list that the ring holds is empty.
  pub empty_is_length_zero :
      (bits : ℕ) (r : SpscQueue A) (xs : List A) → Holds bits r xs → empty bits r ≡ (length xs == 0)
  unfolding empty
  empty_is_length_zero bits r xs v = empty_test bits r xs v
