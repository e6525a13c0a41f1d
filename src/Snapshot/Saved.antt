-- ===== src/Snapshot/Saved.antt =====
-- The orders that `save` of src/snapshot/snapshot.cpp walks over, against the book.
use lob_engine.Prelude.{
  ◌≡◌, refl, ap, ◌∙◌, Bool, true, false, none, some, List, [], ◌∷◌, ◌++◌, ◌&&◌, eqb_ℤ, eqb_ℤ_refl,
  arith, Bool-cases, Option-cases, inl, inr, member, erase, member-erase, if◌then◌else◌, ==_refl,
  append-nil,
}
use lob_engine.Core.{OrderId, Price, Side, Order}
use lob_engine.Level.{PriceLevel, order_ids, keep_uncancelled}
use lob_engine.Level.Fifo.{live, live_ids}
use lob_engine.OrderedMap.{find}
use lob_engine.OrderedMap.Laws.{IsSorted, Each-find, before_ne}
use lob_engine.Book.{OrderBook, Levels, levels, before, find_id, find_order}
use lob_engine.Book.Sound.{view, before-IsOrder}
use lob_engine.Book.Coherent.{IsCoherent, view_at, same_side, lies_at}
use lob_engine.Book.Best.{held_order}
use lob_engine.Snapshot.{orders_of, orders_from_side, saved_orders}

-- Where no live id is marked, the ids that are not marked are the live ones.
keep_uncancelled-unmarked :
    (q c marked : List OrderId)
    → ((i : OrderId) → member i c ≡ true → member i marked ≡ true)
    → ((i : OrderId) → member i (live q c) ≡ true → member i marked ≡ false)
    → keep_uncancelled marked q ≡ live q c
keep_uncancelled-unmarked [] c marked h k = refl
keep_uncancelled-unmarked (x ∷ q) c marked h k =
    let smaller : (i : OrderId) → member i (erase x c) ≡ true → member i marked ≡ true =
      λ i m. h i (ground (arith, member-erase i x c, m)) in
    elim (Bool-cases (member x c)) [
      | inl t ↦
          rw (t, h x t)
            (keep_uncancelled-unmarked q (erase x c) marked smaller (λ i m. k i (rw t m)))
      | inr t ↦
          let plain : member x marked ≡ false = k x (rw t (rw (==_refl x) refl)) in
          rw (t, plain)
            (ap (◌∷◌ x) (
              keep_uncancelled-unmarked q (erase x c) marked smaller
                (λ i m. k i (rw t (ground (arith, m))))))
    ]

pub order_ids_unmarked :
    (l : PriceLevel)
    → ((i : OrderId) → member i (live_ids l) ≡ true → member i l.cancelled ≡ false)
    → order_ids l ≡ live_ids l
unfolding order_ids
order_ids_unmarked l h = keep_uncancelled-unmarked l.queue l.cancelled l.cancelled (λ i m. m) h

-- The ids of the orders of a list that lie at a side and a price, in order.
abbrev pub ids_at : Side → Price → List Order → List OrderId
ids_at t q [] = []
ids_at t q (o ∷ os) = let rest = ids_at t q os in if lies_at t q o then (o.id ∷ rest) else rest

pub ids_at-append :
    (t : Side) (q : Price) (xs ys : List Order)
    → ids_at t q (xs ++ ys) ≡ ids_at t q xs ++ ids_at t q ys
ids_at-append t q [] ys = refl
ids_at-append t q (o ∷ xs) ys = ground (arith, ids_at-append t q xs ys)

orders_of-held :
    (b : OrderBook) (x : OrderId) (ids : List OrderId) (o : Order)
    → find_id x b.id_map ≡ some o
    → orders_of b (x ∷ ids) ≡ o ∷ orders_of b ids
unfolding orders_of find_order
orders_of-held b x ids o held =
    let rest = orders_of b ids in ap (λ found. elim found [ none ↦ rest | some p ↦ p ∷ rest ]) held

-- One more order, whether it lies at the place or not.
ids_at-first :
    (t : Side) (q : Price) (o : Order) (os : List Order) (here : Bool)
    → lies_at t q o ≡ here
    → (x : OrderId) (ids : List OrderId) → o.id ≡ x
    → ids_at t q os ≡ (if here then ids else [])
    → ids_at t q (o ∷ os) ≡ (if here then (x ∷ ids) else [])
ids_at-first t q o os true e x ids i h = rw (ids_at, e, i, h) refl
ids_at-first t q o os false e x ids i h = rw (ids_at, e, h) refl

module _ (b : OrderBook) (v : IsCoherent b) where
  -- The orders of ids that are live at one place.
  ids_at-orders_of :
      (s : Side) (k : Price) (ids : List OrderId) (t : Side) (q : Price)
      → ((i : OrderId) → member i ids ≡ true → member i (view_at b s k) ≡ true)
      → ids_at t q (orders_of b ids) ≡ (if same_side s t && eqb_ℤ k q then ids else [])
  unfolding orders_of
  ids_at-orders_of s k [] t q h = ground arith
  ids_at-orders_of s k (x ∷ ids) t q h =
      let (o, held, id, side, price) = held_order b v s k x (h x (rw (==_refl x) refl)) in
      let rest = ids_at-orders_of s k ids t q (λ i m. h i (ground (arith, m))) in
      let there : lies_at t q o ≡ (same_side s t && eqb_ℤ k q) = rw (side, price) refl in
      ap (ids_at t q) (orders_of-held b x ids o held)
      ∙ ids_at-first t q o (orders_of b ids) (same_side s t && eqb_ℤ k q) there x ids id rest

  -- A level of the side lists its live ids.
  ids_at-level :
      (s : Side) (k : Price) (l : PriceLevel) (t : Side) (q : Price)
      → find k (levels s b) ≡ some l
      → ids_at t q (orders_of b (order_ids l))
        ≡ (if same_side s t && eqb_ℤ k q then live_ids l else [])
  ids_at-level s k l t q e =
      let here : view_at b s k ≡ live_ids l = rw e refl in
      let plain = order_ids_unmarked l (λ i m. rw e at (v.unmarked s k i (rw here m))) in
      rw plain (ids_at-orders_of s k (live_ids l) t q (λ i m. rw here m))

  ids_at-orders_from_side :
      (s : Side) (m : Levels) (t : Side) (q : Price)
      → IsSorted (before s) m
      → ((k : Price) (l : PriceLevel) → find k m ≡ some l → find k (levels s b) ≡ some l)
      → ids_at t q (orders_from_side b m) ≡ (if same_side s t then view m q else [])
  unfolding orders_from_side find
  ids_at-orders_from_side s [] t q sorted h = ground arith
  ids_at-orders_from_side s ((k, l) ∷ m) t q sorted h =
      let later : (j : Price) (w : PriceLevel) → find j m ≡ some w → eqb_ℤ k j ≡ false = λ j w e.
        before_ne (before s) (before-IsOrder s) k j
          (Each-find (λ j _. before s k j ≡ true) j m w sorted.0 e) in
      let rest = ids_at-orders_from_side s m t q sorted.1 (λ j w e. h j w (rw (later j w e) e)) in
      let first = ids_at-level s k l t q (h k l (rw (eqb_ℤ_refl k) refl)) in
      let alone : eqb_ℤ k q ≡ true → view m q ≡ [] = λ here. elim (Option-cases (find q m)) [
        | inl n ↦ rw n refl
        | inr (w, e) ↦ absurd (cc (later q w e, here))
      ] in
      rw (ids_at-append t q (orders_of b (order_ids l)) (orders_from_side b m), first, rest)
        (elim (Bool-cases (same_side s t)) [
          | inr n ↦ rw n refl
          | inl y ↦ elim (Bool-cases (eqb_ℤ k q)) [
            | inl here ↦ rw (y, here, alone here) (append-nil (live_ids l))
            | inr away ↦ rw (y, away) refl
          ]
        ])

  -- At each side and price, `save` walks over the live orders of a coherent book in their order.
  pub ids_at-saved_orders : (t : Side) (q : Price) → ids_at t q (saved_orders b) ≡ view_at b t q
  unfolding saved_orders
  ids_at-saved_orders Side.buy q =
      rw
        (
          ids_at-append Side.buy q (orders_from_side b b.bids) (orders_from_side b b.asks),
          ids_at-orders_from_side Side.buy b.bids Side.buy q (v.sound Side.buy).sorted (λ k l e. e),
          ids_at-orders_from_side Side.sell b.asks Side.buy q (v.sound Side.sell).sorted
              (λ k l e. e),
        )
        (append-nil (view b.bids q))
  ids_at-saved_orders Side.sell q =
      rw
        (
          ids_at-append Side.sell q (orders_from_side b b.bids) (orders_from_side b b.asks),
          ids_at-orders_from_side Side.buy b.bids Side.sell q (v.sound Side.buy).sorted
              (λ k l e. e),
          ids_at-orders_from_side Side.sell b.asks Side.sell q (v.sound Side.sell).sorted
              (λ k l e. e),
        )
        refl
