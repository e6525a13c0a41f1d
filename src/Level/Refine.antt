-- ===== src/Level/Refine.antt =====
-- Each operation of a price level against the FIFO queue of its live ids.
use lob_engine.Prelude.{
  ℕ, ◌≡◌, refl, sym, ◌∙◌, ◌⊎◌, inl, inr, true, false, List, [], ◌∷◌, ◌++◌, ok, Fault, fault, arith,
  member, erase_first, erase_absent, ◌==◌, length, Distinct, sub64-of_le,
}
use lob_engine.Core.{OrderId, Quantity}
use lob_engine.Level.{
  PriceLevel, push_back, drain_cancelled, pop_front, remove, front, empty, is_nil, size, order_ids,
  reduced,
}
use lob_engine.Level.Fifo.{
  live, live_ids, leftover, IsLevel, live-snoc, leftover-snoc, live-remove, leftover-member,
  drain-live, drain-leftover, drain-Distinct, drain-IsDrained, drain-unmarked, IsDrained,
  member-live, length-live, keep_uncancelled-live,
}

-- `push_back` appends the id to the queue of live ids, and the level stays well formed.
pub push_back_refines :
    (l : PriceLevel) (id : OrderId) (q : Quantity)
    → IsLevel l
    → (live_ids (push_back l id q) ≡ live_ids l ++ id ∷ []) × IsLevel (push_back l id q)
unfolding push_back
push_back_refines l id q v = (
  live-snoc l.queue l.cancelled id v.accounted,
  record { accounted = leftover-snoc l.queue l.cancelled id v.accounted; distinct = v.distinct },
)

-- Cancelling an id that is live and not marked yet takes its first live entry out of the queue,
-- wherever that stands, and the level stays well formed.
pub remove_refines :
    (l : PriceLevel) (id : OrderId) (q : Quantity)
    → IsLevel l
    → member id l.cancelled ≡ false
    → member id (live_ids l) ≡ true
    → (live_ids (remove l id q) ≡ erase_first id (live_ids l)) × IsLevel (remove l id q)
unfolding remove
remove_refines l id q v fresh here = ground (
  arith,
  live-remove l.queue l.cancelled id fresh,
  member-live l.queue l.cancelled id here,
  leftover-member l.queue l.cancelled id,
)

-- Cancelling an id that is marked already leaves the whole queue of live ids as it was, so an
-- order that was cancelled, put back and cancelled again is still handed out.
pub remove_marked :
    (l : PriceLevel) (id : OrderId) (q : Quantity)
    → member id l.cancelled ≡ true
    → live_ids (remove l id q) ≡ live_ids l
unfolding remove
remove_marked l id q h = rw h

pub drain_cancelled-IsLevel :
    (l : PriceLevel)
    → IsLevel l
    → (live_ids (drain_cancelled l) ≡ live_ids l) × IsLevel (drain_cancelled l)
unfolding drain_cancelled
drain_cancelled-IsLevel l v = (
  drain-live l.queue l.cancelled,
  record {
    accounted = drain-leftover l.queue l.cancelled ∙ v.accounted;
    distinct = drain-Distinct l.queue l.cancelled v.distinct;
  },
)

-- The two ways a drained deque can look.
drained_cases :
    (q c : List ℕ)
    → IsDrained q c
    → leftover q c ≡ []
    → ((q ≡ []) × (live q c ≡ []))
      ⊎ ((x : ℕ) × (r : List ℕ) × (q ≡ x ∷ r)
          × (live q c ≡ x ∷ live r c)
          × (member x c ≡ false)
          × (leftover r c ≡ []))
drained_cases [] c d a = inl (refl, refl)
drained_cases (x ∷ r) c d a =
    inr (x, r, refl, ground (arith, erase_absent x c), d, ground (arith, erase_absent x c))

drained :
    (l : PriceLevel)
    → IsLevel l
    → ((drain_cancelled l).queue ≡ []) × (live_ids (drain_cancelled l) ≡ [])
      ⊎ ((x : ℕ) × (r : List ℕ) × ((drain_cancelled l).queue ≡ x ∷ r)
          × (live_ids (drain_cancelled l) ≡ x ∷ live r (drain_cancelled l).cancelled)
          × (member x (drain_cancelled l).cancelled ≡ false)
          × (leftover r (drain_cancelled l).cancelled ≡ []))
unfolding drain_cancelled
drained l v =
    drained_cases _ _ (drain-IsDrained l.queue l.cancelled)
      (drain-leftover l.queue l.cancelled ∙ v.accounted)

-- `front` on a level with no live order reads an empty deque; otherwise it returns the first live
-- id, which is then not marked as cancelled, and the level that it leaves is well formed and has
-- the same live ids.
pub front_refines :
    (l : PriceLevel)
    → IsLevel l
    → ((live_ids l ≡ []) × (front l ≡ fault Fault.empty_deque))
      ⊎ ((x : OrderId) × (xs : List OrderId) × (live_ids l ≡ x ∷ xs)
          × (front l ≡ ok (x, drain_cancelled l))
          × (live_ids (drain_cancelled l) ≡ x ∷ xs)
          × IsLevel (drain_cancelled l)
          × (member x (drain_cancelled l).cancelled ≡ false))
unfolding front drain_cancelled
front_refines l v = elim (drained l v) [
  | inl (e, n) ↦ inl (sym (drain-live l.queue l.cancelled) ∙ n, rw (e, front))
  | inr (x, r, e, n, m, _) ↦ inr (
    x,
    live r (drain_cancelled l).cancelled,
    sym (drain-live l.queue l.cancelled) ∙ n,
    rw (e, front),
    n,
    (drain_cancelled-IsLevel l v).1,
    m,
  )
]

-- `pop_front` on a level with no live order pops an empty deque; otherwise it takes the first live
-- id out of the queue and leaves the level well formed, at the same price, with the marks that a
-- drain leaves.
pub pop_front_refines :
    (l : PriceLevel) (q : Quantity)
    → IsLevel l
    → ((live_ids l ≡ []) × (pop_front l q ≡ fault Fault.empty_deque))
      ⊎ ((x : OrderId) × (xs : List OrderId) × (l' : PriceLevel) × (live_ids l ≡ x ∷ xs)
          × (pop_front l q ≡ ok l')
          × (live_ids l' ≡ xs)
          × IsLevel l'
          × (l'.price ≡ l.price)
          × (l'.cancelled ≡ (drain_cancelled l).cancelled))
unfolding pop_front drain_cancelled
pop_front_refines l q v = elim (drained l v) [
  | inl (e, n) ↦ inl (sym (drain-live l.queue l.cancelled) ∙ n, rw (e, pop_front))
  | inr (x, r, e, n, m, a) ↦ inr (
    x,
    live r (drain_cancelled l).cancelled,
    record (drain_cancelled l) { queue = r; total_volume = reduced l.total_volume q },
    sym (drain-live l.queue l.cancelled) ∙ n,
    rw (e, pop_front),
    refl,
    record { accounted = a; distinct = (drain_cancelled-IsLevel l v).1.distinct },
    refl,
    refl,
  )
]

-- `empty` says whether there is a live id, and keeps the live ids and the well-formedness.
pub empty_refines :
    (l : PriceLevel)
    → IsLevel l
    → ((empty l).0 ≡ is_nil (live_ids l))
      × (live_ids (empty l).1 ≡ live_ids l)
      × IsLevel (empty l).1
unfolding empty drain_cancelled
empty_refines l v = (
  elim (drained l v) [
    | inl (e, n) ↦ rw (e, ← drain-live l.queue l.cancelled, n)
    | inr (x, r, e, n, _, _) ↦ rw (e, ← drain-live l.queue l.cancelled, n)
  ],
  drain-live l.queue l.cancelled,
  (drain_cancelled-IsLevel l v).1,
)

-- `size`, which subtracts the marks from the entries, is the number of live ids.
pub size_refines : (l : PriceLevel) → IsLevel l → size l ≡ length (live_ids l)
unfolding size
size_refines l v =
    let n = length-live l.queue l.cancelled v.accounted v.distinct in
    sub64-of_le (length l.queue) (length l.cancelled) (omega (arith, n)) ∙ omega (arith, n)

-- Where no id stands twice in the deque, `order_ids` lists the live ids in their order.
pub order_ids_refines : (l : PriceLevel) → Distinct l.queue → order_ids l ≡ live_ids l
unfolding order_ids
order_ids_refines l d = keep_uncancelled-live l.queue l.cancelled d

-- No operation that drains marks an id.
pub drain_cancelled-unmarked :
    (l : PriceLevel) (id : OrderId)
    → member id l.cancelled ≡ false
    → member id (drain_cancelled l).cancelled ≡ false
unfolding drain_cancelled
drain_cancelled-unmarked l id h = drain-unmarked l.queue l.cancelled id h

pub empty-unmarked :
    (l : PriceLevel) (id : OrderId)
    → member id l.cancelled ≡ false
    → member id (empty l).1.cancelled ≡ false
unfolding empty drain_cancelled
empty-unmarked l id h = drain-unmarked l.queue l.cancelled id h

pub remove-unmarked :
    (l : PriceLevel) (id j : OrderId) (q : Quantity)
    → (id == j) ≡ false
    → member j l.cancelled ≡ false
    → member j (remove l id q).cancelled ≡ false
unfolding remove
remove-unmarked l id j q n h = ground arith

pub price-empty : (l : PriceLevel) → (empty l).1.price ≡ l.price
unfolding empty drain_cancelled
price-empty l = refl

pub price-remove : (l : PriceLevel) (id : OrderId) (q : Quantity) → (remove l id q).price ≡ l.price
unfolding remove
price-remove l id q = refl

pub price-drain_cancelled : (l : PriceLevel) → (drain_cancelled l).price ≡ l.price
unfolding drain_cancelled
price-drain_cancelled l = refl
