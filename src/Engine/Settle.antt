-- ===== src/Engine/Settle.antt =====
-- What `execute_fill` does with the passive order, branch by branch.
use lob_engine.Prelude.{
  ◌+◌, ◌≤◌, ◌<◌, ◌≡◌, refl, ap, subst, ◌∙◌, inl, inr, false, ◌&&◌, some, List, ◌∷◌, ◌==◌, ==_iff,
  ==_refl, ltb, if◌then◌else◌, arith, ok, Bool-cases, Distinct,
}
use lob_engine.Core.{OrderId, Quantity, Order, OrderStatus, is_iceberg}
use lob_engine.Level.{PriceLevel}
use lob_engine.Level.Fifo.{live_ids}
use lob_engine.Level.Refine.{pop_front_refines, drain_cancelled-unmarked}
use lob_engine.Book.{
  OrderBook, levels, find_id, adjust_order, cancel_order, put_level, update_order_quantity,
  reduce_level_volume, get_level,
}
use lob_engine.Book.IdMap.{find_id-adjust_order}
use lob_engine.Book.Sound.{find-LevelAt}
use lob_engine.Book.Coherent.{
  IsCoherent, Unused, Agrees, Agrees-IsCoherent, Agrees-Unused, view_at, Shrinks, Agrees-Shrinks,
}
use lob_engine.Book.Agree.{
  Agrees-trans, Agrees-id_map, Agrees-put_level, Agrees-reduce_level_volume, id_map-put_level,
  id_map-reduced,
}
use lob_engine.Book.Cancel.{
  live_level, cancel_order-IsCoherent, cancel_order-Unused, id_map-cancel_order, other_member,
}
use lob_engine.Engine.Refill.{
  refilled_level, refilled, refilled-LevelAt, refilled-same, refilled-Distinct, cancelled-push_back,
  weight-refilled,
}
use lob_engine.Engine.Fill.{settle_passive, replenish_iceberg, new_peak}
use lob_engine.Engine.Weight.{weights, weights-adjust_order, weights-erase_found}

-- What is asked of the book that settling leaves.
pub record Settled (b : OrderBook) (p : Order) (b' : OrderBook) : Type 0 where
  pub coherent : IsCoherent b'
  pub unused : (i : OrderId) → Unused i b → Unused i b'
  pub shrinks : Shrinks b b'
  pub lighter : weights b'.id_map + (if p.quantity == 0 then 1 else 0) ≤ weights b.id_map

pub used_ne :
    {b : OrderBook} (p : Order) (i : OrderId)
    → find_id p.id b.id_map ≡ some p
    → Unused i b
    → (p.id == i) ≡ false
used_ne {b} p i h u = elim (Bool-cases (p.id == i)) [
  | inl e ↦
      let same : find_id i b.id_map ≡ some p =
        subst (λ x. find_id x b.id_map ≡ some p) ((==_iff p.id i).0 e) h in
      absurd (cc (same, u.absent))
  | inr e ↦ e
]

module _ (b : OrderBook) (p : Order) (q : Quantity) (v : IsCoherent b)
    (held : find_id p.id b.id_map ≡ some p) where
  -- A partial fill.
  partly : OrderBook
  partly = update_order_quantity (reduce_level_volume b p.side p.price q) p.id p.quantity

  partly-Settled : (p.quantity == 0) ≡ false → Settled b p partly
  unfolding partly update_order_quantity
  partly-Settled n =
      let f = λ (o : Order). record o { quantity = p.quantity } in
      let r = reduce_level_volume b p.side p.price q in
      let a = Agrees-reduce_level_volume b p.side p.price q v in
      let a' = Agrees-id_map r p.id f (Agrees-IsCoherent a v) (λ o h. h) (λ o h. (refl, refl)) in
      record {
        coherent = Agrees-IsCoherent (Agrees-trans a a') v;
        unused = λ i u. Agrees-Unused i (Agrees-trans a a') u;
        shrinks = Agrees-Shrinks (Agrees-trans a a');
        lighter =
            rw (n, id_map-reduced b p.side p.price q v)
              (omega (arith, weights-adjust_order p.id f b.id_map p held));
      }

  -- A full fill with nothing in reserve.
  gone : OrderBook
  gone =
      (cancel_order
        (record b {
          id_map = adjust_order p.id (λ o. record o { status = OrderStatus.filled }) b.id_map;
        })
        p.id).0

  gone-Settled : Settled b p gone
  unfolding gone
  gone-Settled =
      let f = λ (o : Order). record o { status = OrderStatus.filled } in
      let marked : OrderBook = record b { id_map = adjust_order p.id f b.id_map } in
      let a : Agrees b marked = Agrees-id_map b p.id f v (λ o h. h) (λ o h. (refl, refl)) in
      let held' : find_id p.id marked.id_map ≡ some (f p) =
        rw (find_id-adjust_order p.id p.id f b.id_map (λ o h. h), ==_refl p.id, held) in
      let v' = Agrees-IsCoherent a v in
      record {
        coherent = cancel_order-IsCoherent marked (f p) v' held';
        unused = λ i u.
            cancel_order-Unused marked (f p) v' held' i (used_ne p i held u) (Agrees-Unused i a u);
        shrinks = λ s k i h. Agrees-Shrinks a s k i (other_member marked (f p) v' held' s k i h).1;
        lighter = rw (id_map-cancel_order marked (f p) v' held') (
            ground (
              arith,
              weights-erase_found p.id marked.id_map (f p) held',
              weights-adjust_order p.id f b.id_map p held,
            ));
      }

module _ (b : OrderBook) (p : Order) (q : Quantity) (v : IsCoherent b)
    (held : find_id p.id b.id_map ≡ some p) (xs : List OrderId)
    (at_front : view_at b p.side p.price ≡ p.id ∷ xs) where
  -- The book that `replenish_iceberg` leaves once the level `l'` is written back.
  abbrev refilled_book : PriceLevel → OrderBook
  refilled_book l' =
      let b1 = put_level b p.side p.price l' in
      update_order_quantity (record b1 { id_map = adjust_order p.id (λ _. refilled p) b1.id_map })
        p.id (new_peak p)

  refilled_book-Settled :
      (l' : PriceLevel)
      → p.quantity ≡ 0
      → 0 < p.peak_qty
      → 0 < p.reserve_qty
      → Agrees b (put_level b p.side p.price l')
      → Settled b p (refilled_book l')
  unfolding update_order_quantity
  refilled_book-Settled l' z pk rs a =
      let b1 = put_level b p.side p.price l' in
      let same : b1.id_map ≡ b.id_map = id_map-put_level b p.side p.price l' in
      let held1 : find_id p.id b1.id_map ≡ some p = rw same held in
      let v1 = Agrees-IsCoherent a v in
      let f = λ (o : Order). record o { quantity = new_peak p } in
      let a2 =
        Agrees-id_map b1 p.id (λ _. refilled p) v1 (λ o h. refl)
          (λ o h. let e : p ≡ o = cc (held1, h) in (ap (λ x. x.side) e, ap (λ x. x.price) e)) in
      let b2 : OrderBook = record b1 { id_map = adjust_order p.id (λ _. refilled p) b1.id_map } in
      let held2 : find_id p.id b2.id_map ≡ some (refilled p) = rw (
        find_id-adjust_order p.id p.id (λ _. refilled p) b1.id_map (λ o h. refl),
        ==_refl p.id,
        held1,
      ) in
      let a3 = Agrees-id_map b2 p.id f (Agrees-IsCoherent a2 v1) (λ o h. h) (λ o h. (refl, refl)) in
      let all = Agrees-trans a (Agrees-trans a2 a3) in
      record {
        coherent = Agrees-IsCoherent all v;
        unused = λ i u. Agrees-Unused i all u;
        shrinks = Agrees-Shrinks all;
        lighter = rw z (
            omega (
              arith,
              weights-adjust_order p.id f b2.id_map (refilled p) held2,
              weights-adjust_order p.id (λ _. refilled p) b1.id_map p held1,
              ap weights same,
              weight-refilled p z pk rs,
            ));
      }

  -- The new peak comes out of the reserve, and the order goes behind the others of its level.
  replenished :
      p.quantity ≡ 0
      → 0 < p.peak_qty
      → 0 < p.reserve_qty
      → (b' : OrderBook) × (replenish_iceberg b p q ≡ ok b') × Settled b p b'
  unfolding replenish_iceberg get_level
  replenished z pk rs =
      let (l, here, _, fresh) = live_level b p.id p v held in
      let at = find-LevelAt p.price (levels p.side b) (v.sound p.side) here in
      let front : live_ids l ≡ p.id ∷ xs = rw here at at_front in
      elim (pop_front_refines l q at.well_formed) [
        | inl (n, _) ↦ absurd (cc (front, n))
        | inr (x, r, popped, e, out, rest, w, priced, kept) ↦
            let rest' : live_ids popped ≡ xs = rest ∙ cc (e, front) in
            let once : Distinct (live_ids l) = rw here at (v.distinct p.side p.price) in
            let l' = refilled_level popped p in
            (
              refilled_book l',
              rw (here, replenish_iceberg) (rw out),
              refilled_book-Settled l' z pk rs (
                  Agrees-put_level b p.side p.price l l' v here
                    (refilled-LevelAt l popped p xs at once front rest' w priced)
                    (refilled-same l popped p xs at once front rest' w priced)
                    (refilled-Distinct l popped p xs at once front rest' w priced)
                    λ i h.
                      rw (cancelled-push_back popped p.id (new_peak p), kept)
                        (drain_cancelled-unmarked l i h)),
            )
      ]

  -- In a coherent book, settling an order that stands at the front of its level runs through,
  -- keeps the book coherent and the unused ids unused, and lowers the weight if the order was
  -- filled.
  pub settled : (b' : OrderBook) × (settle_passive b p q ≡ ok b') × Settled b p b'
  unfolding settle_passive gone partly
  settled = elim (Bool-cases (p.quantity == 0)) [
    | inr n ↦ (partly b p q v held, rw n, partly-Settled b p q v held n)
    | inl z ↦ elim (Bool-cases (is_iceberg p && ltb 0 p.reserve_qty)) [
      | inr m ↦ (gone b p q v held, rw (z, m), gone-Settled b p q v held)
      | inl m ↦
          let (b', e, s) = replenished (ground arith) (ground arith) (ground arith) in
          (b', rw (z, m) e, s)
    ]
  ]
