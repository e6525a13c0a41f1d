-- ===== src/Book/Agree.antt =====
-- The operations of the book that change volumes and quantities, drain or reorder one queue.
use lob_engine.Prelude.{
  ◌≡◌, refl, ap, subst, ◌∙◌, true, false, ◌&&◌, Option, none, some, eqb_ℤ, eqb_ℤ_iff, if◌then◌else◌,
  arith, member, Bool-cases, Option-cases, inl, inr, ◌==◌, ==_iff, Distinct,
}
use mathlib.Core.Path.{subst₂}
use lob_engine.Core.{OrderId, Quantity, Price, Side, Order}
use lob_engine.Level.{PriceLevel, reduce_front_volume}
use lob_engine.Level.Fifo.{live_ids}
use lob_engine.OrderedMap.{find, adjust}
use lob_engine.OrderedMap.Laws.{find-adjust, map_option}
use lob_engine.Book.{OrderBook, levels, find_id, adjust_order, put_level, reduce_level_volume}
use lob_engine.Book.IdMap.{find_id-adjust_order}
use lob_engine.Book.Sound.{ids_of, marks_of, LevelAt, IsSound, adjust-IsSound}
use lob_engine.Book.Coherent.{
  same_side, view_at, marks_at, IsCoherent, Agrees, levels-with_levels, id_map-with_levels,
  same_side_eq,
}
use lob_engine.Book.Insert.{levels-id_map}

pub Agrees-trans : {b c d : OrderBook} → Agrees b c → Agrees c d → Agrees b d
Agrees-trans x y = record {
  sound = y.sound;
  members = λ s p i. y.members s p i ∙ x.members s p i;
  distinct = y.distinct;
  marked = λ s p i h. y.marked s p i (x.marked s p i h);
  rests = λ s p i. y.rests s p i ∙ x.rests s p i;
  absent = λ i h. y.absent i (x.absent i h);
}

-- A change of the id map that moves no order.
pub Agrees-id_map :
    (b : OrderBook) (i : OrderId) (f : Order → Order)
    → IsCoherent b
    → ((o : Order) → o.id ≡ i → (f o).id ≡ i)
    → ((o : Order) → find_id i b.id_map ≡ some o → ((f o).side ≡ o.side) × ((f o).price ≡ o.price))
    → Agrees b (record b { id_map = adjust_order i f b.id_map })
Agrees-id_map b i f v keep place = record {
  sound = λ s. rw (levels-id_map s b _) (v.sound s);
  members = λ s p j. rw (levels-id_map s b _);
  distinct = λ s p. rw (levels-id_map s b _) (v.distinct s p);
  marked = λ s p j h. rw (levels-id_map s b _) h;
  rests = λ s p j. elim (Bool-cases (i == j)) [
    | inl e ↦
        let ij = (==_iff i j).0 e in
        elim (Option-cases (find_id i b.id_map)) [
          | inl n ↦ rw (find_id-adjust_order i j f b.id_map keep, e, ← ij, n)
          | inr (o, n) ↦
              let (x, y) = place o n in
              rw (find_id-adjust_order i j f b.id_map keep, e, ← ij, n, x, y)
        ]
    | inr e ↦ rw (find_id-adjust_order i j f b.id_map keep, e)
  ];
  absent = λ j h. ground (arith, find_id-adjust_order i j f b.id_map keep);
}

pub levels-price :
    (t : Side) (b : OrderBook) (p : Price)
    → levels t (record b { last_trade_price = p }) ≡ levels t b
levels-price Side.buy b p = refl
levels-price Side.sell b p = refl

-- The last trade price is no part of the invariant.
pub Agrees-last_trade_price :
    (b : OrderBook) (p : Price) → IsCoherent b → Agrees b (record b { last_trade_price = p })
Agrees-last_trade_price b p v = record {
  sound = λ s. rw (levels-price s b p) (v.sound s);
  members = λ s q j. rw (levels-price s b p);
  distinct = λ s q. rw (levels-price s b p) (v.distinct s q);
  marked = λ s q j h. rw (levels-price s b p) h;
  rests = λ s q j. refl;
  absent = λ j h. h;
}

levels-put_level :
    (b : OrderBook) (s t : Side) (k : Price) (l : PriceLevel)
    → levels t (put_level b s k l)
      ≡ (if same_side s t then adjust k (λ _. l) (levels s b) else levels t b)
unfolding put_level
levels-put_level b s t k l = levels-with_levels s t b _

pub id_map-put_level :
    (b : OrderBook) (s : Side) (k : Price) (l : PriceLevel) → (put_level b s k l).id_map ≡ b.id_map
unfolding put_level
id_map-put_level b s k l = id_map-with_levels s b _

-- A level is written back in order, with the same live ids, in whatever order, and no new mark.
module _ (b : OrderBook) (s : Side) (k : Price) (l l' : PriceLevel) (v : IsCoherent b)
    (here : find k (levels s b) ≡ some l) (at : LevelAt k l')
    (same : (i : OrderId) → member i (live_ids l') ≡ member i (live_ids l))
    (once : Distinct (live_ids l'))
    (less : (i : OrderId) → member i l.cancelled ≡ false → member i l'.cancelled ≡ false) where
  pub find-put :
      (t : Side) (q : Price)
      → find q (levels t (put_level b s k l'))
        ≡ (if same_side s t && eqb_ℤ k q then some l' else find q (levels t b))
  find-put t q = elim (Bool-cases (same_side s t)) [
    | inl e ↦ elim (Bool-cases (eqb_ℤ k q)) [
      | inl x ↦
          let here' = subst (λ p. find p (levels s b) ≡ some l) ((eqb_ℤ_iff k q).0 x) here in
          rw (levels-put_level b s t k l', e, find-adjust k q (λ _. l') (levels s b), x, here')
      | inr x ↦
          rw (levels-put_level b s t k l', e, find-adjust k q (λ _. l') (levels s b), x)
            (ap (λ u. find q (levels u b)) (same_side_eq s t e))
    ]
    | inr e ↦ rw (levels-put_level b s t k l', e)
  ]

  here-at :
      (t : Side) (q : Price) → (same_side s t && eqb_ℤ k q) ≡ true → find q (levels t b) ≡ some l
  here-at t q e =
      subst₂ (λ u p. find p (levels u b) ≡ some l) (same_side_eq s t (ground arith))
        ((eqb_ℤ_iff k q).0 (ground arith)) here

  pub Agrees-put_level : Agrees b (put_level b s k l')
  Agrees-put_level = record {
    sound = λ t. elim (Bool-cases (same_side s t)) [
      | inl e ↦
          rw (levels-put_level b s t k l', e)
            (subst (λ u. IsSound u (adjust k (λ _. l') (levels s b))) (same_side_eq s t e)
              (adjust-IsSound k (λ _. l') (levels s b) (v.sound s) (λ _ _. at)))
      | inr e ↦ rw (levels-put_level b s t k l', e) (v.sound t)
    ];
    members = λ t q j. elim (Bool-cases (same_side s t && eqb_ℤ k q)) [
      | inl e ↦ rw (find-put t q, e, here-at t q e) (same j)
      | inr e ↦ rw (find-put t q, e)
    ];
    distinct = λ t q. elim (Bool-cases (same_side s t && eqb_ℤ k q)) [
      | inl e ↦ rw (find-put t q, e) once
      | inr e ↦ rw (find-put t q, e) (v.distinct t q)
    ];
    marked = λ t q j h. elim (Bool-cases (same_side s t && eqb_ℤ k q)) [
      | inl e ↦ rw (find-put t q, e) (less j (rw (here-at t q e) at h))
      | inr e ↦ rw (find-put t q, e) h
    ];
    rests = λ t q j. rw (id_map-put_level b s k l');
    absent = λ j h. rw (id_map-put_level b s k l') h;
  }

reduce_front_volume-LevelAt :
    (k : Price) (l : PriceLevel) (d : Quantity) → LevelAt k l → LevelAt k (reduce_front_volume l d)
unfolding reduce_front_volume
reduce_front_volume-LevelAt k l d v = record {
  well_formed = record { accounted = v.well_formed.accounted; distinct = v.well_formed.distinct };
  inhabited = v.inhabited;
  priced = v.priced;
}

ids_of-reduced :
    (d : Quantity) (x : Option PriceLevel)
    → (ids_of (map_option (λ l. reduce_front_volume l d) x) ≡ ids_of x)
      × (marks_of (map_option (λ l. reduce_front_volume l d) x) ≡ marks_of x)
unfolding reduce_front_volume
ids_of-reduced d none = (refl, refl)
ids_of-reduced d (some l) = (refl, refl)

module _ (b : OrderBook) (s : Side) (k : Price) (d : Quantity) (v : IsCoherent b) where
  levels-reduced :
      (t : Side)
      → levels t (reduce_level_volume b s k d) ≡ (
          if same_side s t
          then adjust k (λ l. reduce_front_volume l d) (levels s b)
          else levels t b)
  unfolding reduce_level_volume
  levels-reduced t = levels-with_levels s t b _

  pub id_map-reduced : (reduce_level_volume b s k d).id_map ≡ b.id_map
  unfolding reduce_level_volume
  id_map-reduced = id_map-with_levels s b _

  reduced_same :
      (t : Side) (q : Price)
      → (view_at (reduce_level_volume b s k d) t q ≡ view_at b t q)
        × (marks_at (reduce_level_volume b s k d) t q ≡ marks_at b t q)
  reduced_same t q = elim (Bool-cases (same_side s t)) [
    | inl e ↦
        let (x, y) = ids_of-reduced d (find q (levels s b)) in
        let st = same_side_eq s t e in
        elim (Bool-cases (eqb_ℤ k q)) [
          | inl w ↦
              rw
                (
                  levels-reduced t,
                  e,
                  find-adjust k q (λ l. reduce_front_volume l d) (levels s b),
                  w,
                )
                (x ∙ ap (λ u. view_at b u q) st, y ∙ ap (λ u. marks_at b u q) st)
          | inr w ↦
              rw
                (
                  levels-reduced t,
                  e,
                  find-adjust k q (λ l. reduce_front_volume l d) (levels s b),
                  w,
                )
                (ap (λ u. view_at b u q) st, ap (λ u. marks_at b u q) st)
        ]
    | inr e ↦ rw (levels-reduced t, e) (refl, refl)
  ]

  -- Less volume at a level moves no order.
  pub Agrees-reduce_level_volume : Agrees b (reduce_level_volume b s k d)
  Agrees-reduce_level_volume = record {
    sound = λ t. elim (Bool-cases (same_side s t)) [
      | inl e ↦
          rw (levels-reduced t, e)
            (subst (λ u. IsSound u (adjust k (λ l. reduce_front_volume l d) (levels s b)))
              (same_side_eq s t e)
              (adjust-IsSound k (λ l. reduce_front_volume l d) (levels s b) (v.sound s)
                (λ l. reduce_front_volume-LevelAt k l d)))
      | inr e ↦ rw (levels-reduced t, e) (v.sound t)
    ];
    members = λ t q j. rw (reduced_same t q).0;
    distinct = λ t q. rw (reduced_same t q).0 (v.distinct t q);
    marked = λ t q j h. rw (reduced_same t q).1 h;
    rests = λ t q j. rw id_map-reduced;
    absent = λ j h. rw id_map-reduced h;
  }
