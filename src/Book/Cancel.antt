-- ===== src/Book/Cancel.antt =====
-- `cancel_order` against the queues of the book and its invariant.
use lob_engine.Prelude.{
  ◌≡◌, sym, ap, subst, ◌∙◌, true, false, some, eqb_ℤ, eqb_ℤ_refl, if◌then◌else◌, arith, member,
  erase_first, Bool-cases, Option-cases, inl, inr, ◌==◌, ==_iff, erase_first-Distinct,
  member-erase_first,
}
use lob_engine.Core.{OrderId, Price, Side, Order}
use lob_engine.Level.{PriceLevel}
use lob_engine.OrderedMap.{find}
use lob_engine.Book.{OrderBook, levels, with_levels, find_id, cancel_order, cancel_in, erase_id}
use lob_engine.Book.IdMap.{find_id-erase_id}
use lob_engine.Book.Sound.{IsSound}
use lob_engine.Book.Removal.{cancel_in-IsSound, view-cancel_in, marks-cancel_in}
use lob_engine.Book.Coherent.{
  same_side, lies_at, rests_at, view_at, marks_at, IsCoherent, Unused, levels-with_levels,
  id_map-with_levels, same_side_eq, same_side_refl,
}
use lob_engine.Book.Insert.{levels-id_map}

-- The order that the id map holds is live in the level of its side and price.
pub live_level :
    (b : OrderBook) (id : OrderId) (o : Order)
    → IsCoherent b
    → find_id id b.id_map ≡ some o
    → (l : PriceLevel) × (find o.price (levels o.side b) ≡ some l)
      × (member id (view_at b o.side o.price) ≡ true)
      × (member id (marks_at b o.side o.price) ≡ false)
live_level b id o v h =
    let here : member id (view_at b o.side o.price) ≡ true =
      v.located o.side o.price id
      ∙ ap (rests_at o.side o.price) h
      ∙ (rw (same_side_refl o.side, eqb_ℤ_refl o.price)) in
    elim (Option-cases (find o.price (levels o.side b))) [
      | inl e ↦ absurd (cc (rw e at here))
      | inr (l, e) ↦ (l, e, here, v.unmarked o.side o.price id here)
    ]

module _ (b : OrderBook) (o : Order) (v : IsCoherent b)
    (held : find_id o.id b.id_map ≡ some o) where
  cancel_order_lem : cancel_order b o.id ≡ (
    with_levels o.side
        (record b { id_map = erase_id o.id b.id_map })
        (cancel_in o (levels o.side b)),
    true,
  )
  unfolding cancel_order
  cancel_order_lem = rw (held, cancel_order)

  levels-after :
      (t : Side)
      → levels t (cancel_order b o.id).0
        ≡ (if same_side o.side t then cancel_in o (levels o.side b) else levels t b)
  levels-after t =
      ap (λ r. levels t r.0) cancel_order_lem
      ∙ (rw (levels-with_levels o.side t, levels-id_map t b (erase_id o.id b.id_map)))

  pub id_map-cancel_order : (cancel_order b o.id).0.id_map ≡ erase_id o.id b.id_map
  id_map-cancel_order = rw cancel_order_lem (id_map-with_levels o.side _ _)

  -- In a coherent book, cancelling an order that the id map holds takes its id out of the queue of
  -- its side and price, and leaves every other queue as it was.
  pub view_at-cancel_order :
      (t : Side) (q : Price)
      → view_at (cancel_order b o.id).0 t q
        ≡ (if lies_at t q o then erase_first o.id (view_at b t q) else view_at b t q)
  view_at-cancel_order t q =
      let (l, e, here, fresh) = live_level b o.id o v held in
      elim (Bool-cases (same_side o.side t)) [
        | inl s ↦
            rw (levels-after t, s)
              (view-cancel_in o.side o (levels o.side b) (v.sound o.side) l e (rw e at fresh)
                  (rw e at here) q
                ∙ ap
                    (λ s.
                      if eqb_ℤ o.price q then erase_first o.id (view_at b s q) else view_at b s q)
                    (same_side_eq o.side t s))
        | inr s ↦ rw (levels-after t, s)
      ]

  marks_at-cancel_order :
      (t : Side) (q : Price) (j : OrderId)
      → (o.id == j) ≡ false
      → member j (marks_at b t q) ≡ false
      → member j (marks_at (cancel_order b o.id).0 t q) ≡ false
  marks_at-cancel_order t q j n h =
      let (l, e, here, fresh) = live_level b o.id o v held in
      elim (Bool-cases (same_side o.side t)) [
        | inl s ↦
            rw (levels-after t, s)
              (marks-cancel_in o.side o (levels o.side b) (v.sound o.side) l e (rw e at fresh)
                (rw e at here) q j n
                (subst (λ x. member j (marks_at b x q) ≡ false) (sym (same_side_eq o.side t s)) h))
        | inr s ↦ rw (levels-after t, s) h
      ]

  cancel_order-IsSound : (t : Side) → IsSound t (levels t (cancel_order b o.id).0)
  cancel_order-IsSound t =
      let (l, e, here, fresh) = live_level b o.id o v held in
      elim (Bool-cases (same_side o.side t)) [
        | inl s ↦
            rw (levels-after t, s)
              (subst (λ x. IsSound x (cancel_in o (levels o.side b))) (same_side_eq o.side t s)
                (cancel_in-IsSound o.side o (levels o.side b) (v.sound o.side) l e (rw e at fresh)
                  (rw e at here)))
        | inr s ↦ rw (levels-after t, s) (v.sound t)
      ]

  pub other_member :
      (t : Side) (q : Price) (id : OrderId)
      → member id (view_at (cancel_order b o.id).0 t q) ≡ true
      → ((o.id == id) ≡ false) × (member id (view_at b t q) ≡ true)
  other_member t q id h = ground (
    arith,
    view_at-cancel_order t q,
    member-erase_first id o.id (view_at b t q) (v.distinct t q),
    v.located t q id,
    held,
    ==_iff o.id id,
  )

  -- Cancelling an order that the book holds keeps the book coherent.
  pub cancel_order-IsCoherent : IsCoherent (cancel_order b o.id).0
  cancel_order-IsCoherent = record {
    sound = cancel_order-IsSound;
    located = λ t q id. ground (
      arith,
      view_at-cancel_order t q,
      id_map-cancel_order,
      find_id-erase_id o.id id b.id_map,
      v.located t q id,
      held,
      member-erase_first id o.id (view_at b t q) (v.distinct t q),
      ==_iff o.id id,
    );
    distinct = λ t q. elim (Bool-cases (lies_at t q o)) [
      | inl e ↦
          rw (view_at-cancel_order t q, e)
            (erase_first-Distinct o.id (view_at b t q) (v.distinct t q))
      | inr e ↦ rw (view_at-cancel_order t q, e) (v.distinct t q)
    ];
    unmarked = λ t q id h.
        let (n, m) = other_member t q id h in marks_at-cancel_order t q id n (v.unmarked t q id m);
  }

  pub cancel_order-Unused :
      (id : OrderId) → (o.id == id) ≡ false → Unused id b → Unused id (cancel_order b o.id).0
  cancel_order-Unused id n u = record {
    absent = ground (arith, id_map-cancel_order, find_id-erase_id o.id id b.id_map, u.absent);
    clear = λ t q. marks_at-cancel_order t q id n (u.clear t q);
  }
