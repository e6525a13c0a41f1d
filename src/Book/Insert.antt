-- ===== src/Book/Insert.antt =====
-- `insert_order` against the queues of the book and its invariant.
use lob_engine.Prelude.{
  ◌≡◌, refl, sym, ap, subst, ◌∙◌, true, false, none, List, [], ◌∷◌, ◌++◌, eqb_ℤ, eqb_ℤ_iff,
  if◌then◌else◌, arith, member, Bool-cases, inl, inr, ◌==◌, ==_iff, append-Distinct, member-append,
}
use lob_engine.Core.{OrderId, Price, Side, Order}
use lob_engine.Book.{OrderBook, levels, find_id, insert_order, store}
use lob_engine.Book.IdMap.{find_id-store}
use lob_engine.Book.Sound.{IsSound, inserted, inserted-IsSound, view-inserted, marks-inserted}
use lob_engine.Book.Coherent.{
  same_side, lies_at, view_at, marks_at, IsCoherent, Unused, absent_view, levels-with_levels,
  id_map-with_levels, last_trade_price-with_levels, same_side_eq,
}

pub levels-id_map :
    (t : Side) (b : OrderBook) (os : List Order) → levels t (record b { id_map = os }) ≡ levels t b
levels-id_map Side.buy b os = refl
levels-id_map Side.sell b os = refl

levels-insert_order :
    (b : OrderBook) (o : Order) (t : Side)
    → levels t (insert_order b o)
      ≡ (if same_side o.side t then inserted o.side o (levels o.side b) else levels t b)
unfolding insert_order inserted
levels-insert_order b o t = rw (levels-with_levels o.side t, levels-id_map t b (store o b.id_map))

pub id_map-insert_order : (b : OrderBook) (o : Order) → (insert_order b o).id_map ≡ store o b.id_map
unfolding insert_order
id_map-insert_order b o = id_map-with_levels o.side _ _

pub last_trade_price-insert_order :
    (b : OrderBook) (o : Order) → (insert_order b o).last_trade_price ≡ b.last_trade_price
unfolding insert_order
last_trade_price-insert_order b o = last_trade_price-with_levels o.side _ _

-- In a coherent book, `insert_order` puts the order's id at the back of the queue of its side and
-- price, and leaves every other queue as it was.
pub view_at-insert_order :
    (b : OrderBook) (o : Order) (t : Side) (q : Price)
    → IsCoherent b
    → view_at (insert_order b o) t q
      ≡ (if lies_at t q o then view_at b t q ++ o.id ∷ [] else view_at b t q)
view_at-insert_order b o t q v = elim (Bool-cases (same_side o.side t)) [
  | inl e ↦
      rw (levels-insert_order b o t, e)
        (view-inserted o.side o (levels o.side b) (v.sound o.side) q
          ∙ ap (λ s. if eqb_ℤ o.price q then view_at b s q ++ o.id ∷ [] else view_at b s q)
              (same_side_eq o.side t e))
  | inr e ↦ rw (levels-insert_order b o t, e)
]

pub marks_at-insert_order :
    (b : OrderBook) (o : Order) (t : Side) (q : Price)
    → IsCoherent b
    → marks_at (insert_order b o) t q ≡ marks_at b t q
marks_at-insert_order b o t q v = elim (Bool-cases (same_side o.side t)) [
  | inl e ↦
      rw (levels-insert_order b o t, e)
        (marks-inserted o.side o (levels o.side b) (v.sound o.side) q
          ∙ ap (λ s. marks_at b s q) (same_side_eq o.side t e))
  | inr e ↦ rw (levels-insert_order b o t, e)
]

insert_order-IsSound :
    (b : OrderBook) (o : Order) (t : Side) → IsCoherent b → IsSound t (levels t (insert_order b o))
insert_order-IsSound b o t v = elim (Bool-cases (same_side o.side t)) [
  | inl e ↦
      rw (levels-insert_order b o t, e)
        (subst (λ s. IsSound s (inserted o.side o (levels o.side b))) (same_side_eq o.side t e)
          (inserted-IsSound o.side o (levels o.side b) (v.sound o.side)))
  | inr e ↦ rw (levels-insert_order b o t, e) (v.sound t)
]

old_member :
    (b : OrderBook) (o : Order) (t : Side) (q : Price) (id : OrderId)
    → IsCoherent b
    → (o.id == id) ≡ false
    → member id (view_at (insert_order b o) t q) ≡ true
    → member id (view_at b t q) ≡ true
old_member b o t q id v n h =
    ground (arith, view_at-insert_order b o t q v, member-append id (view_at b t q) (o.id ∷ []))

-- The inserted order is live only where it was put.
own_mark :
    (b : OrderBook) (o : Order) (t : Side) (q : Price)
    → IsCoherent b
    → member o.id (marks_at b o.side o.price) ≡ false
    → member o.id (view_at b t q) ≡ false
    → member o.id (view_at (insert_order b o) t q) ≡ true
    → member o.id (marks_at b t q) ≡ false
own_mark b o t q v clear n h = elim (Bool-cases (lies_at t q o)) [
  | inl e ↦
      let s : o.side ≡ t = same_side_eq o.side t (ground arith) in
      let p : o.price ≡ q = (eqb_ℤ_iff o.price q).0 (ground arith) in rw (← s, ← p) clear
  | inr e ↦ absurd (cc (n, h, rw e at (view_at-insert_order b o t q v)))
]

-- `insert_order` of an order keeps the book coherent, if the id map does not hold its id and the
-- level that it goes to does not have the id marked as cancelled; other levels may.
pub insert_order-IsCoherent :
    (b : OrderBook) (o : Order)
    → IsCoherent b
    → find_id o.id b.id_map ≡ none
    → member o.id (marks_at b o.side o.price) ≡ false
    → IsCoherent (insert_order b o)
insert_order-IsCoherent b o v absent clear =
    let nowhere = λ (t : Side) (q : Price). absent_view o.id t q v absent in
    record {
      sound = λ t. insert_order-IsSound b o t v;
      located = λ t q id. ground (
        arith,
        view_at-insert_order b o t q v,
        id_map-insert_order b o,
        find_id-store o id b.id_map,
        v.located t q id,
        absent,
        member-append id (view_at b t q) (o.id ∷ []),
        ==_iff o.id id,
      );
      distinct = λ t q. elim (Bool-cases (lies_at t q o)) [
        | inl e ↦
            rw (view_at-insert_order b o t q v, e)
              (append-Distinct o.id (view_at b t q) (v.distinct t q) (nowhere t q))
        | inr e ↦ rw (view_at-insert_order b o t q v, e) (v.distinct t q)
      ];
      unmarked = λ t q id h. rw (marks_at-insert_order b o t q v) (elim (Bool-cases (o.id == id)) [
        | inl e ↦
            subst (λ i. member i (marks_at b t q) ≡ false) ((==_iff o.id id).0 e)
              (own_mark b o t q v clear (nowhere t q) (
                subst (λ i. member i (view_at (insert_order b o) t q) ≡ true)
                  (sym ((==_iff o.id id).0 e)) h))
        | inr e ↦ v.unmarked t q id (old_member b o t q id v e h)
      ]);
    }

-- Another unused id stays unused.
pub insert_order-Unused :
    (b : OrderBook) (o : Order) (id : OrderId)
    → IsCoherent b
    → (o.id == id) ≡ false
    → Unused id b
    → Unused id (insert_order b o)
insert_order-Unused b o id v n u = record {
  absent = ground (arith, id_map-insert_order b o, find_id-store o id b.id_map, u.absent);
  clear = λ t q. rw (marks_at-insert_order b o t q v) (u.clear t q);
}
