-- ===== src/Engine/Modify.antt =====
-- src/engine/matching_engine.cpp: what `process_modify` does to the engine.
use lob_engine.Prelude.{
  ◌≡◌, refl, sym, subst, Bool, true, false, ◌||◌, none, some, ==_refl, arith, Bool-cases,
  Option-cases, inl, inr, member, sub64,
}
use lob_engine.Core.{OrderId, Order, ModifyOrderEvent, is_resting}
use lob_engine.Book.{
  OrderBook, find_id, find_order, insert_order, cancel_order, update_order_quantity,
  reduce_level_volume,
}
use lob_engine.Book.IdMap.{find_id-id, find_id-erase_id}
use lob_engine.Book.Coherent.{
  IsCoherent, Unused, Agrees, Agrees-IsCoherent, Agrees-Unused, marks_at,
}
use lob_engine.Book.Insert.{insert_order-IsCoherent, insert_order-Unused}
use lob_engine.Book.Cancel.{cancel_order-IsCoherent, cancel_order-Unused, id_map-cancel_order}
use lob_engine.Book.Agree.{Agrees-trans, Agrees-id_map, Agrees-reduce_level_volume}
use lob_engine.Engine.State.{Engine}
use lob_engine.Engine.Submit.{
  process_modify, modify_book, modified, price_changed, qty_increased, qty_reduced,
}
use lob_engine.Engine.Settle.{used_ne}
use lob_engine.Engine.Valid.{Frame, Valid, Valid-book}

-- The order is taken out of the book and put back.
abbrev pub requeues : ModifyOrderEvent → Order → Bool
requeues m o = price_changed m o || qty_increased m o

-- What the book after a modify keeps.
abbrev KeepsBook : OrderBook → OrderBook → Type 0
KeepsBook b b' = IsCoherent b' × ((i : OrderId) → Unused i b → Unused i b')

module _ (b : OrderBook) (o : Order) (m : ModifyOrderEvent) (v : IsCoherent b)
    (same : o.id ≡ m.order_id) (held : find_id o.id b.id_map ≡ some o) where
  requeue_keeps :
      member o.id (marks_at (cancel_order b o.id).0 o.side (modified m o).price) ≡ false
      → KeepsBook b (insert_order (cancel_order b o.id).0 (modified m o))
  requeue_keeps clear =
      let c = cancel_order-IsCoherent b o v held in
      let absent : find_id o.id (cancel_order b o.id).0.id_map ≡ none =
        rw (id_map-cancel_order b o v held)
          (ground (arith, find_id-erase_id o.id o.id b.id_map, ==_refl o.id)) in
      (
        insert_order-IsCoherent (cancel_order b o.id).0 (modified m o) c absent clear,
        λ i u.
            let n = used_ne o i held u in
            insert_order-Unused (cancel_order b o.id).0 (modified m o) i c n
              (cancel_order-Unused b o v held i n u),
      )

  reduce_keeps : KeepsBook b (
      reduce_level_volume
        (update_order_quantity b o.id m.new_quantity)
        o.side
        o.price
        (sub64 o.quantity m.new_quantity))
  unfolding update_order_quantity
  reduce_keeps =
      let b1 = update_order_quantity b o.id m.new_quantity in
      let a1 : Agrees b b1 =
        Agrees-id_map b o.id (λ x. record x { quantity = m.new_quantity }) v (λ _ h. h)
          (λ _ _. (refl, refl)) in
      let a2 =
        Agrees-reduce_level_volume b1 o.side o.price (sub64 o.quantity m.new_quantity)
          (Agrees-IsCoherent a1 v) in
      let a = Agrees-trans a1 a2 in (Agrees-IsCoherent a v, λ i u. Agrees-Unused i a u)

  modify_keeps :
      (requeues m o ≡ true
        → member o.id (marks_at (cancel_order b o.id).0 o.side (modified m o).price) ≡ false)
      → KeepsBook b (modify_book b m o)
  unfolding modify_book
  modify_keeps clear = rw (← same) (elim (Bool-cases (price_changed m o || qty_increased m o)) [
    | inl t ↦ rw t (requeue_keeps (clear t))
    | inr t ↦ elim (Bool-cases (qty_reduced m o)) [
      | inl u ↦ rw (t, u) reduce_keeps
      | inr u ↦ rw (t, u) (v, λ i x. x)
    ]
  ])

-- A modify keeps a valid engine valid, whatever it finds, unless it takes a resting order out and
-- puts it back into a level that still has the order's id marked as cancelled. Nothing is asked of
-- the marks where the order is not found, does not rest, is only reduced, or stays as it is.
pub process_modify-Valid :
    (h : Frame) (e : Engine) (m : ModifyOrderEvent)
    → Valid h e
    → ((o : Order)
        → find_id m.order_id e.book.id_map ≡ some o
        → is_resting o ≡ true
        → requeues m o ≡ true
        → member o.id (marks_at (cancel_order e.book o.id).0 o.side (modified m o).price) ≡ false)
    → Valid h (process_modify e m).0
unfolding process_modify find_order
process_modify-Valid h e m v clear = elim (Option-cases (find_id m.order_id e.book.id_map)) [
  | inl n ↦ rw (n, process_modify) v
  | inr (o, n) ↦ elim (Bool-cases (is_resting o)) [
    | inr t ↦ rw (n, process_modify) (rw t v)
    | inl t ↦
        let same = find_id-id m.order_id e.book.id_map o n in
        let held : find_id o.id e.book.id_map ≡ some o =
          subst (λ i. find_id i e.book.id_map ≡ some o) (sym same) n in
        let (c, u) = modify_keeps e.book o m v.coherent same held (clear o n t) in
        rw (n, process_modify) (rw t (Valid-book e (modify_book e.book m o) v c u))
  ]
]
