-- ===== src/Snapshot/Held.antt =====
-- The orders that `save` of src/snapshot/snapshot.cpp writes are those of the id map, each once.
use lob_engine.Prelude.{
  ℕ, suc, ◌≡◌, refl, sym, ap, ◌∙◌, true, some, List, [], ◌∷◌, arith, Bool-cases, Option-cases, inl,
  inr, member, Distinct, erase, member-erase, erase-Distinct, length-erase, length, All, All-append,
  ==_refl, ==_iff, eqb_ℤ_refl, ◌==◌,
}
use lob_engine.Core.{OrderId, Price, Side, Order}
use lob_engine.Level.{order_ids}
use lob_engine.Book.{OrderBook, Levels, find_id, find_order, order_count}
use lob_engine.Book.IdMap.{find_id-id}
use lob_engine.Book.Coherent.{IsCoherent, view_at, lies_at, rests_at, same_side_refl}
use lob_engine.Snapshot.{orders_of, orders_from_side, saved_orders}
use lob_engine.Snapshot.Saved.{ids_at, ids_at-saved_orders}

abbrev pub ids : List Order → List OrderId
ids [] = []
ids (o ∷ os) = o.id ∷ ids os

-- Every order of a list is the one that the id map has for its id.
abbrev pub AllHeld : List Order → List Order → Type 0
AllHeld id_map os = All (λ o. find_id o.id id_map ≡ some o) os

find_id-held :
    (id_map os : List Order) (x : OrderId) (o : Order)
    → AllHeld id_map os
    → find_id x os ≡ some o
    → find_id x id_map ≡ some o
unfolding find_id
find_id-held id_map [] x o h e = cc
find_id-held id_map (p ∷ os) x o h e = elim (Bool-cases (p.id == x)) [
  | inl t ↦ ap (λ i. find_id i id_map) (sym ((==_iff p.id x).0 t)) ∙ h.0 ∙ (rw t at e)
  | inr t ↦ find_id-held id_map os x o h.1 (rw t at e)
]

pub found_member :
    (x : OrderId) (os : List Order) (o : Order) → find_id x os ≡ some o → member x (ids os) ≡ true
unfolding find_id
found_member x [] o e = cc
found_member x (p ∷ os) o e = ground (arith, found_member x os o)

member_found :
    (x : OrderId) (os : List Order)
    → member x (ids os) ≡ true
    → (o : Order) × (find_id x os ≡ some o)
unfolding find_id
member_found x [] m = absurd (cc m)
member_found x (p ∷ os) m = elim (Bool-cases (p.id == x)) [
  | inl t ↦ (p, rw t refl)
  | inr t ↦ let (o, e) = member_found x os (ground (arith, m, t)) in (o, rw t e)
]

at_member :
    (t : Side) (q : Price) (x : OrderId) (os : List Order)
    → member x (ids_at t q os) ≡ true
    → member x (ids os) ≡ true
at_member t q x [] m = m
at_member t q x (o ∷ os) m = ground (arith, at_member t q x os)

found_at :
    (t : Side) (q : Price) (x : OrderId) (os : List Order) (o : Order)
    → find_id x os ≡ some o
    → lies_at t q o ≡ true
    → member x (ids_at t q os) ≡ true
unfolding find_id
found_at t q x [] o e l = cc
found_at t q x (p ∷ os) o e l = elim (Bool-cases (p.id == x)) [
  | inl y ↦
      let same : p ≡ o = cc (rw y at e) in
      let here : lies_at t q p ≡ true = ap (lies_at t q) same ∙ l in
      let there : p.id ≡ x = (==_iff p.id x).0 y in rw (ids_at, here, there, ==_refl x) refl
  | inr n ↦
      let rest = found_at t q x os o (rw n at e) l in
      elim (Bool-cases (lies_at t q p)) [
        | inl here ↦ rw (ids_at, here, rest) (ground arith)
        | inr away ↦ rw (ids_at, away) rest
      ]
]

lies_at_home : (o : Order) → lies_at o.side o.price o ≡ true
lies_at_home o = rw (same_side_refl o.side, eqb_ℤ_refl o.price) refl

-- Lists of distinct numbers with the same members are equally long.
same_members-length :
    (xs ys : List ℕ)
    → Distinct xs
    → Distinct ys
    → ((i : ℕ) → member i xs ≡ member i ys)
    → length xs ≡ length ys
same_members-length [] [] d e same = refl
same_members-length [] (y ∷ ys) d e same = absurd (cc (same y, ==_refl y))
same_members-length (x ∷ xs) ys d e same =
    let here : member x ys ≡ true = sym (same x) ∙ rw (==_refl x) refl in
    omega (
      arith,
      rw here at (length-erase x ys e),
      same_members-length xs (erase x ys) d.1 (erase-Distinct x ys e)
          (λ i. ground (arith, member-erase i x ys, same i, d.0)),
    )

ids-length : (os : List Order) → length (ids os) ≡ length os
ids-length [] = refl
ids-length (o ∷ os) = ap suc (ids-length os)

same_found :
    (x : OrderId) (os ps : List Order)
    → find_id x os ≡ find_id x ps
    → member x (ids os) ≡ member x (ids ps)
same_found x os ps e = elim (Bool-cases (member x (ids os))) [
  | inl m ↦ let (o, f) = member_found x os m in m ∙ sym (found_member x ps o (sym e ∙ f))
  | inr n ↦ elim (Bool-cases (member x (ids ps))) [
    | inr n' ↦ n ∙ sym n'
    | inl m ↦ let (o, f) = member_found x ps m in absurd (cc (found_member x os o (e ∙ f), n))
  ]
]

-- Held orders whose ids are distinct at each place have distinct ids.
ids-Distinct :
    (id_map os : List Order)
    → AllHeld id_map os
    → ((t : Side) (q : Price) → Distinct (ids_at t q os))
    → Distinct (ids os)
ids-Distinct id_map [] h d = tt
ids-Distinct id_map (o ∷ os) h d = (
  elim (Bool-cases (member o.id (ids os))) [
    | inr n ↦ n
    | inl m ↦
        let (o', e) = member_found o.id os m in
        let same : o' ≡ o = cc (find_id-held id_map os o.id o' h.1 e, h.0) in
        let twice =
          found_at o.side o.price o.id os o' e
            (ap (lies_at o.side o.price) same ∙ lies_at_home o) in
        let once = rw (ids_at, lies_at_home o) at (d o.side o.price) in absurd (cc (twice, once.0))
  ],
  ids-Distinct id_map os h.1 (λ t q. elim (Bool-cases (lies_at t q o)) [
    | inl here ↦ (rw (ids_at, here) at (d t q)).1
    | inr away ↦ rw (ids_at, away) at (d t q)
  ]),
)

module _ (b : OrderBook) where
  orders_of-AllHeld : (xs : List OrderId) → AllHeld b.id_map (orders_of b xs)
  unfolding orders_of find_order
  orders_of-AllHeld [] = tt
  orders_of-AllHeld (x ∷ xs) = elim (Option-cases (find_id x b.id_map)) [
    | inl n ↦ rw (orders_of, n) (orders_of-AllHeld xs)
    | inr (o, e) ↦
        let own : find_id o.id b.id_map ≡ some o =
          ap (λ i. find_id i b.id_map) (find_id-id x b.id_map o e) ∙ e in
        rw (orders_of, e) (own, orders_of-AllHeld xs)
  ]

  orders_from_side-AllHeld : (m : Levels) → AllHeld b.id_map (orders_from_side b m)
  unfolding orders_from_side
  orders_from_side-AllHeld [] = tt
  orders_from_side-AllHeld ((k, l) ∷ m) =
      All-append _ (orders_of b (order_ids l)) (orders_from_side b m)
        (orders_of-AllHeld (order_ids l)) (orders_from_side-AllHeld m)

  saved_orders-AllHeld : AllHeld b.id_map (saved_orders b)
  unfolding saved_orders
  saved_orders-AllHeld =
      All-append _ (orders_from_side b b.bids) (orders_from_side b b.asks)
        (orders_from_side-AllHeld b.bids) (orders_from_side-AllHeld b.asks)

  module _ (v : IsCoherent b) where
    pub saved_ids-Distinct : Distinct (ids (saved_orders b))
    saved_ids-Distinct =
        ids-Distinct b.id_map (saved_orders b) saved_orders-AllHeld
          (λ t q. rw (ids_at-saved_orders b v t q) (v.distinct t q))

    -- The saved orders have for each id what the id map has.
    pub find_id-saved_orders : (x : OrderId) → find_id x (saved_orders b) ≡ find_id x b.id_map
    find_id-saved_orders x = elim (Option-cases (find_id x b.id_map)) [
      | inl n ↦ elim (Option-cases (find_id x (saved_orders b))) [
        | inl n' ↦ n' ∙ sym n
        | inr (o, e) ↦
            absurd (cc (find_id-held b.id_map (saved_orders b) x o saved_orders-AllHeld e, n))
      ]
      | inr (o, e) ↦
          let there : member x (view_at b o.side o.price) ≡ true =
            v.located o.side o.price x ∙ ap (rests_at o.side o.price) e ∙ lies_at_home o in
          let among =
            at_member o.side o.price x (saved_orders b)
              (ap (member x) (ids_at-saved_orders b v o.side o.price) ∙ there) in
          let (o', e') = member_found x (saved_orders b) among in
          e' ∙ sym (find_id-held b.id_map (saved_orders b) x o' saved_orders-AllHeld e')
    ]

    -- The count that `save` writes is the number of orders that it writes.
    pub order_count-saved_orders : Distinct (ids b.id_map) → order_count b ≡ length (saved_orders b)
    unfolding order_count
    order_count-saved_orders d =
        sym (ids-length b.id_map)
        ∙ same_members-length (ids b.id_map) (ids (saved_orders b)) d saved_ids-Distinct
            (λ x. same_found x b.id_map (saved_orders b) (sym (find_id-saved_orders x)))
        ∙ ids-length (saved_orders b)
