-- ===== src/Book/Removal.antt =====
-- One side of the book when an order is cancelled in it.
use lob_engine.Prelude.{
  ◌≡◌, ◌≢◌, refl, sym, subst, ◌∙◌, true, false, some, List, [], ◌∷◌, eqb_ℤ, eqb_ℤ_iff,
  if◌then◌else◌, member, erase_first, Bool-cases, ◌⊎◌, inl, inr, ◌==◌,
}
use lob_engine.Core.{OrderId, Price, Side, Order, visible_qty}
use lob_engine.Level.{PriceLevel, remove, empty, is_nil}
use lob_engine.Level.Fifo.{live_ids, IsLevel}
use lob_engine.Level.Refine.{
  remove_refines, empty_refines, empty-unmarked, remove-unmarked, price-empty, price-remove,
}
use lob_engine.OrderedMap.{find, adjust, erase_key}
use lob_engine.OrderedMap.Laws.{find-adjust, find-erase_key, Each-erase_key, erase_key-IsSorted}
use lob_engine.Book.{Levels, before, cancel_in}
use lob_engine.Book.Sound.{view, marks, LevelAt, IsSound, find-LevelAt, adjust-IsSound}

is_nil-false : (xs : List OrderId) → is_nil xs ≡ false → xs ≢ []
is_nil-false [] h e = cc
is_nil-false (x ∷ xs) h e = cc

is_nil-true : (xs : List OrderId) → is_nil xs ≡ true → xs ≡ []
is_nil-true [] h = refl
is_nil-true (x ∷ xs) h = cc

module _ (s : Side) (o : Order) (m : Levels) (v : IsSound s m) where
  module _ (l : PriceLevel) (here : find o.price m ≡ some l)
      (unmarked : member o.id l.cancelled ≡ false) (resting : member o.id (live_ids l) ≡ true) where
    removed : PriceLevel
    removed = remove l o.id (visible_qty o)

    removed-lem : (live_ids removed ≡ erase_first o.id (live_ids l)) × IsLevel removed
    unfolding removed
    removed-lem =
        remove_refines l o.id (visible_qty o) (find-LevelAt o.price m v here).well_formed unmarked
          resting

    emptied-lem :
        ((empty removed).0 ≡ is_nil (erase_first o.id (live_ids l)))
        × (live_ids (empty removed).1 ≡ erase_first o.id (live_ids l))
        × IsLevel (empty removed).1
    emptied-lem =
        let (e, w) = removed-lem in
        let (x, y, z) = empty_refines removed w in (rw (← e) x, y ∙ e, z)

    left : PriceLevel
    left = (empty removed).1

    -- What `cancel_in` does to the side: the level goes when its last live order does.
    cancel_in-cases :
        ((cancel_in o m ≡ erase_key o.price m) × (erase_first o.id (live_ids l) ≡ []))
        ⊎ ((cancel_in o m ≡ adjust o.price (λ _. left) m) × LevelAt o.price left)
    unfolding cancel_in removed left
    cancel_in-cases =
        let (x, y, z) = emptied-lem in
        elim (Bool-cases (is_nil (erase_first o.id (live_ids l)))) [
          | inl t ↦ inl (rw (here, cancel_in) (rw (x ∙ t)), is_nil-true _ t)
          | inr t ↦ inr (
            rw (here, cancel_in) (rw (x ∙ t)),
            record {
              well_formed = z;
              inhabited = rw y (is_nil-false _ t);
              priced =
                  price-empty removed
                  ∙ price-remove l o.id (visible_qty o)
                  ∙ (find-LevelAt o.price m v here).priced;
            },
          )
        ]

    pub cancel_in-IsSound : IsSound s (cancel_in o m)
    cancel_in-IsSound = elim cancel_in-cases [
      | inl (e, _) ↦ rw e (record {
        each = Each-erase_key LevelAt o.price m v.each;
        sorted = erase_key-IsSorted (before s) o.price m v.sorted;
      })
      | inr (e, at) ↦ rw e (adjust-IsSound o.price (λ _. left) m v (λ _ _. at))
    ]

    pub view-cancel_in :
        (q : Price)
        → view (cancel_in o m) q
          ≡ (if eqb_ℤ o.price q then erase_first o.id (view m q) else view m q)
    unfolding left
    view-cancel_in q =
        let (_, y, _) = emptied-lem in
        elim (Bool-cases (eqb_ℤ o.price q)) [
          | inl t ↦
              let here' = subst (λ p. find p m ≡ some l) ((eqb_ℤ_iff o.price q).0 t) here in
              elim cancel_in-cases [
                | inl (e, n) ↦ rw (e, find-erase_key o.price q m, t, here') (sym n)
                | inr (e, _) ↦ rw (e, find-adjust o.price q (λ _. left) m, t, here') y
              ]
          | inr t ↦ elim cancel_in-cases [
            | inl (e, n) ↦ rw (e, find-erase_key o.price q m, t)
            | inr (e, _) ↦ rw (e, find-adjust o.price q (λ _. left) m, t)
          ]
        ]

    pub marks-cancel_in :
        (q : Price) (j : OrderId)
        → (o.id == j) ≡ false
        → member j (marks m q) ≡ false
        → member j (marks (cancel_in o m) q) ≡ false
    unfolding left removed
    marks-cancel_in q j n h = elim (Bool-cases (eqb_ℤ o.price q)) [
      | inl t ↦
          let here' = subst (λ p. find p m ≡ some l) ((eqb_ℤ_iff o.price q).0 t) here in
          elim cancel_in-cases [
            | inl (e, _) ↦ rw (e, find-erase_key o.price q m, t)
            | inr (e, _) ↦
                rw (e, find-adjust o.price q (λ _. left) m, t, here')
                  (empty-unmarked removed j
                    (remove-unmarked l o.id j (visible_qty o) n (rw here' at h)))
          ]
      | inr t ↦ elim cancel_in-cases [
        | inl (e, _) ↦ rw (e, find-erase_key o.price q m, t) h
        | inr (e, _) ↦ rw (e, find-adjust o.price q (λ _. left) m, t) h
      ]
    ]
