-- ===== src/Book/Uncrossed.antt =====
-- The two sides of the book against each other: the bids and the asks of a coherent book.
use lob_engine.Prelude.{
  ◌≡◌, refl, ap, subst, true, false, none, some, List, [], ◌∷◌, ltb_ℤ, eqb_ℤ, eqb_ℤ_iff, Bool-cases,
  Option-cases, inl, inr, member, ==_refl, ◌⊎◌,
}
use lob_engine.Core.{OrderId, Price, Side}
use lob_engine.Level.{PriceLevel}
use lob_engine.Level.Fifo.{live_ids}
use lob_engine.OrderedMap.{find, first}
use lob_engine.OrderedMap.Laws.{IsSorted, Each-find}
use lob_engine.Book.{
  empty_book, OrderBook, Levels, before, levels, best_level, best_bid, best_ask, key_of,
}
use lob_engine.Book.Sound.{before-IsOrder, view, find-LevelAt}
use lob_engine.Book.Coherent.{IsCoherent, Shrinks, view_at}
use lob_engine.Prelude.{eqb_ℤ_refl}

-- The level at the begin of a side is found under its key.
pub first-find :
    (m : Levels) (k : Price) (l : PriceLevel) → first m ≡ some (k, l) → find k m ≡ some l
unfolding find
first-find [] k l h = absurd (cc h)
first-find ((j, x) ∷ m) k l h =
    let e : ◌≡◌ {A = Price × PriceLevel} (j, x) (k, l) = cc h in
    rw (ap (λ y. y.0) e, eqb_ℤ_refl k) (ap (λ (y : Price × PriceLevel). some y.1) e)

-- Every live bid is below every live ask.
abbrev pub IsUncrossed : OrderBook → Type 0
IsUncrossed b =
    (p q : Price) (i j : OrderId)
    → member i (view_at b Side.buy p) ≡ true
    → member j (view_at b Side.sell q) ≡ true
    → ltb_ℤ p q ≡ true

pub empty-IsUncrossed : IsUncrossed empty_book
unfolding find
empty-IsUncrossed p q i j x y = absurd (cc x)

pub Shrinks-IsUncrossed : (b b' : OrderBook) → Shrinks b b' → IsUncrossed b → IsUncrossed b'
Shrinks-IsUncrossed b b' s u p q i j x y = u p q i j (s Side.buy p i x) (s Side.sell q j y)

-- No key of a sorted side comes before the first.
first_key :
    (s : Side) (m : Levels) (k q : Price) (l l' : PriceLevel)
    → IsSorted (before s) m
    → first m ≡ some (k, l)
    → find q m ≡ some l'
    → before s q k ≡ false
unfolding find
first_key s [] k q l l' v f h = absurd (cc f)
first_key s ((j, x) ∷ m) k q l l' v f h =
    let o = before-IsOrder s in
    let same : j ≡ k = cc f in
    subst (λ i. before s q i ≡ false) same
      (elim (Bool-cases (eqb_ℤ j q)) [
        | inl t ↦ subst (λ i. before s i j ≡ false) ((eqb_ℤ_iff j q).0 t) (o.irreflexive j)
        | inr t ↦
            let after : before s j q ≡ true =
              Each-find (λ i _. before s j i ≡ true) q m l' v.0 (rw t at h) in
            elim (Bool-cases (before s q j)) [
              | inl back ↦ absurd (cc (o.transitive q j q back after, o.irreflexive q))
              | inr n ↦ n
            ]
      ])

-- No live order of a side is better than the best level of the side.
pub best_price :
    (b : OrderBook) (s : Side) (k q : Price) (l : PriceLevel) (j : OrderId)
    → IsCoherent b
    → best_level s b ≡ some (k, l)
    → member j (view_at b s q) ≡ true
    → before s q k ≡ false
unfolding best_level
best_price b s k q l j v best h = elim (Option-cases (find q (levels s b))) [
  | inl n ↦ absurd (cc (rw n at h))
  | inr (l', n) ↦ first_key s (levels s b) k q l l' (v.sound s).sorted best n
]

pub none_live :
    (m : Levels) (q : Price) (j : OrderId) → first m ≡ none → member j (view m q) ≡ false
unfolding find
none_live [] q j h = refl
none_live (x ∷ m) q j h = absurd (cc h)

-- The best bid, if there is one, is below the best ask, if there is one.
abbrev pub BestsApart : OrderBook → Type 0
BestsApart b = (p q : Price) → best_bid b ≡ some p → best_ask b ≡ some q → ltb_ℤ p q ≡ true

list_cases : {A : Type 0} (xs : List A) → (xs ≡ []) ⊎ ((y : A) × (ys : List A) × (xs ≡ y ∷ ys))
list_cases [] = inl refl
list_cases (x ∷ xs) = inr (x, xs, refl)

-- The first price of a side has a live order.
first_live :
    (b : OrderBook) (s : Side) (p : Price)
    → IsCoherent b
    → (l : PriceLevel) × (first (levels s b) ≡ some (p, l))
    → (i : OrderId) × (member i (view_at b s p) ≡ true)
first_live b s p v (l, f) =
    let here = first-find (levels s b) p l f in
    let at = find-LevelAt p (levels s b) (v.sound s) here in
    elim (list_cases (live_ids l)) [
      | inl n ↦ absurd (at.inhabited n)
      | inr (i, is, n) ↦ (i, rw (here, n) (rw (==_refl i) refl))
    ]

first_of_key :
    (m : Levels) (p : Price)
    → key_of (first m) ≡ some p
    → (l : PriceLevel) × (first m ≡ some (p, l))
first_of_key [] p h = absurd (cc h)
first_of_key ((k, l) ∷ m) p h = let same : k ≡ p = cc h in (l, ap (λ x. some (x, l)) same)

pub IsUncrossed-BestsApart : {b : OrderBook} → IsCoherent b → IsUncrossed b → BestsApart b
unfolding best_bid best_ask
IsUncrossed-BestsApart {b} v u p q x y =
    let (i, live) = first_live b Side.buy p v (first_of_key b.bids p x) in
    let (j, live') = first_live b Side.sell q v (first_of_key b.asks q y) in u p q i j live live'
