-- ===== src/Book/Sound.antt =====
-- One side of the book: sorted levels, each well formed, with a live order, under its own price.
-- `view` and `marks` read the live ids and the marked ids at a price.
use lob_engine.Prelude.{
  ◌≡◌, ◌≢◌, refl, subst, Option, none, some, List, [], ◌∷◌, ◌++◌, eqb_ℤ, eqb_ℤ_iff, if◌then◌else◌,
  arith, Bool-cases, Option-cases, inl, inr,
}
use lob_engine.Core.{OrderId, Price, Side, Order, visible_qty}
use lob_engine.Level.{PriceLevel, empty_level, push_back}
use lob_engine.Level.Fifo.{live_ids, IsLevel}
use lob_engine.Level.Refine.{push_back_refines}
use lob_engine.OrderedMap.{find, adjust, emplace}
use lob_engine.OrderedMap.Laws.{
  find-adjust, find-emplace, Each, IsSorted, IsOrder, Each-find, Each-adjust, adjust-IsSorted,
  emplace-IsSorted, or_else, Each-of_find,
}
use lob_engine.Book.{Levels, before}

abbrev pub ids_of : Option PriceLevel → List OrderId
ids_of none = []
ids_of (some l) = live_ids l

abbrev pub marks_of : Option PriceLevel → List OrderId
marks_of none = []
marks_of (some l) = l.cancelled

abbrev pub view : Levels → Price → List OrderId
view m p = ids_of (find p m)

abbrev pub marks : Levels → Price → List OrderId
marks m p = marks_of (find p m)

pub record LevelAt (k : Price) (l : PriceLevel) : Type 0 where
  pub well_formed : IsLevel l
  pub inhabited : live_ids l ≢ []
  pub priced : l.price ≡ k

pub record IsSound (s : Side) (m : Levels) : Type 0 where
  pub each : Each LevelAt m
  pub sorted : IsSorted (before s) m

pub before-IsOrder : (s : Side) → IsOrder (before s)
before-IsOrder Side.buy = record {
  transitive = λ a b c h k. ground arith;
  irreflexive = λ a. ground arith;
  total = λ a b h k. ground arith;
}
before-IsOrder Side.sell = record {
  transitive = λ a b c h k. ground arith;
  irreflexive = λ a. ground arith;
  total = λ a b h k. ground arith;
}

-- A level that stands in the book is well formed and has a live order.
pub find-LevelAt :
    {s : Side} (p : Price) (m : Levels) {l : PriceLevel}
    → IsSound s m
    → find p m ≡ some l
    → LevelAt p l
find-LevelAt p m {l} v e = Each-find LevelAt p m l v.each e

-- A change of the level at a price that keeps its live ids and its form.
pub adjust-IsSound :
    {s : Side} (p : Price) (f : PriceLevel → PriceLevel) (m : Levels)
    → IsSound s m
    → ((l : PriceLevel) → LevelAt p l → LevelAt p (f l))
    → IsSound s (adjust p f m)
adjust-IsSound {s} p f m v keep = record {
  each = Each-adjust LevelAt p f m v.each keep;
  sorted = adjust-IsSorted (before s) p f m v.sorted;
}

-- A sorted side whose every lookup finds a level in order is sound.
pub IsSound-of_find :
    (s : Side) (m : Levels)
    → IsSorted (before s) m
    → ((k : Price) (l : PriceLevel) → find k m ≡ some l → LevelAt k l)
    → IsSound s m
IsSound-of_find s m h f = record {
  each = Each-of_find (before s) (before-IsOrder s) LevelAt m h f;
  sorted = h;
}

pub nonempty_append : (xs : List OrderId) (a : OrderId) → xs ++ a ∷ [] ≢ []
nonempty_append [] a h = cc
nonempty_append (x ∷ xs) a h = cc

empty_level-IsLevel : (p : Price) → IsLevel (empty_level p)
empty_level-IsLevel p = record { accounted = refl; distinct = tt }

-- The side of the book after `insert_order`.
unfoldable pub inserted : Side → Order → Levels → Levels
inserted s o m =
    adjust o.price (λ l. push_back l o.id (visible_qty o))
      (emplace (before s) o.price (empty_level o.price) m)

module _ (s : Side) (o : Order) (m : Levels) (v : IsSound s m) where
  found : Price → PriceLevel
  found q = or_else (find q m) (empty_level q)

  found-IsLevel :
      (q : Price)
      → IsLevel (found q)
        × (live_ids (found q) ≡ view m q)
        × ((found q).cancelled ≡ marks m q)
        × ((found q).price ≡ q)
  unfolding found
  found-IsLevel q = elim (Option-cases (find q m)) [
    | inl e ↦ rw e (empty_level-IsLevel q, refl, refl, refl)
    | inr (l, e) ↦ let at = find-LevelAt q m v e in rw e (at.well_formed, refl, refl, at.priced)
  ]

  find-inserted :
      (q : Price)
      → find q (inserted s o m)
        ≡ (if eqb_ℤ o.price q then some (push_back (found q) o.id (visible_qty o)) else find q m)
  unfolding inserted found
  find-inserted q = elim (Bool-cases (eqb_ℤ o.price q)) [
    | inl t ↦
        let e = (eqb_ℤ_iff o.price q).0 t in
        rw (find-adjust o.price q _ _, find-emplace (before s) o.price q _ m, t, e)
    | inr t ↦ rw (find-adjust o.price q _ _, find-emplace (before s) o.price q _ m, t)
  ]

  pub view-inserted :
      (q : Price)
      → view (inserted s o m) q ≡ (if eqb_ℤ o.price q then view m q ++ o.id ∷ [] else view m q)
  view-inserted q =
      let (w, e, _, _) = found-IsLevel q in
      elim (Bool-cases (eqb_ℤ o.price q)) [
        | inl t ↦
            rw (find-inserted q, t) (rw ((push_back_refines (found q) o.id (visible_qty o) w).0, e))
        | inr t ↦ rw (find-inserted q, t)
      ]

  pub marks-inserted : (q : Price) → marks (inserted s o m) q ≡ marks m q
  unfolding push_back
  marks-inserted q = elim (Bool-cases (eqb_ℤ o.price q)) [
    | inl t ↦ rw (find-inserted q, t) (found-IsLevel q).2
    | inr t ↦ rw (find-inserted q, t)
  ]

  pushed-LevelAt : (q : Price) → LevelAt q (push_back (found q) o.id (visible_qty o))
  unfolding push_back
  pushed-LevelAt q =
      let (w, e, _, p) = found-IsLevel q in
      let (x, y) = push_back_refines (found q) o.id (visible_qty o) w in
      record { well_formed = y; inhabited = rw x (nonempty_append _ o.id); priced = p }

  pub inserted-IsSound : IsSound s (inserted s o m)
  unfolding inserted
  inserted-IsSound =
      IsSound-of_find s (inserted s o m)
        (adjust-IsSorted (before s) o.price _ _
          (emplace-IsSorted (before s) (before-IsOrder s) o.price _ m v.sorted))
        λ k l h. elim (Bool-cases (eqb_ℤ o.price k)) [
          | inl t ↦ subst (LevelAt k) (cc (h, rw t at (find-inserted k))) (pushed-LevelAt k)
          | inr t ↦ find-LevelAt k m v (cc (rw t at (find-inserted k), h))
        ]
