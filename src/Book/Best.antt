-- ===== src/Book/Best.antt =====
-- The best level of a side, as `front` of src/book/price_level.hpp leaves it.
use lob_engine.Prelude.{
  ◌≡◌, sym, ap, subst, ◌∙◌, true, some, List, ◌∷◌, arith, Option-cases, inl, inr, ok, eqb_ℤ_iff,
  eqb_ℤ_refl, member, Distinct,
}
use lob_engine.Core.{OrderId, Order, Price, Side}
use lob_engine.Level.{PriceLevel, front, drain_cancelled}
use lob_engine.Level.Fifo.{live_ids}
use lob_engine.Level.Refine.{front_refines, drain_cancelled-unmarked, price-drain_cancelled}
use lob_engine.Book.{OrderBook, levels, best_level, put_level, find_id}
use lob_engine.Book.IdMap.{find_id-id}
use lob_engine.Book.Uncrossed.{first-find}
use lob_engine.Book.Sound.{LevelAt, find-LevelAt}
use lob_engine.Book.Coherent.{
  IsCoherent, Agrees, view_at, same_side_eq, same_side_refl, lies_at, rests_at,
}
use lob_engine.Book.Agree.{Agrees-put_level, find-put}

-- The order that a live id of a level stands for.
pub held_order :
    (b : OrderBook) (v : IsCoherent b) (s : Side) (k : Price) (x : OrderId)
    → member x (view_at b s k) ≡ true
    → (p : Order) × (find_id x b.id_map ≡ some p) × (p.id ≡ x) × (p.side ≡ s) × (p.price ≡ k)
held_order b v s k x h = elim (Option-cases (find_id x b.id_map)) [
  | inl n ↦ absurd (cc (h, v.located s k x, ap (rests_at s k) n))
  | inr (p, n) ↦
      let at : lies_at s k p ≡ true = sym (ap (rests_at s k) n) ∙ sym (v.located s k x) ∙ h in
      (
        p,
        n,
        find_id-id x b.id_map p n,
        same_side_eq p.side s (ground arith),
        (eqb_ℤ_iff p.price k).0 (ground arith),
      )
]

-- The best level of a side is in order, and what its `front` leaves agrees with the book.
pub record BestLevel (b : OrderBook) (s : Side) (k : Price) (l : PriceLevel) : Type 0 where
  pub priced : l.price ≡ k
  pub x : OrderId
  pub xs : List OrderId
  pub fronted : front l ≡ ok (x, drain_cancelled l)
  pub agrees : Agrees b (put_level b s k (drain_cancelled l))
  pub waiting : view_at b s k ≡ x ∷ xs
  pub queue : view_at (put_level b s k (drain_cancelled l)) s k ≡ x ∷ xs

pub best_level-BestLevel :
    (b : OrderBook) (v : IsCoherent b) (s : Side) (k : Price) (l : PriceLevel)
    → best_level s b ≡ some (k, l)
    → BestLevel b s k l
unfolding best_level
best_level-BestLevel b v s k l h =
    let here = first-find (levels s b) k l h in
    let at = find-LevelAt k (levels s b) (v.sound s) here in
    let once : Distinct (live_ids l) = rw here at (v.distinct s k) in
    elim (front_refines l at.well_formed) [
      | inl (n, _) ↦ absurd (at.inhabited n)
      | inr (x, xs, e, f, d, w, u) ↦
          let l' = drain_cancelled l in
          let at' : LevelAt k l' = record {
            well_formed = w;
            inhabited = λ n. cc (d, n);
            priced = price-drain_cancelled l ∙ at.priced;
          } in
          let same : (i : OrderId) → member i (live_ids l') ≡ member i (live_ids l) =
            λ i. ap (member i) (d ∙ sym e) in
          let once' : Distinct (live_ids l') = subst Distinct (e ∙ sym d) once in
          let less = drain_cancelled-unmarked l in
          record {
            priced = at.priced;
            x = x;
            xs = xs;
            waiting = rw here e;
            fronted = f;
            agrees = Agrees-put_level b s k l l' v here at' same once' less;
            queue =
                rw
                  (
                    find-put b s k l l' v here at' same once' less s k,
                    same_side_refl s,
                    eqb_ℤ_refl k,
                  )
                  d;
          }
    ]
