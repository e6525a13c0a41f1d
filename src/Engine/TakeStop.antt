-- ===== src/Engine/TakeStop.antt =====
-- `take_stop`: the scan of the pending stops that a cancel makes.
use lob_engine.Prelude.{
  ◌+◌, ◌≡◌, refl, sym, ap, ◌∙◌, none, some, List, [], ◌∷◌, ◌++◌, ◌==◌, ==_iff, arith, Bool-cases,
  Option-cases, inl, inr,
}
use lob_engine.Core.{OrderId, Order}
use lob_engine.Engine.Submit.{take_stop}
use lob_engine.Engine.Weight.{stop_weight, stop_weights, stop_weights-append}
use lob_engine.Engine.Valid.{one, count_id, count_id-append}

-- The stop that is taken is the first with the id, and the others keep their order.
pub record Taken (id : OrderId) (os : List Order) (s : Order) (rest : List Order) : Type 0 where
  pub before : List Order
  pub behind : List Order
  pub whole : os ≡ before ++ s ∷ behind
  pub others : rest ≡ before ++ behind
  pub hit : s.id ≡ id
  pub first : count_id id before ≡ 0

-- What a cancel takes out of the pending stops is the first stop with the id: it stood behind stops
-- with other ids, and the others are left in their order.
pub take_stop-Taken :
    (id : OrderId) (os : List Order) (s : Order) (rest : List Order)
    → take_stop id os ≡ some (s, rest)
    → Taken id os s rest
unfolding take_stop
take_stop-Taken id [] s rest h = absurd (cc h)
take_stop-Taken id (o ∷ os) s rest h = elim (Bool-cases (o.id == id)) [
  | inl t ↦
      let h' = rw t at h in
      let x : o ≡ s = cc h' in
      record {
        before = [];
        behind = rest;
        whole = cc h';
        others = refl;
        hit = ap (λ y. y.id) (sym x) ∙ (==_iff o.id id).0 t;
        first = refl;
      }
  | inr t ↦ elim (Option-cases (take_stop id os)) [
    | inl n ↦ absurd (cc (rw (t, n) at h))
    | inr ((s', rest'), n) ↦
        let h' = rw (t, n) at h in
        let x : s' ≡ s = cc h' in
        let y : o ∷ rest' ≡ rest = cc h' in
        let ih = take_stop-Taken id os s' rest' n in
        record {
          before = o ∷ ih.before;
          behind = ih.behind;
          whole = ap (λ z. o ∷ z) ih.whole ∙ ap (λ z. o ∷ (ih.before ++ z ∷ ih.behind)) x;
          others = sym y ∙ ap (λ z. o ∷ z) ih.others;
          hit = ap (λ z. z.id) (sym x) ∙ ih.hit;
          first = rw t (omega (arith, ih.first));
        }
  ]
]

-- No stop is taken exactly if none has the id.
pub take_stop-none : (id : OrderId) (os : List Order) → take_stop id os ≡ none → count_id id os ≡ 0
unfolding take_stop
take_stop-none id [] h = refl
take_stop-none id (o ∷ os) h = ground (arith, take_stop-none id os)

pub Taken-count :
    {id : OrderId} {os : List Order} {s : Order} {rest : List Order}
    → Taken id os s rest
    → (i : OrderId) → count_id i rest + one s.id i ≡ count_id i os
Taken-count t i = omega (
  arith,
  ap (count_id i) t.whole,
  ap (count_id i) t.others,
  count_id-append i t.before (_ ∷ t.behind),
  count_id-append i t.before t.behind,
)

pub Taken-weight :
    {id : OrderId} {os : List Order} {s : Order} {rest : List Order}
    → Taken id os s rest
    → stop_weights rest + stop_weight s ≡ stop_weights os
Taken-weight t = omega (
  arith,
  ap stop_weights t.whole,
  ap stop_weights t.others,
  stop_weights-append t.before (_ ∷ t.behind),
  stop_weights-append t.before t.behind,
)
