-- ===== src/Engine/Takers.antt =====
-- The rules of a run of src/engine/matching_engine.cpp: its trades are made by the orders that are
-- submitted and by the stops that were pending, each under its own id, on its side, within its limit
-- and with at most its quantity.
use lob_engine.Prelude.{
  ◌≡◌, ◌≤◌, refl, sym, ap, subst, ◌∙◌, ◌⊎◌, inl, inr, true, List, [], ◌∷◌, if◌then◌else◌, Bool,
  Bool-cases, arith, All, false,
}
use lob_engine.Core.{OrderId, Order, OrderStatus, OrderType, Price, Quantity, Trade}
use lob_engine.Engine.Fill.{converted}
use lob_engine.Engine.State.{Engine}
use lob_engine.Engine.Match.{beyond_limit}
use lob_engine.Engine.Stops.{Submits, shown_as}
use lob_engine.Engine.Trace.{Rules, Trace, is_stop}

-- A predicate of some element.
abbrev pub Among : {A : Type 0} → (A → Type 0) → List A → Type 0
Among P [] = ⊥
Among P (x ∷ xs) = P x ⊎ Among P xs

pub Among-map :
    {A : Type 0} (P Q : A → Type 0) (xs : List A) → ((x : A) → P x → Q x) → Among P xs → Among Q xs
Among-map P Q [] f h = elim h [ ]
Among-map P Q (x ∷ xs) f (inl h) = inl (f x h)
Among-map P Q (x ∷ xs) f (inr h) = inr (Among-map P Q xs f h)

-- What is left of an order: at most its quantity, under any status.
abbrev pub IsPart : Order → Order → Type 0
IsPart s a = (a ≡ record s { quantity = a.quantity; status = a.status }) × (a.quantity ≤ s.quantity)

-- The same order, whatever its status.
abbrev pub IsSame : Order → Order → Type 0
IsSame s a = a ≡ record s { status = a.status }

-- What a submitted order takes as: a stop as the order that it is converted to, an iceberg with its
-- peak.
abbrev pub taker_as : OrderType → Order → Order
taker_as t s = if is_stop t then converted s else shown_as t s

abbrev pub taker_of : Order → Order
taker_of s = taker_as s.type s

abbrev pub StopSame : Order → Order → Type 0
StopSame s a = (is_stop s.type ≡ true) × IsSame s a

abbrev pub Takes : List Order → List Order → Order → Type 0
Takes pending submitted a =
    Among (λ s. IsPart (converted s) a) pending ⊎ Among (λ s. IsPart (taker_of s) a) submitted

abbrev pub Waits : List Order → List Order → Order → Type 0
Waits pending submitted a = Among (λ s. IsSame s a) pending ⊎ Among (λ s. StopSame s a) submitted

pub IsPart-shrink :
    (s a : Order) (q : Quantity) (status : OrderStatus)
    → q ≤ a.quantity
    → IsPart s a
    → IsPart s (record a { quantity = q; status = status })
IsPart-shrink s a q status le (same, less) =
    (ap (λ (x : Order). record x { quantity = q; status = status }) same, omega (arith, le, less))

pub IsSame-keep :
    (s a : Order) (status : OrderStatus) → IsSame s a → IsSame s (record a { status = status })
IsSame-keep s a status h = ap (λ (x : Order). record x { status = status }) h

converted-status :
    (s : Order) (status : OrderStatus) → converted (record s { status = status }) ≡ converted s
unfolding converted
converted-status s status = ground arith

pub IsSame-converted : (s a : Order) → IsSame s a → IsPart (converted s) (converted a)
IsSame-converted s a h =
    subst (IsPart (converted s)) (sym (ap converted h ∙ converted-status s a.status))
      (refl, omega arith)

pub StopSame-converted : (s a : Order) → StopSame s a → IsPart (taker_of s) (converted a)
StopSame-converted s a (stops, h) = rw stops (IsSame-converted s a h)

-- The rules of a run that starts with some pending stops and is given some orders and some ids to
-- cancel.
abbrev pub rules_of : List Order → List Order → List OrderId → Rules
rules_of pending submitted cancelled = record {
  takes = Takes pending submitted;
  waits = Waits pending submitted;
  withdraws = λ id. Among (λ i. i ≡ id) cancelled;
  shrink = λ a q status le h. elim h [
    | inl p ↦ inl (Among-map _ _ pending (λ s. IsPart-shrink (converted s) a q status le) p)
    | inr p ↦ inr (Among-map _ _ submitted (λ s. IsPart-shrink (taker_of s) a q status le) p)
  ];
  trigger = λ a h. elim h [
    | inl p ↦ inl (Among-map _ _ pending (λ s. IsSame-converted s a) p)
    | inr p ↦ inr (Among-map _ _ submitted (λ s. StopSame-converted s a) p)
  ];
  keep = λ a status h. elim h [
    | inl p ↦ inl (Among-map _ _ pending (λ s. IsSame-keep s a status) p)
    | inr p ↦ inr (Among-map _ _ submitted (λ s t. (t.0, IsSame-keep s a status t.1)) p)
  ];
}

-- An order that is submitted, under any rules that name it.
pub listed-Submits :
    (pending submitted : List Order) (cancelled : List OrderId) (o : Order)
    → Among (λ s. s ≡ o) submitted
    → Submits (rules_of pending submitted cancelled) o
listed-Submits pending submitted cancelled o h = elim (Bool-cases (is_stop o.type)) [
  | inl t ↦
      rw t (inr (Among-map (λ s. s ≡ o) (λ s. StopSame s o) submitted (λ s x. own_stop s o x t) h))
  | inr t ↦ rw t (
      inr (
        Among-map (λ s. s ≡ o) (λ s. IsPart (taker_of s) (shown_as o.type o)) submitted
          (λ s x. own_part s o x t) h))
]
  where
    own_stop : (s o : Order) → s ≡ o → is_stop o.type ≡ true → StopSame s o
    own_stop s o same t = subst (λ x. StopSame x o) (sym same) (t, refl)

    own_part :
        (s o : Order) → s ≡ o → is_stop o.type ≡ false → IsPart (taker_of s) (shown_as o.type o)
    own_part s o same t =
        subst (λ x. IsPart (taker_of x) (shown_as o.type o)) (sym same) (rw t (refl, omega arith))

-- What holds of every element that a list has holds of all of them.
pub every :
    {A : Type 0} (R : A → A → Type 0) (P : A → Type 0) (xs : List A)
    → ((x : A) → R x x)
    → ((y : A) → Among (λ x. R x y) xs → P y)
    → All P xs
every R P [] own f = tt
every R P (x ∷ xs) own f = (f x (inl (own x)), every R P xs own (λ y h. f y (inr h)))

-- The stops that were pending may wait.
pub pending-Waits :
    (pending submitted : List Order) (cancelled : List OrderId)
    → All (rules_of pending submitted cancelled).waits pending
pending-Waits pending submitted cancelled =
    every IsSame (Waits pending submitted) pending (λ _. refl) (λ _ h. inl h)

limit_taker :
    (o a : Order)
    → o.type ≡ OrderType.limit
    → Takes [] (o ∷ []) a
    → (a.id ≡ o.id)
      × (a.type ≡ OrderType.limit)
      × ((k : Price) → beyond_limit a k ≡ beyond_limit o k)
unfolding beyond_limit
limit_taker o a limit (inl none_pending) = elim none_pending [ ]
limit_taker o a limit (inr (inr none_left)) = elim none_left [ ]
limit_taker o a limit (inr (inl part)) =
    let plain_part : IsPart o a = subst (λ t. IsPart (taker_as t o) a) limit part in
    (
      ap (λ (x : Order). x.id) plain_part.0,
      ap (λ (x : Order). x.type) plain_part.0 ∙ limit,
      λ k. ap (λ (x : Order). beyond_limit x k) plain_part.0,
    )

module _ (o : Order) (limit : o.type ≡ OrderType.limit) where
  -- Without pending stops, the trades of a trace to which only a limit order is submitted are all made
  -- under its id and within its limit.
  limit_trades :
      {plain : Bool} {e e' : Engine} {ts : List Trade}
      → Trace plain (rules_of [] (o ∷ []) []) e ts e'
      → All (λ t. (t.aggressor_id ≡ o.id) × (beyond_limit o t.price ≡ false)) ts
  limit_trades Trace.here = tt
  limit_trades (Trace.silent c x) = limit_trades x
  limit_trades (Trace.fill {t = t} f x) =
      let (named, typed, same) = limit_taker o f.aggressor limit f.taker in
      let at : t.price ≡ f.key = ap (λ (y : Trade). y.price) f.made ∙ f.priced in
      let within : beyond_limit f.aggressor f.key ≡ false = elim f.allowed [
        | inl market ↦ absurd (cc (market, typed))
        | inr within ↦ within
      ] in
      (
        (ap (λ (y : Trade). y.aggressor_id) f.made ∙ named, rw at (sym (same f.key) ∙ within)),
        limit_trades x,
      )
