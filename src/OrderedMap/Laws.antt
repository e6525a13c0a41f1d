-- ===== src/OrderedMap/Laws.antt =====
-- The laws of the ordered map: lookups after each update, and the order of the keys.
use lob_engine.Prelude.{
  ◌≡◌, refl, sym, subst, Bool, true, false, Option, none, some, [], ◌∷◌, eqb_ℤ, eqb_ℤ_iff,
  eqb_ℤ_refl, if◌then◌else◌, arith, Bool-cases, inl, inr,
}
use mathlib.Core.Path.{subst₂}
use lob_engine.Core.{Price}
use lob_engine.OrderedMap.{OrderedMap, find, has_key, adjust, erase_key, insert_sorted, emplace}

abbrev pub map_option {ℓ κ} : {A : Type ℓ} {B : Type κ} → (A → B) → Option A → Option B
map_option f none = none
map_option f (some a) = some (f a)

abbrev pub or_else {ℓ} : {A : Type ℓ} → Option A → A → A
or_else none a = a
or_else (some b) a = b

module _ {V : Type 0} where
  pub find-adjust :
      (p q : Price) (f : V → V) (m : OrderedMap V)
      → find q (adjust p f m) ≡ (if eqb_ℤ p q then map_option f (find q m) else find q m)
  unfolding find adjust
  find-adjust p q f [] = ground arith
  find-adjust p q f ((k, v) ∷ m) = ground (arith, find-adjust p q f m)

  pub find-erase_key :
      (p q : Price) (m : OrderedMap V)
      → find q (erase_key p m) ≡ (if eqb_ℤ p q then none else find q m)
  unfolding find erase_key
  find-erase_key p q [] = ground arith
  find-erase_key p q ((k, v) ∷ m) = ground (arith, find-erase_key p q m)

  find-none : (p : Price) (m : OrderedMap V) → has_key p m ≡ false → find p m ≡ none
  unfolding find
  find-none p [] h = refl
  find-none p ((k, v) ∷ m) h = ground (arith, find-none p m)

  find-some : (p : Price) (m : OrderedMap V) → has_key p m ≡ true → (v : V) × (find p m ≡ some v)
  unfolding find
  find-some p [] h = cc
  find-some p ((k, v) ∷ m) h = elim (Bool-cases (eqb_ℤ k p)) [
    | inl e ↦ (v, rw e)
    | inr e ↦ rw e (find-some p m (rw e at h))
  ]

  module _ (before : Price → Price → Bool) where
    find-insert_sorted :
        (p q : Price) (v : V) (m : OrderedMap V)
        → has_key p m ≡ false
        → find q (insert_sorted before p v m) ≡ (if eqb_ℤ p q then some v else find q m)
    unfolding find insert_sorted
    find-insert_sorted p q v [] h = refl
    find-insert_sorted p q v ((k, w) ∷ m) h = ground (arith, find-insert_sorted p q v m)

    pub find-emplace :
        (p q : Price) (v : V) (m : OrderedMap V)
        → find q (emplace before p v m)
          ≡ (if eqb_ℤ p q then some (or_else (find q m) v) else find q m)
    unfolding emplace
    find-emplace p q v m = elim (Bool-cases (has_key p m)) [
      | inl e ↦ rw e (ground (arith, find-some p m e, eqb_ℤ_iff p q))
      | inr e ↦ rw e (ground (arith, find-insert_sorted p q v m e, find-none p m e, eqb_ℤ_iff p q))
    ]

-- Every pair satisfies a predicate.
abbrev pub Each : {V : Type 0} → (Price → V → Type 0) → OrderedMap V → Type 0
Each P [] = Unit {0}
Each P ((k, v) ∷ m) = P k v × Each P m

-- The keys follow one another strictly in the order of the map.
abbrev pub IsSorted : {V : Type 0} → (Price → Price → Bool) → OrderedMap V → Type 0
IsSorted before [] = Unit {0}
IsSorted before ((k, v) ∷ m) = Each (λ j _. before k j ≡ true) m × IsSorted before m

module _ {V : Type 0} (P : Price → V → Type 0) where
  pub Each-find : (p : Price) (m : OrderedMap V) (v : V) → Each P m → find p m ≡ some v → P p v
  unfolding find
  Each-find p [] v h e = cc
  Each-find p ((k, w) ∷ m) v h e = elim (Bool-cases (eqb_ℤ k p)) [
    | inl t ↦ subst₂ P ((eqb_ℤ_iff k p).0 t) (cc (rw t at e)) h.0
    | inr t ↦ Each-find p m v h.1 (rw t at e)
  ]

  pub Each-adjust :
      (p : Price) (f : V → V) (m : OrderedMap V)
      → Each P m
      → ((v : V) → P p v → P p (f v))
      → Each P (adjust p f m)
  unfolding adjust
  Each-adjust p f [] h keep = tt
  Each-adjust p f ((k, v) ∷ m) h keep = elim (Bool-cases (eqb_ℤ k p)) [
    | inl t ↦
        let e = (eqb_ℤ_iff k p).0 t in
        rw t (
          subst (λ x. P x (f v)) (sym e) (keep v (subst (λ x. P x v) e h.0)),
          Each-adjust p f m h.1 keep,
        )
    | inr t ↦ rw t (h.0, Each-adjust p f m h.1 keep)
  ]

  pub Each-erase_key : (p : Price) (m : OrderedMap V) → Each P m → Each P (erase_key p m)
  unfolding erase_key
  Each-erase_key p [] h = tt
  Each-erase_key p ((k, v) ∷ m) h = elim (Bool-cases (eqb_ℤ k p)) [
    | inl t ↦ rw t (Each-erase_key p m h.1)
    | inr t ↦ rw t (h.0, Each-erase_key p m h.1)
  ]

  module _ (before : Price → Price → Bool) where
    Each-insert_sorted :
        (p : Price) (v : V) (m : OrderedMap V)
        → Each P m
        → P p v
        → Each P (insert_sorted before p v m)
    unfolding insert_sorted
    Each-insert_sorted p v [] h k = (k, tt)
    Each-insert_sorted p v ((j, w) ∷ m) h k = elim (Bool-cases (before p j)) [
      | inl t ↦ rw t (k, h)
      | inr t ↦ rw t (h.0, Each-insert_sorted p v m h.1 k)
    ]

    pub Each-emplace :
        (p : Price) (v : V) (m : OrderedMap V) → Each P m → P p v → Each P (emplace before p v m)
    unfolding emplace
    Each-emplace p v m h k = elim (Bool-cases (has_key p m)) [
      | inl t ↦ rw t h
      | inr t ↦ rw t (Each-insert_sorted p v m h k)
    ]

module _ {V : Type 0} (before : Price → Price → Bool) where
  pub adjust-IsSorted :
      (p : Price) (f : V → V) (m : OrderedMap V)
      → IsSorted before m
      → IsSorted before (adjust p f m)
  unfolding adjust
  adjust-IsSorted p f [] h = tt
  adjust-IsSorted p f ((k, v) ∷ m) h =
      let rest = Each-adjust (λ j _. before k j ≡ true) p f m h.0 (λ _ b. b) in
      elim (Bool-cases (eqb_ℤ k p)) [
        | inl t ↦ rw t (rest, adjust-IsSorted p f m h.1)
        | inr t ↦ rw t (rest, adjust-IsSorted p f m h.1)
      ]

  pub erase_key-IsSorted :
      (p : Price) (m : OrderedMap V) → IsSorted before m → IsSorted before (erase_key p m)
  unfolding erase_key
  erase_key-IsSorted p [] h = tt
  erase_key-IsSorted p ((k, v) ∷ m) h =
      let rest = Each-erase_key (λ j _. before k j ≡ true) p m h.0 in
      elim (Bool-cases (eqb_ℤ k p)) [
        | inl t ↦ rw t (erase_key-IsSorted p m h.1)
        | inr t ↦ rw t (rest, erase_key-IsSorted p m h.1)
      ]

-- What the order of a map has to satisfy.
pub record IsOrder (before : Price → Price → Bool) : Type 0 where
  pub transitive : (a b c : Price) → before a b ≡ true → before b c ≡ true → before a c ≡ true
  pub irreflexive : (a : Price) → before a a ≡ false
  pub total : (a b : Price) → eqb_ℤ b a ≡ false → before a b ≡ false → before b a ≡ true

pub before_ne :
    (before : Price → Price → Bool)
    → IsOrder before
    → (a b : Price) → before a b ≡ true
    → eqb_ℤ a b ≡ false
before_ne before o a b h = elim (Bool-cases (eqb_ℤ a b)) [
  | inl t ↦
      let same : before b b ≡ true = subst (λ x. before x b ≡ true) ((eqb_ℤ_iff a b).0 t) h in
      cc (same, o.irreflexive b)
  | inr t ↦ t
]

module _ {V : Type 0} (before : Price → Price → Bool) (o : IsOrder before) where
  Each-before :
      (a b : Price) (m : OrderedMap V)
      → before a b ≡ true
      → Each (λ j _. before b j ≡ true) m
      → Each (λ j _. before a j ≡ true) m
  Each-before a b [] e h = tt
  Each-before a b ((k, v) ∷ m) e h = (o.transitive a b k e h.0, Each-before a b m e h.1)

  insert_sorted-IsSorted :
      (p : Price) (v : V) (m : OrderedMap V)
      → has_key p m ≡ false
      → IsSorted before m
      → IsSorted before (insert_sorted before p v m)
  unfolding insert_sorted
  insert_sorted-IsSorted p v [] n h = (tt, tt)
  insert_sorted-IsSorted p v ((k, w) ∷ m) n h = elim (Bool-cases (before p k)) [
    | inl t ↦ rw t ((t, Each-before p k m t h.0), h)
    | inr t ↦ elim (Bool-cases (eqb_ℤ k p)) [
      | inl e ↦ absurd (ground arith)
      | inr e ↦ rw t (
        Each-insert_sorted (λ j _. before k j ≡ true) before p v m h.0 (o.total p k e t),
        insert_sorted-IsSorted p v m (rw e at n) h.1,
      )
    ]
  ]

  pub emplace-IsSorted :
      (p : Price) (v : V) (m : OrderedMap V)
      → IsSorted before m
      → IsSorted before (emplace before p v m)
  unfolding emplace
  emplace-IsSorted p v m h = elim (Bool-cases (has_key p m)) [
    | inl t ↦ rw t h
    | inr t ↦ rw t (insert_sorted-IsSorted p v m t h)
  ]

  -- In a sorted map every pair is found under its key.
  pub Each-of_find :
      (P : Price → V → Type 0) (m : OrderedMap V)
      → IsSorted before m
      → ((k : Price) (v : V) → find k m ≡ some v → P k v)
      → Each P m
  unfolding find
  Each-of_find P [] h f = tt
  Each-of_find P ((k, v) ∷ m) h f = (
    f k v (rw (eqb_ℤ_refl k)),
    Each-of_find P m h.1 λ j w e.
        f j w (rw (before_ne before o k j (Each-find (λ j _. before k j ≡ true) j m w h.0 e)) e),
  )
