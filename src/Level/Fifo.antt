-- ===== src/Level/Fifo.antt =====
-- A price level as a FIFO queue of order ids: `live` is the order in which the drains of the code
-- will hand the ids out. `remove` is the lazy deletion, `push_back` and `front` the two ends.
use lob_engine.Prelude.{
  ℕ, ◌≡◌, refl, ◌==◌, ==_iff, true, false, List, [], ◌∷◌, ◌++◌, arith, if◌then◌else◌, member, erase,
  erase_first, member-erase, erase_absent, erase-Distinct, length-erase, length, Distinct, ◌+◌,
}
use lob_engine.Core.{OrderId}
use lob_engine.Level.{PriceLevel, drain, keep_uncancelled}

-- A cancelled id hides one entry of the deque, the first; a later entry of that id is live.
abbrev pub live : List OrderId → List OrderId → List OrderId
live [] c = []
live (x ∷ q) c = let rest = live q (erase x c) in if member x c then rest else (x ∷ rest)

-- The cancelled ids that no entry of the deque accounts for.
abbrev pub leftover : List OrderId → List OrderId → List OrderId
leftover [] c = c
leftover (x ∷ q) c = leftover q (erase x c)

abbrev pub live_ids : PriceLevel → List OrderId
live_ids l = live l.queue l.cancelled

pub record IsLevel (l : PriceLevel) : Type 0 where
  pub accounted : leftover l.queue l.cancelled ≡ []
  pub distinct : Distinct l.cancelled

pub leftover-snoc : (q c : List ℕ) (id : ℕ) → leftover q c ≡ [] → leftover (q ++ id ∷ []) c ≡ []
leftover-snoc [] c id h = rw h
leftover-snoc (x ∷ q) c id h = leftover-snoc q (erase x c) id h

pub live-snoc :
    (q c : List ℕ) (id : ℕ) → leftover q c ≡ [] → live (q ++ id ∷ []) c ≡ live q c ++ id ∷ []
live-snoc [] c id h = rw h
live-snoc (x ∷ q) c id h = ground (arith, live-snoc q (erase x c) id h)

pub leftover-member :
    (q c : List ℕ) (id : ℕ) → member id q ≡ true → leftover q c ≡ [] → leftover q (id ∷ c) ≡ []
leftover-member [] c id m h = cc
leftover-member (x ∷ q) c id m h = ground (arith, leftover-member q (erase x c) id)

pub live-remove :
    (q c : List ℕ) (id : ℕ) → member id c ≡ false → live q (id ∷ c) ≡ erase_first id (live q c)
live-remove [] c id h = refl
live-remove (x ∷ q) c id h =
    ground (arith, live-remove q (erase x c) id, member-erase id x c, erase_absent x c)

pub drain-live : (q c : List ℕ) → live (drain q c).0 (drain q c).1 ≡ live q c
drain-live [] c = refl
drain-live (x ∷ q) c = ground (arith, drain-live q (erase x c))

pub drain-leftover : (q c : List ℕ) → leftover (drain q c).0 (drain q c).1 ≡ leftover q c
drain-leftover [] c = refl
drain-leftover (x ∷ q) c = ground (arith, drain-leftover q (erase x c))

pub drain-Distinct : (q c : List ℕ) → Distinct c → Distinct (drain q c).1
drain-Distinct [] c d = d
drain-Distinct (x ∷ q) c d = ground (arith, drain-Distinct q (erase x c), erase-Distinct x c d)

-- What a drain leaves is empty, or its front is live.
abbrev pub IsDrained : List ℕ → List ℕ → Type 0
IsDrained [] c = Unit {0}
IsDrained (x ∷ q) c = member x c ≡ false

pub drain-IsDrained : (q c : List ℕ) → IsDrained (drain q c).0 (drain q c).1
drain-IsDrained [] c = tt
drain-IsDrained (x ∷ q) c = ground (arith, drain-IsDrained q (erase x c))

pub member-live : (q c : List ℕ) (id : ℕ) → member id (live q c) ≡ true → member id q ≡ true
member-live [] c id h = cc
member-live (x ∷ q) c id h = ground (arith, member-live q (erase x c) id)

-- Every cancelled id hides one entry.
pub length-live :
    (q c : List ℕ) → leftover q c ≡ [] → Distinct c → length (live q c) + length c ≡ length q
length-live [] c h d = rw h refl
length-live (x ∷ q) c h d =
    ground (arith, length-live q (erase x c), length-erase x c d, erase-Distinct x c d)

keep_uncancelled-erase :
    (x : ℕ) (q c : List ℕ)
    → member x q ≡ false
    → keep_uncancelled (erase x c) q ≡ keep_uncancelled c q
keep_uncancelled-erase x [] c h = refl
keep_uncancelled-erase x (y ∷ q) c h =
    ground (arith, keep_uncancelled-erase x q c, member-erase y x c)

pub keep_uncancelled-live : (q c : List ℕ) → Distinct q → keep_uncancelled c q ≡ live q c
keep_uncancelled-live [] c d = refl
keep_uncancelled-live (x ∷ q) c d =
    ground (arith, keep_uncancelled-live q (erase x c) d.1, keep_uncancelled-erase x q c d.0)

-- A drain marks nothing new.
pub drain-unmarked : (q c : List ℕ) (id : ℕ) → member id c ≡ false → member id (drain q c).1 ≡ false
drain-unmarked [] c id h = h
drain-unmarked (x ∷ q) c id h = ground (arith, drain-unmarked q (erase x c) id, member-erase id x c)

-- A drain keeps the mark of an id whose first entry is not the first live one.
pub drain_keeps :
    (q c : List ℕ) (id x : ℕ) (xs : List ℕ)
    → member id c ≡ false
    → live q c ≡ x ∷ xs
    → (x == id) ≡ false
    → member id (drain q (id ∷ c)).1 ≡ true
drain_keeps [] c id x xs n h ne = absurd (cc h)
drain_keeps (y ∷ q) c id x xs n h ne =
    ground (arith, drain_keeps q (erase y c) id x xs, member-erase id y c, ==_iff y id, ==_iff x id)
