-- ===== src/Logging/Sizes.antt =====
-- The loop that rounds the size of the logger's ring up to a power of two.
use native.Mathlib.Nat.{pow-suc, pow-le-pow_right}
use lob_engine.Prelude.{
  true, false, ℕ, zero, suc, ◌+◌, ◌*◌, ◌%◌, ◌^◌, ◌≤◌, ◌<◌, ◌≡◌, refl, ap, ltb, arith, Bool-cases,
  inl, inr, ◌⊎◌, ok, out_of_fuel,
}
use lob_engine.Logging.{round_up, buffer_size}

doubled : (k : ℕ) → k < 31 → 2 ^ k * 2 % 2 ^ 32 ≡ 2 ^ suc k
doubled k h =
    let small : 2 ^ suc k ≤ 2 ^ 31 =
      pow-le-pow_right {n = 2} (omega arith) {i = suc k} {j = 31} (omega (arith, h)) in
    omega (arith, pow-suc 2 k, small)

Rounded : ℕ → ℕ → ℕ → ℕ → Type 0
Rounded f k q j =
    (round_up f q (2 ^ k) ≡ ok (2 ^ j)) × (q ≤ 2 ^ j) × (j ≤ 31) × ((j ≡ k) ⊎ (2 ^ j < 2 * q))

stops : (f k q : ℕ) → k ≤ 31 → ltb (2 ^ k) q ≡ false → Rounded (suc f) k q k
unfolding round_up Rounded
stops f k q h t = (rw t refl, ground arith, h, inl refl)

goes_on :
    (f k q j : ℕ) → k < 31 → ltb (2 ^ k) q ≡ true → Rounded f (suc k) q j → Rounded (suc f) k q j
unfolding round_up Rounded
goes_on f k q j h t (done, a, b, c) = (
  rw (t, doubled k h) done,
  a,
  b,
  elim c [ inl e ↦ inr (rw e (ground (arith, pow-suc 2 k, t))) | inr l ↦ inr l ],
)

round_up_total : (f k q : ℕ) → k + f ≡ 31 → q ≤ 2 ^ 31 → (j : ℕ) × Rounded (suc f) k q j
round_up_total zero k q e h =
    let top : k ≡ 31 = omega (arith, e) in
    let last : 2 ^ k ≡ 2 ^ 31 = ap (λ i. 2 ^ i) top in
    (k, stops zero k q (omega (arith, e)) (ground (arith, last, h)))
round_up_total (suc f) k q e h = elim (Bool-cases (ltb (2 ^ k) q)) [
  | inr t ↦ (k, stops (suc f) k q (omega (arith, e)) t)
  | inl t ↦
      let (j, r) = round_up_total f (suc k) q (omega (arith, e)) h in
      (j, goes_on (suc f) k q j (omega (arith, e)) t r)
]

-- For a queue size of at most 2 ^ 31 the loop ends within 32 tests, with the smallest power of two
-- that is not below the size.
pub buffer_size_total :
    (queue_size : ℕ)
    → queue_size ≤ 2 ^ 31
    → (j : ℕ) × (buffer_size 32 queue_size ≡ ok (2 ^ j))
      × (queue_size ≤ 2 ^ j)
      × (j ≤ 31)
      × ((j ≡ 0) ⊎ (2 ^ j < 2 * queue_size))
unfolding buffer_size Rounded
buffer_size_total queue_size h =
    let (j, r) = round_up_total 31 0 queue_size refl h in (j, r.0, r.1, r.2, r.3)

never_reached :
    (f k q : ℕ)
    → 2 ^ 31 < q
    → k ≤ 31
    → (round_up f q (2 ^ k) ≡ out_of_fuel) × (round_up f q 0 ≡ out_of_fuel)
unfolding round_up
never_reached zero k q h e = (refl, refl)
never_reached (suc f) k q h e =
    let small : 2 ^ k ≤ 2 ^ 31 = pow-le-pow_right {n = 2} (omega arith) {i = k} {j = 31} e in
    let t : ltb (2 ^ k) q ≡ true = ground (arith, small, h) in
    let t0 : ltb 0 q ≡ true = ground (arith, h) in
    let later = (never_reached f 0 q h (omega arith)).1 in
    (
      rw t (elim (Bool-cases (ltb k 31)) [
        | inl early ↦
            let k_lt : k < 31 = ground (arith, early) in
            rw (doubled k k_lt) ((never_reached f (suc k) q h k_lt).0)
        | inr top ↦
            let all : k ≡ 31 = ground (arith, e, top) in
            let last : 2 ^ k ≡ 2 ^ 31 = ap (λ i. 2 ^ i) all in rw last later
      ]),
      rw t0 later,
    )

-- For a queue size above 2 ^ 31 the loop never ends: the shift drops the only bit that is set, and
-- from then on the number stays 0.
pub buffer_size_diverges :
    (queue_size f : ℕ) → 2 ^ 31 < queue_size → buffer_size f queue_size ≡ out_of_fuel
unfolding buffer_size
buffer_size_diverges queue_size f h = (never_reached f 0 queue_size h (omega arith)).0
