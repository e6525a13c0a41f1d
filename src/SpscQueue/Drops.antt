-- ===== src/SpscQueue/Drops.antt =====
-- The dropping ring: what it keeps, what it loses, and that the loss is counted.
use lob_engine.Prelude.{
  ℕ, suc, ◌+◌, ◌<◌, ◌≡◌, refl, ap, subst, ◌∙◌, true, false, List, [], ◌∷◌, ◌++◌, append_assoc,
  append-nil, arith, length, inl, inr, ◌⊎◌, u64_mod, add64, add64-of_lt, length-append,
}
use lob_engine.SpscQueue.{capacity, DropQueue, push, enqueue, enqueue_all}
use lob_engine.SpscQueue.Refine.{Holds, push_refines}

module _ {ℓ} {A : Type ℓ} where
  -- A full ring takes nothing more.
  full_keeps_nothing :
      (bits : ℕ) (d : DropQueue A) (xs kept : List A)
      → suc (length xs) ≡ capacity bits
      → Holds bits d.ring (xs ++ kept)
      → kept ≡ []
  full_keeps_nothing bits d xs [] full v = refl
  full_keeps_nothing bits d xs (y ∷ ys) full v =
      absurd (omega (arith, full, v.room, length-append xs (y ∷ ys)))

  pub enqueue_full :
      (bits : ℕ) (d : DropQueue A) (x : A)
      → push bits d.ring x ≡ (d.ring, false)
      → enqueue bits d x ≡ record d { drops = add64 d.drops 1 }
  unfolding enqueue
  enqueue_full bits d x e = rw e refl

  pub enqueue_free :
      (bits : ℕ) (d : DropQueue A) (x : A)
      → (push bits d.ring x).1 ≡ true
      → enqueue bits d x ≡ record d { ring = (push bits d.ring x).0 }
  unfolding enqueue
  enqueue_free bits d x e = rw e refl

  -- A batch on a ring that holds a list is split in two: the ring keeps the first part, behind what
  -- it held, and drops the rest. Something is dropped only when the ring is full, and the drop
  -- counter grows by the number of items dropped, as long as it does not pass 2 ^ 64.
  pub enqueue_all_keeps :
      (bits : ℕ) (d : DropQueue A) (xs items : List A)
      → Holds bits d.ring xs
      → d.drops + length items < u64_mod
      → (kept : List A) × (lost : List A) × (items ≡ kept ++ lost)
        × Holds bits (enqueue_all bits d items).ring (xs ++ kept)
        × ((enqueue_all bits d items).drops ≡ d.drops + length lost)
        × ((lost ≡ []) ⊎ (suc (length (xs ++ kept)) ≡ capacity bits))
  unfolding enqueue_all
  enqueue_all_keeps bits d xs [] v w = ([], [], refl, rw (append-nil xs) v, omega arith, inl refl)
  enqueue_all_keeps bits d xs (x ∷ items) v w = elim (push_refines bits d.ring xs x v) [
    | inl (full, e) ↦
        let after : DropQueue A = record d { drops = add64 d.drops 1 } in
        let counted = add64-of_lt d.drops 1 (omega (arith, w)) in
        let (kept, lost, same, v', n, why) =
          enqueue_all_keeps bits after xs items v (omega (arith, w, counted)) in
        let none_kept : kept ≡ [] =
          full_keeps_nothing bits (enqueue_all bits after items) xs kept full v' in
        (
          [],
          x ∷ items,
          refl,
          rw (enqueue_all, enqueue_full bits d x e)
              (subst (λ k. Holds bits (enqueue_all bits after items).ring (xs ++ k)) none_kept v'),
          rw (enqueue_all, enqueue_full bits d x e)
              (n
                ∙ omega
                    (arith, counted, ap length same, ap length none_kept, length-append kept lost)),
          inr (ap (λ ys. suc (length ys)) (append-nil xs) ∙ full),
        )
    | inr (free, e, v') ↦
        let after : DropQueue A = record d { ring = (push bits d.ring x).0 } in
        let (kept, lost, same, v2, n, why) =
          enqueue_all_keeps bits after (xs ++ x ∷ []) items v' (omega (arith, w)) in
        (
          x ∷ kept,
          lost,
          ap (λ ys. x ∷ ys) same,
          rw (enqueue_all, enqueue_free bits d x e)
              (subst (λ ys. Holds bits (enqueue_all bits after items).ring ys)
                (append_assoc xs (x ∷ []) kept) v2),
          rw (enqueue_all, enqueue_free bits d x e) n,
          subst (λ ys. (lost ≡ []) ⊎ (suc (length ys) ≡ capacity bits))
              (append_assoc xs (x ∷ []) kept) why,
        )
  ]
