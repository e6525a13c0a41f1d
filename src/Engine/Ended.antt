-- ===== src/Engine/Ended.antt =====
-- The states in which the loop of `match_limit` in src/engine/matching_engine.cpp can end.
use lob_engine.Prelude.{
  ℕ, zero, suc, ◌≡◌, subst, ◌⊎◌, inl, inr, true, none, some, ◌==◌, ==_iff, Bool-cases, Option-cases,
  Run, ok, >>=-eq-ok,
}
use lob_engine.Core.{Order, Price}
use lob_engine.Level.{PriceLevel}
use lob_engine.Book.{best_level}
use lob_engine.Engine.State.{Engine, MatchResult}
use lob_engine.Engine.Fill.{Matched, opposite}
use lob_engine.Engine.Match.{beyond_limit, fill_front, limit_loop, match_limit, mark_filled}

-- The order is filled, or the other side is empty, or its best price is beyond the limit.
abbrev pub IsFinished : Engine → Order → Type 0
IsFinished e a =
    (a.quantity ≡ 0)
    ⊎ ((best_level (opposite a.side) e.book ≡ none)
        ⊎ ((k : Price) × (l : PriceLevel) × (best_level (opposite a.side) e.book ≡ some (k, l))
            × (beyond_limit a l.price ≡ true)))

ended :
    (e : Engine) (a : Order) (r : MatchResult) (m : Matched)
    → ◌≡◌ {A = Run Matched} (ok (e, a, r)) (ok m)
    → IsFinished e a
    → IsFinished m.0 m.1
ended e a r m h x =
    let same : ◌≡◌ {A = Matched} (e, a, r) m = cc h in
    subst (λ (n : Matched). IsFinished n.0 n.1) same x

mark_filled-IsFinished : (e : Engine) (a : Order) → IsFinished e a → IsFinished e (mark_filled a)
unfolding beyond_limit
mark_filled-IsFinished e a x = elim (Bool-cases (a.quantity == 0)) [
  | inl z ↦ inl (rw z ((==_iff a.quantity 0).0 z))
  | inr nz ↦ rw nz x
]

module _ (new_order : Engine → Order → Run (Engine × MatchResult)) where
  limit_loop-IsFinished :
      (f : ℕ) (e : Engine) (a : Order) (r : MatchResult) (m : Matched)
      → limit_loop new_order f e a r ≡ ok m
      → IsFinished m.0 m.1
  unfolding limit_loop
  limit_loop-IsFinished zero e a r m h = absurd (cc h)
  limit_loop-IsFinished (suc f) e a r m h = elim (Bool-cases (a.quantity == 0)) [
    | inl z ↦ ended e a r m (rw z at h) (inl ((==_iff a.quantity 0).0 z))
    | inr nz ↦ elim (Option-cases (best_level (opposite a.side) e.book)) [
      | inl left ↦ ended e a r m (rw (nz, left) at h) (inr (inl left))
      | inr ((k, l), best) ↦ elim (Bool-cases (beyond_limit a l.price)) [
        | inl worse ↦ ended e a r m (rw (nz, best, worse) at h) (inr (inr (k, l, best, worse)))
        | inr better ↦
            let (n, _, h') =
              >>=-eq-ok (fill_front new_order e a (k, l) r) _ (rw (nz, best, better) at h) in
            limit_loop-IsFinished f n.0 n.1 n.2 m h'
      ]
    ]
  ]

  -- What `match_limit` leaves, if it gives a result, is in such a state.
  pub match_limit-IsFinished :
      (f : ℕ) (e : Engine) (a : Order) (r : MatchResult) (m : Matched)
      → match_limit new_order f e a r ≡ ok m
      → IsFinished m.0 m.1
  unfolding match_limit
  match_limit-IsFinished f e a r m done =
      let (n, looped, same) = >>=-eq-ok (limit_loop new_order f e a r) _ done in
      let same' : ◌≡◌ {A = Matched} (n.0, mark_filled n.1, n.2) m = cc same in
      subst (λ (k : Matched). IsFinished k.0 k.1) same'
        (mark_filled-IsFinished n.0 n.1 (limit_loop-IsFinished f e a r n looped))
