-- ===== src/Tools/Replay/Compares.antt =====
-- When the comparison of tools/replay.cpp succeeds.
use lob_engine.Prelude.{
  is_empty, ℕ, zero, suc, ◌≤◌, ◌<◌, ◌≡◌, refl, sym, ap, ◌∙◌, ◌↔◌, true, none, some, List, [], ◌∷◌,
  arith, Bool-cases, Option-cases, inl, inr, length, get_elem?, Bytes, same_bytes, same_bytes-eq,
  same_bytes_refl, if◌then◌else◌, ◌==◌,
}
use lob_engine.Tools.Replay.{compare_from, compare_expected}

-- The lines that are not empty.
abbrev pub full_lines : List Bytes → List Bytes
full_lines [] = []
full_lines (line ∷ lines) = if is_empty line then full_lines lines else line ∷ full_lines lines

abbrev drop : ℕ → List Bytes → List Bytes
drop zero ts = ts
drop (suc n) [] = []
drop (suc n) (t ∷ ts) = drop n ts

drop_at :
    (n : ℕ) (ts : List Bytes) (t : Bytes)
    → get_elem? ts n ≡ some t
    → drop n ts ≡ t ∷ drop (suc n) ts
drop_at n [] t h = absurd (cc h)
drop_at zero (u ∷ ts) t h = let same : u ≡ t = cc h in ap (λ x. x ∷ ts) same
drop_at (suc n) (u ∷ ts) t h = drop_at n ts t h

drop_past : (n : ℕ) (ts : List Bytes) → get_elem? ts n ≡ none → drop n ts ≡ []
drop_past zero [] h = refl
drop_past (suc n) [] h = refl
drop_past zero (u ∷ ts) h = absurd (cc h)
drop_past (suc n) (u ∷ ts) h = drop_past n ts h

drop-length :
    (n : ℕ) (ts : List Bytes) → n ≤ length ts → ((n == length ts) ≡ true) ↔ ([] ≡ drop n ts)
drop-length zero [] h = (λ _. refl, λ _. refl)
drop-length (suc n) [] h = absurd (omega (arith, h))
drop-length zero (t ∷ ts) h = (λ x. absurd (ground (arith, x)), λ x. absurd (cc x))
drop-length (suc n) (t ∷ ts) h =
    let (f, g) = drop-length n ts (omega (arith, h)) in
    (λ x. f (ground (arith, x)), λ x. ground (arith, g x))

get_elem?-lt : (n : ℕ) (ts : List Bytes) (t : Bytes) → get_elem? ts n ≡ some t → n < length ts
get_elem?-lt n [] t h = absurd (cc h)
get_elem?-lt zero (u ∷ ts) t h = omega arith
get_elem?-lt (suc n) (u ∷ ts) t h = omega (arith, get_elem?-lt n ts t h)

pub compare_from_iff :
    (trade_lines lines : List Bytes) (idx : ℕ)
    → idx ≤ length trade_lines
    → (compare_from trade_lines lines idx ≡ true) ↔ (full_lines lines ≡ drop idx trade_lines)
unfolding compare_from
compare_from_iff ts [] idx h = drop-length idx ts h
compare_from_iff ts (line ∷ lines) idx h = elim (Bool-cases (is_empty line)) [
  | inl e ↦ rw e (compare_from_iff ts lines idx h)
  | inr e ↦ elim (Option-cases (get_elem? ts idx)) [
    | inl n ↦ rw (e, n) (λ x. absurd (cc x), λ x. absurd (cc (x, drop_past idx ts n)))
    | inr (t, n) ↦
        let next = drop_at idx ts t n in
        elim (Bool-cases (same_bytes t line)) [
          | inl s ↦
              let (f, g) = compare_from_iff ts lines (suc idx) (get_elem?-lt idx ts t n) in
              let same = same_bytes-eq t line s in
              rw (e, n)
                (rw s (
                  λ x. ap (◌∷◌ line) (f x) ∙ ap (λ y. y ∷ drop (suc idx) ts) (sym same) ∙ sym next,
                  λ x. g (cc (x, next)),
                ))
          | inr s ↦
              rw (e, n)
                (rw s (
                  λ x. absurd (cc x),
                  λ x.
                      let same : t ≡ line = cc (x, next) in
                      absurd (cc (same, s, same_bytes_refl line)),
                ))
        ]
  ]
]

-- The comparison succeeds exactly if the lines behind the header of the expected file that are not
-- empty are the lines of the trades, one by one and in order.
pub compare_expected_iff :
    (trade_lines : List Bytes) (header : Bytes) (lines : List Bytes)
    → (compare_expected trade_lines (header ∷ lines) ≡ true) ↔ (full_lines lines ≡ trade_lines)
unfolding compare_expected
compare_expected_iff trade_lines header lines = compare_from_iff trade_lines lines 0 (omega arith)
