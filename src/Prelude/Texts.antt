-- ===== src/Prelude/Texts.antt =====
-- Texts as lists of bytes: comparison, and the pieces that repeated `std::getline` reads.
use Prim.Native.Nat.{ℕ}
use Prim.Native.Char.{code}
use Prim.Native.String.{String}
use mathlib.Core.Path.{◌≡◌, refl, ap, ◌∙◌}
use mathlib.Core.Logic.{◌≢◌}
use mathlib.Core.Bool.{Bool, true, false, ◌&&◌}
use mathlib.Core.List.{List, [], ◌∷◌, ◌++◌}
use native.Mathlib.Omega.{arith}
use lob_engine.Prelude.Tests.{◌==◌, ==_refl, if◌then◌else◌}
use lob_engine.Prelude.Lists.{member, All}

abbrev pub Bytes : Type 0
Bytes = List ℕ

-- The code points of a text: its bytes, if it is ASCII. `String` has its own `[]` and `∷`.
abbrev pub codes : String → Bytes
codes String.[] = []
codes (String.◌∷◌ c s) = code c ∷ codes s

abbrev pub same_bytes : Bytes → Bytes → Bool
same_bytes [] [] = true
same_bytes [] (c ∷ cs) = false
same_bytes (b ∷ bs) [] = false
same_bytes (b ∷ bs) (c ∷ cs) = b == c && same_bytes bs cs

pub same_bytes-eq : (bs cs : Bytes) → same_bytes bs cs ≡ true → bs ≡ cs
same_bytes-eq [] [] h = refl
same_bytes-eq [] (c ∷ cs) h = absurd (cc h)
same_bytes-eq (b ∷ bs) [] h = absurd (cc h)
same_bytes-eq (b ∷ bs) (c ∷ cs) h = ground (arith, same_bytes-eq bs cs)

pub same_bytes_refl : (bs : Bytes) → same_bytes bs bs ≡ true
same_bytes_refl [] = refl
same_bytes_refl (b ∷ bs) = rw (==_refl b) (same_bytes_refl bs)

-- `empty()`
abbrev pub is_empty : Bytes → Bool
is_empty [] = true
is_empty (c ∷ cs) = false

-- The byte goes in front of the first piece.
abbrev pub cons_first : ℕ → List Bytes → List Bytes
cons_first c [] = (c ∷ []) ∷ []
cons_first c (t ∷ ts) = (c ∷ t) ∷ ts

-- What `while (std::getline(stream, piece, delim))` reads: no piece stands behind a delimiter at the
-- end. `begun` says that the present piece has a byte already.
unfoldable pub pieces : ℕ → Bool → Bytes → List Bytes
pieces delim true [] = [] ∷ []
pieces delim false [] = []
pieces delim begun (c ∷ cs) =
    let piece_ends = pieces delim false cs in
    let piece_goes_on = pieces delim true cs in
    if c == delim then ([] ∷ piece_ends) else cons_first c piece_goes_on

-- The texts with a delimiter between them.
abbrev pub join : ℕ → List Bytes → Bytes
join delim [] = []
join delim (t ∷ []) = t
join delim (t ∷ u ∷ us) = t ++ delim ∷ join delim (u ∷ us)

pieces-last :
    (delim : ℕ) (begun : Bool) (t : Bytes)
    → member delim t ≡ false
    → t ≢ []
    → pieces delim begun t ≡ t ∷ []
unfolding pieces
pieces-last delim begun [] h n = absurd (n refl)
pieces-last delim begun (c ∷ []) h n = ground (arith, h)
pieces-last delim begun (c ∷ d ∷ ds) h n =
    ground (arith, h, pieces-last delim true (d ∷ ds) (ground (arith, h)) (λ e. cc e))

pieces-first :
    (delim : ℕ) (begun : Bool) (t rest : Bytes)
    → member delim t ≡ false
    → pieces delim begun (t ++ delim ∷ rest) ≡ t ∷ pieces delim false rest
unfolding pieces
pieces-first delim begun [] rest h = rw (==_refl delim) refl
pieces-first delim begun (c ∷ cs) rest h =
    ground (arith, h, pieces-first delim true cs rest (ground (arith, h)))

abbrev pub EndsFull : List Bytes → Type 0
EndsFull [] = Unit {0}
EndsFull (t ∷ []) = t ≢ []
EndsFull (t ∷ u ∷ us) = EndsFull (u ∷ us)

-- Texts without the delimiter, of which the last is not empty, are read back from their join.
pub pieces-join :
    (delim : ℕ) (ts : List Bytes)
    → All (λ t. member delim t ≡ false) ts
    → EndsFull ts
    → pieces delim false (join delim ts) ≡ ts
unfolding pieces
pieces-join delim [] h n = refl
pieces-join delim (t ∷ []) h n = pieces-last delim false t h.0 n
pieces-join delim (t ∷ u ∷ us) h n =
    pieces-first delim false t (join delim (u ∷ us)) h.0
    ∙ ap (◌∷◌ t) (pieces-join delim (u ∷ us) h.1 n)
