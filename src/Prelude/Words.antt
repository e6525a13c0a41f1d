-- ===== src/Prelude/Words.antt =====
-- uint64_t arithmetic on numbers below 2 ^ 64, with the wrap written out.
use Prim.Native.Nat.{ℕ, ◌+◌, ◌-◌, ◌%◌, ◌^◌, ◌≤◌, ◌<◌}
use mathlib.Core.Path.{◌≡◌}
use native.Mathlib.Omega.{arith}
use lob_engine.Prelude.Tests.{leb, if◌then◌else◌}

abbrev pub u64_mod : ℕ
u64_mod = 2 ^ 64

unfoldable pub add64 : ℕ → ℕ → ℕ
add64 a b = (a + b) % u64_mod

-- Below 2 ^ 64 this is (a - b) mod 2 ^ 64.
unfoldable pub sub64 : ℕ → ℕ → ℕ
sub64 a b = if leb b a then a - b else a + u64_mod - b

pub add64-of_lt : (a b : ℕ) → a + b < u64_mod → add64 a b ≡ a + b
unfolding add64
add64-of_lt a b h = omega (arith, h)

pub sub64-of_le : (a b : ℕ) → b ≤ a → sub64 a b ≡ a - b
unfolding sub64
sub64-of_le a b h = ground arith
