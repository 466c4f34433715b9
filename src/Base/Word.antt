-- ===== src/Base/Word.antt =====
-- Machine words. A w-bit unsigned value is a number below 2 ^ w, and its operations wrap; an
-- int64_t is the integer that it stands for.
use cpp_projects.Base.Int.{ℤ, pos, negsuc}
use Prim.Native.Nat.{ℕ, ◌+◌, ◌-◌, ◌%◌, ◌^◌, ◌<◌}
use mathlib.Core.Path.{◌≡◌}
use native.Mathlib.Omega.{arith}
use cpp_projects.Base.Tests.{ltb, if◌then◌else◌}

abbrev pub u64_mod : ℕ
u64_mod = 2 ^ 64

-- `~0U`.
abbrev pub u32_max : ℕ
u32_max = 2 ^ 32 - 1

-- `x++` on a uint64_t.
abbrev pub inc64 : ℕ → ℕ
inc64 x = (x + 1) % u64_mod

abbrev pub add64 : ℕ → ℕ → ℕ
add64 a b = (a + b) % u64_mod

abbrev pub sub64 : ℕ → ℕ → ℕ
sub64 a b = (a + u64_mod - b) % u64_mod

-- static_cast<uint64_t> of an int64_t.
unfoldable pub to_u64 : ℤ → ℕ
to_u64 (pos n) = n % u64_mod
to_u64 (negsuc n) = (u64_mod - 1 - n % u64_mod)

-- static_cast<int64_t> of a uint64_t.
unfoldable pub to_i64 : ℕ → ℤ
to_i64 n = if ltb n (2 ^ 63) then pos n else negsuc (u64_mod - 1 - n)

-- The integers that an int64_t holds.
pub data IsI64 : ℤ → Type 0 where
  pos_fits : {n : ℕ} → n < 2 ^ 63 → IsI64 (pos n)
  neg_fits : {n : ℕ} → n < 2 ^ 63 → IsI64 (negsuc n)

pub to_u64-lt : (z : ℤ) → to_u64 z < u64_mod
unfolding to_u64
to_u64-lt (pos n) = omega arith
to_u64-lt (negsuc n) = omega arith

-- The two casts are inverse on the values of an int64_t.
pub to_i64-to_u64 : (z : ℤ) → IsI64 z → to_i64 (to_u64 z) ≡ z
unfolding to_i64 to_u64
to_i64-to_u64 (pos n) (pos_fits h) = ground arith
to_i64-to_u64 (negsuc n) (neg_fits h) = ground arith
