-- ===== src/Prelude/Words.antt =====
-- Machine integers. A `u32`, `u64` or `usize` is its value, a native number; an `i64` is the integer
-- that it stands for. Sums wrap, as they do in the release profile, and are written out as `% 2 ^ w`.
use Prim.Native.Nat.{ℕ, ◌+◌, ◌-◌, ◌%◌, ◌^◌, ◌<◌}
use mathlib.Core.Path.{◌≡◌, refl}
use native.Mathlib.Omega.{arith}
use delink.Prelude.Tests.{ltb, if◌then◌else◌}
use delink.Prelude.Int.{ℤ, pos, negsuc, ◌+ℤ◌, ◌-ℤ◌}

abbrev pub IsByte : ℕ → Type 0
IsByte b = b < 256

abbrev pub IsU32 : ℕ → Type 0
IsU32 n = n < 2 ^ 32

abbrev pub IsU64 : ℕ → Type 0
IsU64 n = n < 2 ^ 64

-- `a + b` on u64 and `a.wrapping_add(b)`.
abbrev pub add_u64 : ℕ → ℕ → ℕ
add_u64 a b = (a + b) % 2 ^ 64

-- `a - b` on u64.
abbrev pub sub_u64 : ℕ → ℕ → ℕ
sub_u64 a b = (a + 2 ^ 64 - b) % 2 ^ 64

-- `v as i64` of a u64.
unfoldable pub as_i64 : ℕ → ℤ
as_i64 n = if ltb n (2 ^ 63) then pos n else negsuc (2 ^ 64 - n - 1)

-- `z as u64`: the residue modulo 2 ^ 64. Every integer has one.
unfoldable pub as_u64 : ℤ → ℕ
as_u64 (pos n) = n % 2 ^ 64
as_u64 (negsuc n) = 2 ^ 64 - 1 - n % 2 ^ 64

-- `z as u32`, which is also the bit pattern of `z as i32`.
unfoldable pub as_u32 : ℤ → ℕ
unfolding as_u64
as_u32 z = as_u64 z % 2 ^ 32

-- i64 arithmetic wraps.
unfoldable pub wrap_i64 : ℤ → ℤ
unfolding as_i64 as_u64
wrap_i64 z = as_i64 (as_u64 z)

-- `v as i32 as i64 as u64` of a u32: the sign bit is copied upward.
unfoldable pub sign_extend_u32 : ℕ → ℕ
sign_extend_u32 v = if ltb v (2 ^ 31) then v else 2 ^ 64 - 2 ^ 32 + v

pub as_u64-lt : (z : ℤ) → as_u64 z < 2 ^ 64
unfolding as_u64
as_u64-lt (pos n) = omega arith
as_u64-lt (negsuc n) = omega arith

pub as_u64-pos : (n : ℕ) → as_u64 (pos n) ≡ n % 2 ^ 64
unfolding as_u64
as_u64-pos n = refl

pub as_u64-as_i64 : (n : ℕ) → IsU64 n → as_u64 (as_i64 n) ≡ n
unfolding as_u64 as_i64
as_u64-as_i64 n h = ground arith

pub as_u64-wrap_i64 : (z : ℤ) → as_u64 (wrap_i64 z) ≡ as_u64 z
unfolding wrap_i64
as_u64-wrap_i64 z = as_u64-as_i64 (as_u64 z) (as_u64-lt z)

-- The residue is a homomorphism: this is what makes wrapped address arithmetic exact.
pub as_u64-add : (a b : ℤ) → as_u64 (a +ℤ b) ≡ (as_u64 a + as_u64 b) % 2 ^ 64
unfolding as_u64 ◌+ℤ◌
as_u64-add (pos a) (pos b) = ground arith
as_u64-add (pos a) (negsuc b) = ground arith
as_u64-add (negsuc a) (pos b) = ground arith
as_u64-add (negsuc a) (negsuc b) = ground arith

pub as_u64-sub : (a b : ℤ) → as_u64 (a -ℤ b) ≡ (as_u64 a + (2 ^ 64 - as_u64 b)) % 2 ^ 64
unfolding as_u64 ◌-ℤ◌
as_u64-sub (pos a) (pos b) = ground arith
as_u64-sub (pos a) (negsuc b) = ground arith
as_u64-sub (negsuc a) (pos b) = ground arith
as_u64-sub (negsuc a) (negsuc b) = ground arith

pub sign_extend_u32-mod : (v : ℕ) → IsU32 v → sign_extend_u32 v % 2 ^ 32 ≡ v
unfolding sign_extend_u32
sign_extend_u32-mod v h = ground arith

sign_extend_u32-lt : (v : ℕ) → IsU32 v → sign_extend_u32 v < 2 ^ 64
unfolding sign_extend_u32
sign_extend_u32-lt v h = ground arith
