-- ===== src/Arm/Recover/Relink/Fields.antt =====
-- crates/delink-arm/src/recover.rs: the arithmetic of a relocated pool word and of a branch.
use delink.Prelude.{ℕ, ◌-◌, ◌^◌, ◌≤◌, ◌≡◌, refl, arith}
use delink.Prelude.Eq.{nat_eq}
use delink.Prelude.Int.{ℤ, pos, negsuc, ◌+ℤ◌, ◌-ℤ◌}
use delink.Prelude.Words.{
  IsU32, IsU64, add_u64, sign_extend_u32, as_i64, as_u64, as_u32, wrap_i64, as_u64-lt, as_u64-pos,
  as_u64-as_i64, as_u64-wrap_i64, as_u64-add, as_u64-sub, sign_extend_u32-mod,
}
use delink.Arm.{arm_pc_bias}
use delink.Arm.Emit.{pool_distance}

-- The arithmetic of a pool word: the symbol reaches what the register held.
pub pool_field :
    (base p pc v : ℕ) (ra : ℤ)
    → IsU64 p
    → IsU32 v
    → as_u64 (pos base +ℤ ra) ≡ add_u64 (add_u64 pc arm_pc_bias) (sign_extend_u32 v)
    → as_u32 (
        pos base
        +ℤ wrap_i64 (pool_distance (record { pool_addr = p; value = v }) pc +ℤ ra)
        -ℤ pos p)
      ≡ v
pool_field base p pc v ra hp hv reach =
    let b : ℕ = add_u64 pc arm_pc_bias in
    let d : ℤ = as_i64 p -ℤ as_i64 b in
    let a : ℤ = wrap_i64 (wrap_i64 d +ℤ ra) in
    unfold as_u32 in
    omega (
      arith,
      reach,
      as_u64-sub (pos base +ℤ a) (pos p),
      as_u64-add (pos base) a,
      as_u64-wrap_i64 (wrap_i64 d +ℤ ra),
      as_u64-add (wrap_i64 d) ra,
      as_u64-wrap_i64 d,
      as_u64-sub (as_i64 p) (as_i64 b),
      as_u64-as_i64 p hp,
      as_u64-as_i64 b (omega arith),
      as_u64-add (pos base) ra,
      as_u64-pos p,
      sign_extend_u32-mod v hv,
      as_u64-lt ra,
      as_u64-lt (pos base),
    )

pub slot_field :
    (slot p pc v : ℕ)
    → IsU64 p
    → IsU32 v
    → slot ≡ add_u64 (add_u64 pc arm_pc_bias) (sign_extend_u32 v)
    → as_u32 (pos slot +ℤ pool_distance (record { pool_addr = p; value = v }) pc -ℤ pos p) ≡ v
slot_field slot p pc v hp hv e =
    let b : ℕ = add_u64 pc arm_pc_bias in
    let d : ℤ = as_i64 p -ℤ as_i64 b in
    unfold as_u32 in
    omega (
      arith,
      e,
      as_u64-sub (pos slot +ℤ wrap_i64 d) (pos p),
      as_u64-add (pos slot) (wrap_i64 d),
      as_u64-wrap_i64 d,
      as_u64-sub (as_i64 p) (as_i64 b),
      as_u64-as_i64 p hp,
      as_u64-as_i64 b (omega arith),
      as_u64-pos p,
      as_u64-pos slot,
      sign_extend_u32-mod v hv,
    )

pub bias_self : (t : ℕ) → IsU64 t → as_u64 (pos t +ℤ negsuc 7 +ℤ pos arm_pc_bias) ≡ t
bias_self t h = omega (
  arith,
  as_u64-add (pos t +ℤ negsuc 7) (pos arm_pc_bias),
  as_u64-add (pos t) (negsuc 7),
  as_u64-pos t,
  as_u64-pos arm_pc_bias,
  minus_eight,
)
  where
    minus_eight : as_u64 (negsuc 7) ≡ 2 ^ 64 - 8
    minus_eight = unfold as_u64 in refl

pub bias_interior :
    (base t : ℕ)
    → IsU64 t
    → base ≤ t
    → as_u64 (pos base +ℤ wrap_i64 (negsuc 7 +ℤ as_i64 (t - base)) +ℤ pos arm_pc_bias) ≡ t
bias_interior base t h le =
    let delta : ℤ = as_i64 (t - base) in
    omega (
      arith,
      as_u64-add (pos base +ℤ wrap_i64 (negsuc 7 +ℤ delta)) (pos arm_pc_bias),
      as_u64-add (pos base) (wrap_i64 (negsuc 7 +ℤ delta)),
      as_u64-wrap_i64 (negsuc 7 +ℤ delta),
      as_u64-add (negsuc 7) delta,
      as_u64-as_i64 (t - base) (omega arith),
      as_u64-pos base,
      as_u64-pos arm_pc_bias,
      minus_eight,
    )
  where
    minus_eight : as_u64 (negsuc 7) ≡ 2 ^ 64 - 8
    minus_eight = unfold as_u64 in refl
