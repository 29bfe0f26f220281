-- ===== src/Aarch64.antt =====
-- crates/delink-aarch64/src/recover.rs: the data of the AArch64 recovery, and what it reads of an instruction.
pub mod Recover
mod Tests
use delink.Prelude.{
  ℕ, zero, suc, Bool, true, false, ◌||◌, Option, none, some, List, [], ◌∷◌, ◌==◌, if◌then◌else◌,
  take,
}
use delink.Prelude.Text.{Str, codes}
use delink.Prelude.Eq.{str_eq}
use delink.Prelude.Int.{ℤ}
use delink.Prelude.Words.{sign_extend_u32}
use delink.Prelude.Bytes.{starts_with}

pub data RelocKind : Type 0 where
  call26 jump26 adr_prel_pg_hi21 add_abs_lo12_nc : RelocKind
  ldst8_abs_lo12_nc ldst16_abs_lo12_nc ldst32_abs_lo12_nc : RelocKind
  ldst64_abs_lo12_nc ldst128_abs_lo12_nc : RelocKind
  adr_got_page ld64_got_lo12_nc : RelocKind

pub record RecoveredReloc : Type 0 where
  pub offset : ℕ
  pub pc : ℕ
  pub kind : RelocKind
  pub target : Str
  pub addend : ℤ
  pub target_addr : ℕ

pub record RecoveryDiagnostics : Type 0 where
  pub instructions : ℕ
  pub decode_failures : ℕ
  pub bl_resolved : ℕ
  pub bl_unresolved : ℕ
  pub adrp_seen : ℕ
  pub adrp_paired : ℕ
  pub adrp_unpaired : ℕ
  pub adrp_unresolved : ℕ

pub record RecoveryOutput : Type 0 where
  pub relocs : List RecoveredReloc
  pub diag : RecoveryDiagnostics

pub record AdrpSite : Type 0 where
  pub insn_offset : ℕ
  pub pc : ℕ
  pub page_addr : ℕ

pub data LoKind : Type 0 where
  add ldst8 ldst16 ldst32 ldst64 ldst128 : LoKind

-- An operand as capstone gives it. An immediate is the bit pattern of an i64 and a displacement
-- that of an i32; a missing base or index register is 0.
pub data Operand : Type 0 where
  reg : ℕ → Operand
  imm : ℕ → Operand
  mem : (base index disp : ℕ) → Operand
  other_type : Operand

-- `detail` is `none` where `insn_detail` or `arch_detail().arm64()` fails.
pub record Decoded : Type 0 where
  pub address : ℕ
  pub mnemonic : Option Str
  pub detail : Option (List Operand)

pub record MemAccess : Type 0 where
  pub base : ℕ
  pub disp : ℕ

unfoldable pub imm_operand : List Operand → Option ℕ
imm_operand [] = none
imm_operand (op ∷ ops) = let rest = imm_operand ops in elim op [ Operand.imm v ↦ some v | _ ↦ rest ]

unfoldable pub reg_operands : List Operand → List ℕ
reg_operands [] = []
reg_operands (op ∷ ops) =
    let rest = reg_operands ops in elim op [ Operand.reg r ↦ r ∷ rest | _ ↦ rest ]

-- The first register operand.
unfoldable pub reg_write : List Operand → Option ℕ
reg_write [] = none
reg_write (op ∷ ops) = let rest = reg_write ops in elim op [ Operand.reg r ↦ some r | _ ↦ rest ]

-- `matches!(m, ...)` over a list of texts.
unfoldable pub is_one_of : Str → List Str → Bool
is_one_of m [] = false
is_one_of m (n ∷ ns) = str_eq m n || is_one_of m ns

abbrev pub num_writes : Str → ℕ
num_writes m =
    if (starts_with m (codes "str")
      || (is_one_of m
            (codes "stp" ∷ codes "stnp" ∷ codes "stur" ∷ codes "sturb" ∷ codes "sturh" ∷ [])
          || (is_one_of m
                (codes "cmp" ∷ codes "cmn" ∷ codes "tst" ∷ codes "ccmp" ∷ codes "ccmn" ∷ [])
              || (starts_with m (codes "b")
                  || is_one_of m (
                      codes "ret"
                      ∷ codes "cbz"
                      ∷ codes "cbnz"
                      ∷ codes "tbz"
                      ∷ codes "tbnz"
                      ∷ [])))))
    then 0
    else if is_one_of m (codes "ldp" ∷ codes "ldnp" ∷ codes "ldaxp" ∷ codes "ldxp" ∷ [])
    then 2
    else 1

-- The registers that an instruction is taken to write, by its mnemonic.
unfoldable pub write_regs : Str → List Operand → List ℕ
unfolding reg_operands is_one_of starts_with
write_regs m ops = take (num_writes m) (reg_operands ops)

-- `add Rd, Rn, #imm`, with whatever operands follow.
unfoldable pub add_imm_operands : List Operand → Option (ℕ × (ℕ × ℕ))
add_imm_operands (Operand.reg rd ∷ Operand.reg rn ∷ Operand.imm v ∷ ops) = some (rd, (rn, v))
add_imm_operands _ = none

-- The first memory operand, where it has a base and no index.
unfoldable pub mem_imm_operand : List Operand → Option MemAccess
mem_imm_operand [] = none
mem_imm_operand (op ∷ ops) =
    let rest = mem_imm_operand ops in
    elim op [
      | Operand.mem base index disp ↦
          if base == 0
          then none
          else if index == 0
          then some (record { base = base; disp = sign_extend_u32 disp })
          else none
      | _ ↦ rest
    ]

unfoldable pub is_mem_load_or_store : Str → Bool
unfolding is_one_of
is_mem_load_or_store m = is_one_of m (
    codes "ldr"
    ∷ codes "ldrb"
    ∷ codes "ldrh"
    ∷ codes "ldrsb"
    ∷ codes "ldrsh"
    ∷ codes "ldrsw"
    ∷ codes "ldur"
    ∷ codes "str"
    ∷ codes "strb"
    ∷ codes "strh"
    ∷ codes "stur"
    ∷ codes "ldp"
    ∷ codes "stp"
    ∷ [])

unfoldable pub lo_kind_for_mem : Str → LoKind
unfolding is_one_of
lo_kind_for_mem m =
    if is_one_of m (codes "ldrb" ∷ codes "strb" ∷ codes "ldrsb" ∷ [])
    then LoKind.ldst8
    else if is_one_of m (codes "ldrh" ∷ codes "strh" ∷ codes "ldrsh" ∷ [])
    then LoKind.ldst16
    else if str_eq m (codes "ldrsw")
    then LoKind.ldst32
    else LoKind.ldst64

unfoldable pub lo_direct : LoKind → RelocKind
lo_direct LoKind.add = RelocKind.add_abs_lo12_nc
lo_direct LoKind.ldst8 = RelocKind.ldst8_abs_lo12_nc
lo_direct LoKind.ldst16 = RelocKind.ldst16_abs_lo12_nc
lo_direct LoKind.ldst32 = RelocKind.ldst32_abs_lo12_nc
lo_direct LoKind.ldst64 = RelocKind.ldst64_abs_lo12_nc
lo_direct LoKind.ldst128 = RelocKind.ldst128_abs_lo12_nc
