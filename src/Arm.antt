-- ===== src/Arm.antt =====
-- crates/delink-arm/src/recover.rs: the data of the recovery pass and the classification of
-- instructions. Disassembly is capstone's: what the code reads of it is the record `Capstone`.
pub mod Pools
pub mod Emit
pub mod Recover
pub mod Addend
pub mod Classify
mod Tests
use delink.Prelude.{
  ℕ, ◌+◌, ◌-◌, ◌%◌, ◌^◌, Bool, true, false, ◌&&◌, ◌||◌, not, Option, none, some, List, [], ◌∷◌,
  ◌==◌, if◌then◌else◌, length,
}
use delink.Prelude.Text.{Str, codes}
use delink.Prelude.Bytes.{starts_with, slice, from_le_bytes}
use delink.Prelude.Int.{ℤ}
use delink.Prelude.Words.{add_u64, sign_extend_u32}
use delink.Prelude.{leb}

pub data RelocKind : Type 0 where
  call jump24 rel32 got_prel abs32 prel31 : RelocKind

pub record RecoveredReloc : Type 0 where
  pub offset : ℕ
  pub pc : ℕ
  pub kind : RelocKind
  pub target : Str
  pub addend : ℤ
  pub target_addr : ℕ

pub record RecoveryDiagnostics : Type 0 where
  pub instructions : ℕ
  pub decode_failures : ℕ
  pub bl_resolved : ℕ
  pub bl_unresolved : ℕ
  pub pool_loads : ℕ
  pub pool_relocated : ℕ
  pub pool_unresolved : ℕ
  pub pool_out_of_range : ℕ
  pub got_slot_interior : ℕ
  pub pool_conflicts : ℕ

pub record RecoveryOutput : Type 0 where
  pub relocs : List RecoveredReloc
  pub diag : RecoveryDiagnostics

pub record CodeImage : Type 0 where
  pub base : ℕ
  pub bytes : List ℕ

-- The word at an address of the image: `checked_sub`, then `get(off..off + 4)`.
unfoldable pub word : CodeImage → ℕ → Option ℕ
word image addr =
    if leb image.base addr
    then elim (slice image.bytes (addr - image.base) (addr - image.base + 4)) [
      | none ↦ none
      | some bytes ↦ some (from_le_bytes bytes)
    ]
    else none

-- The instruction ids that the code tells apart.
pub data InsnId : Type 0 where
  add b bl blx bx bxj ldm ldr pop : InsnId
  other_id : InsnId

-- An immediate and a displacement are the bit patterns of the i32s that capstone gives; a missing
-- base or index register is 0.
pub data OperandType : Type 0 where
  reg : ℕ → OperandType
  imm : ℕ → OperandType
  mem : (base index disp : ℕ) → OperandType
  other_type : OperandType

-- `unshifted` is `matches!(op.shift, ArmShift::Invalid)`.
pub record Operand : Type 0 where
  pub op_type : OperandType
  pub unshifted : Bool
  pub subtracted : Bool

-- A decoded instruction. `detail` is `none` where `insn_detail` or `arch_detail().arm()` fails.
pub record Decoded : Type 0 where
  pub address : ℕ
  pub id : InsnId
  pub mnemonic : Option Str
  pub detail : Option (List Operand)

-- `disasm_all(bytes, addr)`, and the number of the program counter.
pub record Capstone : Type 0 where
  pub disasm_all : List ℕ → ℕ → Option (List Decoded)
  pub reg_pc : ℕ

pub record PoolLoad : Type 0 where
  pub pool_addr : ℕ
  pub value : ℕ

pub data Insn : Type 0 where
  branch : (link : Bool) (target : ℕ) → Insn
  pool_load : (rd pool_addr : ℕ) → Insn
  add_pc : (rd rn : ℕ) → Insn
  pc_indexed_load : (rd rn : ℕ) → Insn
  barrier : Insn
  other : Insn

abbrev pub arm_pc_bias : ℕ
arm_pc_bias = 8

unfoldable pub reg_of : Operand → Option ℕ
reg_of op = elim (op.op_type) [ OperandType.reg r ↦ some r | _ ↦ none ]

-- `v as u32 as u64` of the first immediate.
unfoldable pub first_imm : List Operand → Option ℕ
first_imm [] = none
first_imm (op ∷ ops) =
    let rest = first_imm ops in
    elim (op.op_type) [ OperandType.imm v ↦ some (v % 2 ^ 32) | _ ↦ rest ]

-- `ops.iter().filter_map(reg_of).collect()`
unfoldable pub regs_of : List Operand → List ℕ
unfolding reg_of
regs_of [] = []
regs_of (op ∷ ops) = let rest = regs_of ops in elim (reg_of op) [ some r ↦ r ∷ rest | none ↦ rest ]

unfoldable pub any_reg : ℕ → List ℕ → Bool
any_reg r [] = false
any_reg r (x ∷ xs) = x == r || any_reg r xs

-- `ldr rD, [pc, ...]` with two operands.
classify_load : Capstone → ℕ → List Operand → Option Insn
unfolding reg_of
classify_load cs address (a ∷ m ∷ []) = elim (reg_of a) [
  | none ↦ none
  | some rd ↦ elim (m.op_type) [
    | OperandType.mem base index disp ↦
        if base == cs.reg_pc && m.unshifted
        then if index == 0
          then some
              (Insn.pool_load rd (add_u64 (add_u64 address arm_pc_bias) (sign_extend_u32 disp)))
          else if not m.subtracted
          then some (Insn.pc_indexed_load rd index)
          else none
        else none
    | _ ↦ none
  ]
]
classify_load cs address ops = none

-- `add rD, pc, rN` with three operands.
classify_add : Capstone → List Operand → Option Insn
unfolding reg_of
classify_add cs (d ∷ n ∷ m ∷ []) =
    if m.unshifted
    then elim (reg_of d) [
      | none ↦ none
      | some rd ↦ elim (reg_of n) [
        | none ↦ none
        | some rn ↦ elim (reg_of m) [
          | none ↦ none
          | some rm ↦ if rn == cs.reg_pc then some (Insn.add_pc rd rm) else none
        ]
      ]
    ]
    else none
classify_add cs ops = none

unfoldable pub classify : Capstone → List Operand → Decoded → Insn
unfolding first_imm classify_load classify_add regs_of any_reg
classify cs ops insn = elim (insn.id) [
  | InsnId.bl ↦ elim (first_imm ops) [ some target ↦ Insn.branch true target | none ↦ Insn.barrier ]
  | InsnId.blx ↦ elim (first_imm ops) [
    | some target ↦ Insn.branch true target
    | none ↦ Insn.barrier
  ]
  | InsnId.b ↦ elim (first_imm ops) [ some target ↦ Insn.branch false target | none ↦ Insn.barrier ]
  | InsnId.bx ↦ Insn.barrier
  | InsnId.bxj ↦ Insn.barrier
  | InsnId.ldr ↦ elim (classify_load cs insn.address ops) [ some i ↦ i | none ↦ Insn.other ]
  | InsnId.add ↦ elim (classify_add cs ops) [ some i ↦ i | none ↦ Insn.other ]
  | InsnId.pop ↦ if any_reg cs.reg_pc (regs_of ops) then Insn.barrier else Insn.other
  | InsnId.ldm ↦ if any_reg cs.reg_pc (regs_of ops) then Insn.barrier else Insn.other
  | InsnId.other_id ↦ Insn.other
]

writes_none : Str → Bool
writes_none m =
    starts_with m (codes "str")
    || starts_with m (codes "vstr")
    || starts_with m (codes "stm")
    || starts_with m (codes "push")
    || starts_with m (codes "cmp")
    || starts_with m (codes "cmn")
    || starts_with m (codes "tst")
    || starts_with m (codes "teq")

first_of_ops : List Operand → List Operand
first_of_ops [] = []
first_of_ops (op ∷ ops) = op ∷ []

unfoldable pub written_registers : Str → List Operand → List ℕ
unfolding writes_none first_of_ops regs_of
written_registers m ops =
    if writes_none m
    then []
    else if starts_with m (codes "ldm") || starts_with m (codes "pop")
    then regs_of ops
    else regs_of (first_of_ops ops)

-- ELF relocation types (AAELF).
unfoldable pub elf_reloc_type : RelocKind → ℕ
elf_reloc_type RelocKind.call = 28
elf_reloc_type RelocKind.jump24 = 29
elf_reloc_type RelocKind.rel32 = 3
elf_reloc_type RelocKind.got_prel = 96
elf_reloc_type RelocKind.abs32 = 2
elf_reloc_type RelocKind.prel31 = 42
