-- ===== src/X64.antt =====
-- crates/delink-x86_64/src/recover.rs: what the pass takes and returns.
pub mod Tables
pub mod Recover
mod Tests
use delink.Prelude.{
  ℕ, ◌+◌, ◌-◌, Bool, true, false, ◌&&◌, not, Option, none, some, List, [], ◌∷◌, ◌++◌, ltb, leb,
  ◌==◌,
}
use delink.Prelude.Text.{Str}
use delink.Prelude.Int.{ℤ}
use delink.Prelude.Words.{add_u64, sub_u64}

pub data RelocKind : Type 0 where
  rel32 : (trailing : ℕ) → RelocKind
  addr32_nb secrel addr64 : RelocKind

pub record RecoveredJumpTable : Type 0 where
  pub name : Str
  pub offset : ℕ
  pub entry_count : ℕ

pub record RecoveredReloc : Type 0 where
  pub offset : ℕ
  pub pc : ℕ
  pub kind : RelocKind
  pub target : Str
  pub addend : ℤ

pub record RecoveryDiagnostics : Type 0 where
  pub instructions : ℕ
  pub decode_failures : ℕ
  pub calls_resolved : ℕ
  pub calls_unresolved : ℕ
  pub rip_refs_resolved : ℕ
  pub rip_refs_unresolved : ℕ

pub record RecoveryOutput : Type 0 where
  pub relocs : List RecoveredReloc
  pub jump_tables : List RecoveredJumpTable
  pub diag : RecoveryDiagnostics
  pub rep_ret_offsets : List ℕ

-- What the caller answers; `is_intra_function` takes the function's address, size and a target.
pub record SymbolResolver : Type 0 where
  pub resolve_code : ℕ → Option (Str × ℤ)
  pub resolve_data : ℕ → Option (Str × ℤ)
  pub image_base : ℕ
  pub in_text : ℕ → Bool
  pub resolve_tls_offset : ℕ → Option (Str × ℤ)
  pub is_intra_function : ℕ → ℕ → ℕ → Bool

-- The provided method of the trait.
unfoldable pub default_is_intra_function : (fn_va fn_size target_va : ℕ) → Bool
default_is_intra_function fn_va fn_size target_va =
    leb fn_va target_va && ltb target_va (add_u64 fn_va fn_size)

-- A register of iced-x86, as far as the code tells registers apart: a part of the general purpose
-- register with a number, the instruction pointer, GS, or any other.
pub data Register : Type 0 where
  gpr : ℕ → Register
  rip gs other_register : Register

unfoldable pub gpr64_index : Register → Option ℕ
gpr64_index (gpr n) = some n
gpr64_index rip = none
gpr64_index gs = none
gpr64_index other_register = none

pub data OpAccess : Type 0 where
  no_access read cond_read write cond_write read_write read_cond_write no_mem_access : OpAccess

abbrev pub is_write : OpAccess → Bool
is_write write = true
is_write read_write = true
is_write cond_write = true
is_write read_cond_write = true
is_write _ = false

pub record UsedRegister : Type 0 where
  pub register : Register
  pub access : OpAccess

pub data FlowControl : Type 0 where
  call unconditional_branch conditional_branch other_flow : FlowControl

pub data Mnemonic : Type 0 where
  ret mov lea other_mnemonic : Mnemonic

pub data OpKind : Type 0 where
  register immediate32 memory other_kind : OpKind

-- What iced-x86 tells of a decoded instruction. `op_kinds` are the kinds of its operands.
pub record Instruction : Type 0 where
  pub is_invalid : Bool
  pub ip : ℕ
  pub len : ℕ
  pub mnemonic : Mnemonic
  pub flow_control : FlowControl
  pub near_branch64 : ℕ
  pub used_registers : List UsedRegister
  pub memory_segment : Register
  pub memory_base : Register
  pub memory_displacement64 : ℕ
  pub op0_kind : OpKind
  pub op1_kind : OpKind
  pub op0_register : Register
  pub op_kinds : List OpKind
  pub immediate32 : ℕ
  pub immediate_offset : ℕ
  pub immediate_size : ℕ
  pub immediate_size2 : ℕ
  pub displacement_offset : ℕ

abbrev pub is_branch : FlowControl → Bool
is_branch FlowControl.other_flow = false
is_branch _ = true

abbrev pub is_ret : Mnemonic → Bool
is_ret Mnemonic.ret = true
is_ret _ = false

abbrev pub is_mov : Mnemonic → Bool
is_mov Mnemonic.mov = true
is_mov _ = false

abbrev pub is_lea : Mnemonic → Bool
is_lea Mnemonic.lea = true
is_lea _ = false

abbrev pub is_register : OpKind → Bool
is_register OpKind.register = true
is_register _ = false

abbrev pub is_immediate32 : OpKind → Bool
is_immediate32 OpKind.immediate32 = true
is_immediate32 _ = false

abbrev pub is_memory : OpKind → Bool
is_memory OpKind.memory = true
is_memory _ = false

abbrev pub is_rip : Register → Bool
is_rip rip = true
is_rip _ = false

abbrev pub is_gs : Register → Bool
is_gs gs = true
is_gs _ = false

-- The loop's variables.
pub record State : Type 0 where
  pub out : RecoveryOutput
  pub imgbase : List Bool
  pub tls_context : Bool
  pub tls_candidates : List RecoveredReloc

abbrev pub insn_offset_of : ℕ → Instruction → ℕ
insn_offset_of fn_va insn = sub_u64 insn.ip fn_va

abbrev pub push : RecoveredReloc → RecoveryOutput → RecoveryOutput
push r out = record out { relocs = out.relocs ++ (r ∷ []) }
