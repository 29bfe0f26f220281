-- ===== src/X86.antt =====
-- crates/delink-x86/src/recover.rs: the branches and the exception list of 32-bit PE code.
pub mod Fixups
pub mod Fields
mod Tests
use delink.Prelude.{
  ℕ, ◌+◌, ◌-◌, ◌%◌, ◌^◌, Bool, true, false, ◌&&◌, not, Option, none, some, List, [], ◌∷◌, ◌++◌,
  get_elem?, ltb, leb, ◌==◌, if◌then◌else◌,
}
use delink.Prelude.Text.{Str}
use delink.Prelude.Int.{ℤ, pos}
use delink.Prelude.Words.{add_u64, sub_u64}

pub data RelocKind : Type 0 where
  rel32 dir32 : RelocKind

pub record RecoveredReloc : Type 0 where
  pub offset : ℕ
  pub pc : ℕ
  pub kind : RelocKind
  pub target : Str
  pub addend : ℤ

pub record RecoveryDiagnostics : Type 0 where
  pub instructions : ℕ
  pub decode_failures : ℕ
  pub calls_resolved : ℕ
  pub calls_unresolved : ℕ
  pub rip_refs_unresolved : ℕ

pub record RecoveryOutput : Type 0 where
  pub relocs : List RecoveredReloc
  pub diag : RecoveryDiagnostics
  pub rep_ret_offsets : List ℕ

-- What the caller answers; `is_intra_function` takes the function's address, size and a target.
pub record SymbolResolver : Type 0 where
  pub resolve_code : ℕ → Option (Str × ℤ)
  pub resolve_data : ℕ → Option (Str × ℤ)
  pub resolve_fs_zero : Option Str
  pub is_intra_function : ℕ → ℕ → ℕ → Bool

-- The provided method of the trait.
unfoldable pub default_is_intra_function : (fn_va fn_size target_va : ℕ) → Bool
default_is_intra_function fn_va fn_size target_va =
    leb fn_va target_va && ltb target_va (add_u64 fn_va fn_size)

-- The flow controls that the code tells apart.
pub data FlowControl : Type 0 where
  call unconditional_branch conditional_branch other_flow : FlowControl

-- What iced-x86 tells of a decoded instruction. `fs_absolute_zero` is the test that it accesses
-- memory through FS with no base, no index and a displacement of 0.
pub record Instruction : Type 0 where
  pub is_invalid : Bool
  pub ip : ℕ
  pub len : ℕ
  pub is_ret : Bool
  pub fs_absolute_zero : Bool
  pub displacement_size : ℕ
  pub displacement_offset : ℕ
  pub flow_control : FlowControl
  pub near_branch32 : ℕ

abbrev pub is_branch : FlowControl → Bool
is_branch FlowControl.other_flow = false
is_branch _ = true

abbrev pub is_rep_prefix : Option ℕ → Bool
is_rep_prefix none = false
is_rep_prefix (some b) = b == 0xf3

-- A `ret` of two bytes that starts with the REP prefix.
unfoldable pub note_rep_ret : List ℕ → ℕ → Instruction → RecoveryOutput → RecoveryOutput
note_rep_ret fn_bytes insn_offset insn out =
    if insn.is_ret && insn.len == 2 && is_rep_prefix (get_elem? fn_bytes insn_offset)
    then record out { rep_ret_offsets = out.rep_ret_offsets ++ (insn_offset ∷ []) }
    else out

abbrev pub push : RecoveredReloc → RecoveryOutput → RecoveryOutput
push r out = record out { relocs = out.relocs ++ (r ∷ []) }

abbrev pub fs_reloc : ℕ → Instruction → Str → RecoveredReloc
fs_reloc insn_offset insn target = record {
  offset = add_u64 insn_offset insn.displacement_offset;
  pc = insn.ip;
  kind = RelocKind.dir32;
  target = target;
  addend = pos 0;
}

unfoldable pub emit_fs_zero : SymbolResolver → ℕ → Instruction → RecoveryOutput → RecoveryOutput
emit_fs_zero resolver insn_offset insn out =
    let found : RecoveryOutput = elim (resolver.resolve_fs_zero) [
      | none ↦ out
      | some target ↦ push (fs_reloc insn_offset insn target) out
    ] in
    if insn.fs_absolute_zero && insn.displacement_size == 4 then found else out

abbrev pub branch_reloc : ℕ → Instruction → Str → ℤ → RecoveredReloc
branch_reloc insn_offset insn target addend = record {
  offset = add_u64 insn_offset (insn.len - 4);
  pc = insn.ip;
  kind = RelocKind.rel32;
  target = target;
  addend = addend;
}

-- A branch with a 32-bit field that leaves the function.
unfoldable pub leaves_function : SymbolResolver → (fn_va fn_size : ℕ) → Instruction → Bool
leaves_function resolver fn_va fn_size insn =
    is_branch insn.flow_control
    && leb 5 insn.len
    && not (resolver.is_intra_function fn_va fn_size insn.near_branch32)

unfoldable pub emit_branch :
    SymbolResolver → (fn_va fn_size : ℕ) → ℕ → Instruction → RecoveryOutput → RecoveryOutput
unfolding leaves_function
emit_branch resolver fn_va fn_size insn_offset insn out =
    let resolved : RecoveryOutput = elim (resolver.resolve_code insn.near_branch32) [
      | some (target, addend) ↦ record (push (branch_reloc insn_offset insn target addend) out) {
        diag = record (out.diag) { calls_resolved = out.diag.calls_resolved + 1 };
      }
      | none ↦ record out {
        diag = record (out.diag) { calls_unresolved = out.diag.calls_unresolved + 1 };
      }
    ] in
    if leaves_function resolver fn_va fn_size insn then resolved else out

abbrev pub count_instruction : RecoveryOutput → RecoveryOutput
count_instruction out = record out {
  diag = record (out.diag) { instructions = out.diag.instructions + 1 };
}

abbrev pub count_decode_failure : RecoveryOutput → RecoveryOutput
count_decode_failure out = record out {
  diag = record (out.diag) { decode_failures = out.diag.decode_failures + 1 };
}

-- `pc - (fn_va & 0xFFFF_FFFF)`
abbrev pub insn_offset_of : ℕ → Instruction → ℕ
insn_offset_of fn_va insn = sub_u64 insn.ip (fn_va % 2 ^ 32)

-- One round of the loop.
unfoldable pub step :
    SymbolResolver → List ℕ → (fn_va fn_size : ℕ) → Instruction → RecoveryOutput → RecoveryOutput
unfolding note_rep_ret emit_fs_zero emit_branch
step resolver fn_bytes fn_va fn_size insn out =
    let insn_offset = insn_offset_of fn_va insn in
    if insn.is_invalid
    then count_decode_failure (count_instruction out)
    else emit_branch resolver fn_va fn_size insn_offset insn (
        emit_fs_zero resolver insn_offset insn
          (note_rep_ret fn_bytes insn_offset insn (count_instruction out)))

unfoldable pub run :
    SymbolResolver
    → List ℕ
    → (fn_va fn_size : ℕ) → List Instruction
    → RecoveryOutput
    → RecoveryOutput
unfolding step
run resolver fn_bytes fn_va fn_size [] out = out
run resolver fn_bytes fn_va fn_size (insn ∷ insns) out =
    run resolver fn_bytes fn_va fn_size insns (step resolver fn_bytes fn_va fn_size insn out)

abbrev pub empty_output : RecoveryOutput
empty_output = record {
  relocs = [];
  diag = record {
    instructions = 0;
    decode_failures = 0;
    calls_resolved = 0;
    calls_unresolved = 0;
    rip_refs_unresolved = 0;
  };
  rep_ret_offsets = [];
}

-- `decode_all` is what iced-x86 decodes from the bytes at an instruction pointer.
unfoldable pub recover :
    (List ℕ → ℕ → List Instruction) → List ℕ → (fn_va fn_size : ℕ) → SymbolResolver → RecoveryOutput
unfolding run
recover decode_all fn_bytes fn_va fn_size resolver =
    run resolver fn_bytes fn_va fn_size (decode_all fn_bytes (fn_va % 2 ^ 32)) empty_output
