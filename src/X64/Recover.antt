-- ===== src/X64/Recover.antt =====
-- crates/delink-x86_64/src/recover.rs, `recover`.
pub mod Origin
pub mod Base
pub mod Adds
pub mod Sound
use delink.Prelude.{
  ℕ, zero, suc, ◌+◌, ◌-◌, ◌%◌, ◌^◌, Bool, true, false, ◌&&◌, not, Option, none, some, List, [], ◌∷◌,
  ◌++◌, get_elem?, get_or, set, replicate, ltb, leb, ◌==◌, if◌then◌else◌,
}
use delink.Prelude.Text.{Str}
use delink.Prelude.Int.{ℤ}
use delink.Prelude.Words.{add_u64, sub_u64}
use delink.X64.{
  RelocKind, RecoveredReloc, RecoveryDiagnostics, RecoveryOutput, SymbolResolver, Register,
  gpr64_index, UsedRegister, is_write, OpKind, Instruction, is_branch, is_ret, is_mov, is_lea,
  is_register, is_immediate32, is_memory, is_rip, is_gs, State, insn_offset_of, push,
}
use delink.X64.Tables.{emit_rva}

abbrev pub is_rep_prefix : Option ℕ → Bool
is_rep_prefix none = false
is_rep_prefix (some b) = b == 0xf3

-- A `ret` of two bytes that starts with the REP prefix.
unfoldable pub note_rep_ret : List ℕ → ℕ → Instruction → RecoveryOutput → RecoveryOutput
note_rep_ret fn_bytes insn_offset insn out =
    if is_ret insn.mnemonic && insn.len == 2 && is_rep_prefix (get_elem? fn_bytes insn_offset)
    then record out { rep_ret_offsets = out.rep_ret_offsets ++ (insn_offset ∷ []) }
    else out

-- The registers that the instruction writes no longer hold the image base.
unfoldable pub invalidate : List UsedRegister → List Bool → List Bool
unfolding gpr64_index
invalidate [] imgbase = imgbase
invalidate (u ∷ used) imgbase = invalidate used (
    if is_write u.access
    then elim (gpr64_index u.register) [ none ↦ imgbase | some i ↦ set imgbase i false ]
    else imgbase)

-- `gs:[0x58]`
abbrev pub reads_tls_pointer : Instruction → Bool
reads_tls_pointer insn = is_gs insn.memory_segment && insn.memory_displacement64 == 0x58

abbrev pub loads_immediate : Instruction → Bool
loads_immediate insn =
    is_mov insn.mnemonic && is_register insn.op0_kind && is_immediate32 insn.op1_kind

abbrev pub tls_reloc : ℕ → Instruction → Str → ℤ → RecoveredReloc
tls_reloc fn_va insn target addend = record {
  offset = add_u64 (insn_offset_of fn_va insn) insn.immediate_offset;
  pc = insn.ip;
  kind = RelocKind.secrel;
  target = target;
  addend = addend;
}

-- The thread-local reference that an immediate may be, kept for the end.
unfoldable pub tls_candidate :
    SymbolResolver → ℕ → Instruction → List RecoveredReloc → List RecoveredReloc
tls_candidate resolver fn_va insn candidates =
    let found : List RecoveredReloc = elim (resolver.resolve_tls_offset insn.immediate32) [
      | none ↦ candidates
      | some (target, addend) ↦ candidates ++ (tls_reloc fn_va insn target addend ∷ [])
    ] in
    if loads_immediate insn then found else candidates

abbrev pub branch_reloc : ℕ → Instruction → Str → ℤ → RecoveredReloc
branch_reloc fn_va insn target addend = record {
  offset = add_u64 (insn_offset_of fn_va insn) (insn.len - 4);
  pc = insn.ip;
  kind = RelocKind.rel32 0;
  target = target;
  addend = addend;
}

-- A branch with a 32-bit field that leaves the function.
abbrev pub leaves_function : SymbolResolver → (fn_va fn_size : ℕ) → Instruction → Bool
leaves_function resolver fn_va fn_size insn =
    leb 5 insn.len && not (resolver.is_intra_function fn_va fn_size insn.near_branch64)

unfoldable pub emit_branch :
    SymbolResolver → (fn_va fn_size : ℕ) → Instruction → RecoveryOutput → RecoveryOutput
emit_branch resolver fn_va fn_size insn out =
    let resolved : RecoveryOutput = elim (resolver.resolve_code insn.near_branch64) [
      | some (target, addend) ↦ record (push (branch_reloc fn_va insn target addend) out) {
        diag = record (out.diag) { calls_resolved = out.diag.calls_resolved + 1 };
      }
      | none ↦ record out {
        diag = record (out.diag) { calls_unresolved = out.diag.calls_unresolved + 1 };
      }
    ] in
    if leaves_function resolver fn_va fn_size insn then resolved else out

-- The bytes of the immediates behind the displacement, as a u8.
abbrev pub trailing_of : Instruction → ℕ
trailing_of insn = (insn.immediate_size + insn.immediate_size2) % 2 ^ 8

abbrev pub rip_reloc : ℕ → Instruction → Str → ℤ → RecoveredReloc
rip_reloc fn_va insn target addend = record {
  offset = add_u64 (insn_offset_of fn_va insn) insn.displacement_offset;
  pc = insn.ip;
  kind = RelocKind.rel32 (trailing_of insn);
  target = target;
  addend = addend;
}

-- `[rip + disp32]`
unfoldable pub emit_rip : SymbolResolver → ℕ → Instruction → RecoveryOutput → RecoveryOutput
emit_rip resolver fn_va insn out = elim (resolver.resolve_data insn.memory_displacement64) [
  | some (target, addend) ↦ record (push (rip_reloc fn_va insn target addend) out) {
    diag = record (out.diag) { rip_refs_resolved = out.diag.rip_refs_resolved + 1 };
  }
  | none ↦ record out {
    diag = record (out.diag) { rip_refs_unresolved = out.diag.rip_refs_unresolved + 1 };
  }
]

-- Does the register hold the image base?
abbrev pub holds_base : List Bool → Register → Bool
holds_base imgbase r = elim (gpr64_index r) [ none ↦ false | some i ↦ get_or imgbase i false ]

-- The operands up to the first that breaks the loop.
unfoldable pub emit_operands :
    SymbolResolver
    → List ℕ
    → (fn_va fn_size : ℕ) → Instruction
    → List Bool
    → List OpKind
    → RecoveryOutput
    → RecoveryOutput
unfolding emit_rip emit_rva gpr64_index
emit_operands resolver fn_bytes fn_va fn_size insn imgbase [] out = out
emit_operands resolver fn_bytes fn_va fn_size insn imgbase (kind ∷ kinds) out =
    let rest = emit_operands resolver fn_bytes fn_va fn_size insn imgbase kinds out in
    if not (is_memory kind)
    then rest
    else if is_rip insn.memory_base
    then emit_rip resolver fn_va insn out
    else if holds_base imgbase insn.memory_base
    then emit_rva resolver fn_bytes fn_va fn_size insn out
    else rest

-- `lea reg, [rip + imagebase]`
abbrev pub loads_base : SymbolResolver → Instruction → Bool
loads_base resolver insn =
    is_lea insn.mnemonic
    && is_register insn.op0_kind
    && is_memory insn.op1_kind
    && is_rip insn.memory_base
    && insn.memory_displacement64 == resolver.image_base

unfoldable pub establish : SymbolResolver → Instruction → List Bool → List Bool
unfolding gpr64_index
establish resolver insn imgbase =
    let marked : List Bool = elim (gpr64_index insn.op0_register) [
      | none ↦ imgbase
      | some i ↦ set imgbase i true
    ] in
    if loads_base resolver insn then marked else imgbase

abbrev pub count_instruction : RecoveryOutput → RecoveryOutput
count_instruction out = record out {
  diag = record (out.diag) { instructions = out.diag.instructions + 1 };
}

abbrev pub count_decode_failure : RecoveryOutput → RecoveryOutput
count_decode_failure out = record out {
  diag = record (out.diag) { decode_failures = out.diag.decode_failures + 1 };
}

-- A valid instruction: a branch is done with its target, any other goes on to its operands.
unfoldable pub step_valid :
    SymbolResolver → List ℕ → (fn_va fn_size : ℕ) → Instruction → State → State
unfolding note_rep_ret invalidate tls_candidate emit_branch emit_operands establish
step_valid resolver fn_bytes fn_va fn_size insn st =
    let out = note_rep_ret fn_bytes (insn_offset_of fn_va insn) insn st.out in
    let imgbase = invalidate insn.used_registers st.imgbase in
    let tls : State = record {
      out = out;
      imgbase = imgbase;
      tls_context = if reads_tls_pointer insn then true else st.tls_context;
      tls_candidates = tls_candidate resolver fn_va insn st.tls_candidates;
    } in
    if is_branch insn.flow_control
    then record tls { out = emit_branch resolver fn_va fn_size insn out }
    else record tls {
      out = emit_operands resolver fn_bytes fn_va fn_size insn imgbase insn.op_kinds out;
      imgbase = establish resolver insn imgbase;
    }

-- One round of the loop.
unfoldable pub step : SymbolResolver → List ℕ → (fn_va fn_size : ℕ) → Instruction → State → State
unfolding step_valid
step resolver fn_bytes fn_va fn_size insn st =
    let counted : State = record st { out = count_instruction st.out } in
    if insn.is_invalid
    then record counted { out = count_decode_failure counted.out }
    else step_valid resolver fn_bytes fn_va fn_size insn counted

unfoldable pub run :
    SymbolResolver → List ℕ → (fn_va fn_size : ℕ) → List Instruction → State → State
unfolding step
run resolver fn_bytes fn_va fn_size [] st = st
run resolver fn_bytes fn_va fn_size (insn ∷ insns) st =
    run resolver fn_bytes fn_va fn_size insns (step resolver fn_bytes fn_va fn_size insn st)

-- The thread-local references count only if the function reads the pointer to the storage.
unfoldable pub commit : State → RecoveryOutput
commit st =
    let out = st.out in
    if st.tls_context then record out { relocs = out.relocs ++ st.tls_candidates } else out

abbrev pub empty_output : RecoveryOutput
empty_output = record {
  relocs = [];
  jump_tables = [];
  diag = record {
    instructions = 0;
    decode_failures = 0;
    calls_resolved = 0;
    calls_unresolved = 0;
    rip_refs_resolved = 0;
    rip_refs_unresolved = 0;
  };
  rep_ret_offsets = [];
}

abbrev pub initial : State
initial = record {
  out = empty_output;
  imgbase = replicate 16 false;
  tls_context = false;
  tls_candidates = [];
}

-- `decode_all` is what iced-x86 decodes from the bytes at an instruction pointer.
unfoldable pub recover :
    (List ℕ → ℕ → List Instruction) → List ℕ → (fn_va fn_size : ℕ) → SymbolResolver → RecoveryOutput
unfolding run commit
recover decode_all fn_bytes fn_va fn_size resolver =
    commit (run resolver fn_bytes fn_va fn_size (decode_all fn_bytes fn_va) initial)
