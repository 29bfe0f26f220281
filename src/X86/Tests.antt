-- ===== src/X86/Tests.antt =====
-- `mov eax, fs:[0]; call f; rep ret; jmp inside`, recovered.
use delink.Prelude.{
  All, Any, inl, inr, arith, ℕ, ◌≡◌, refl, Bool, true, false, none, some, List, [], ◌∷◌, ◌==◌,
  if◌then◌else◌,
}
use delink.Prelude.Text.{codes}
use delink.Prelude.Int.{pos}
use delink.X86.{
  RelocKind, RecoveryOutput, SymbolResolver, FlowControl, Instruction, default_is_intra_function,
  recover, empty_output,
}
use delink.X86.Fields.{Patches, PatchesBranch, IsFar, recover-Patches, recover-far}

abbrev resolver : SymbolResolver
resolver = record {
  resolve_code = λ va. if va == 0x500000 then some (codes "f", pos 0) else none;
  resolve_data = λ va. none;
  resolve_fs_zero = some (codes "__except_list");
  is_intra_function = default_is_intra_function;
}

abbrev insn : (ip len : ℕ) (fs ret : Bool) (size offset : ℕ) → FlowControl → ℕ → Instruction
insn ip len fs ret size offset flow target = record {
  is_invalid = false;
  ip = ip;
  len = len;
  is_ret = ret;
  fs_absolute_zero = fs;
  displacement_size = size;
  displacement_offset = offset;
  flow_control = flow;
  near_branch32 = target;
}

abbrev insns : List Instruction
insns =
    insn 0x704230 6 true false 4 2 FlowControl.other_flow 0
    ∷ insn 0x704236 5 false false 0 0 FlowControl.call 0x500000
    ∷ insn 0x70423b 2 false true 0 0 FlowControl.other_flow 0
    ∷ insn 0x70423d 5 false false 0 0 FlowControl.unconditional_branch 0x704230
    ∷ []

abbrev decode_all : List ℕ → ℕ → List Instruction
decode_all bytes ip = insns

abbrev bytes : List ℕ
bytes = 0x64 ∷ 0xa1 ∷ 0 ∷ 0 ∷ 0 ∷ 0 ∷ 0xe8 ∷ 0 ∷ 0 ∷ 0 ∷ 0 ∷ 0xf3 ∷ 0xc3 ∷ 0xe9 ∷ 0 ∷ 0 ∷ 0 ∷ 0 ∷ []

abbrev recovered : RecoveryOutput
recovered = record {
  relocs =
      record {
        offset = 2;
        pc = 0x704230;
        kind = RelocKind.dir32;
        target = codes "__except_list";
        addend = pos 0;
      }
      ∷ record {
        offset = 7;
        pc = 0x704236;
        kind = RelocKind.rel32;
        target = codes "f";
        addend = pos 0;
      }
      ∷ [];
  diag = record (empty_output.diag) { instructions = 4; calls_resolved = 1 };
  rep_ret_offsets = 11 ∷ [];
}

recovers : recover decode_all bytes 0x704230 18 resolver ≡ recovered
unfolding recover default_is_intra_function
recovers = refl

recover-Patches_example :
    All
      (λ r. Any (Patches resolver 0x704230 18 r) insns)
      (recover decode_all bytes 0x704230 18 resolver).relocs
recover-Patches_example = recover-Patches decode_all bytes 0x704230 18 resolver

abbrev far_call : Instruction
far_call = insn 0x704236 5 false false 0 0 FlowControl.call 0x500000

far_call-IsFar : IsFar resolver 0x704230 18 far_call
unfolding default_is_intra_function
far_call-IsFar = record { is_valid = refl; is_jump = tt; is_long = omega arith; is_outside = refl }

recover-far_example :
    Any
      (λ r. PatchesBranch resolver 0x704230 18 r far_call)
      (recover decode_all bytes 0x704230 18 resolver).relocs
recover-far_example =
    recover-far decode_all bytes 0x704230 18 resolver far_call (codes "f") (pos 0) (inr (inl refl))
      far_call-IsFar refl
