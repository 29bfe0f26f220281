-- ===== src/X64/Tests.antt =====
-- `lea rdx, [rip + imagebase]; mov ecx, [rdx + rax*4 + table]; call f; mov eax, offset; mov rcx,
-- gs:[0x58]` and a table of two cases, recovered.
use delink.Prelude.{
  ℕ, ◌≡◌, refl, true, false, none, some, List, [], ◌∷◌, ◌++◌, ◌==◌, if◌then◌else◌, All, replicate,
}
use delink.Prelude.Text.{codes, hex}
use delink.Prelude.Int.{pos}
use delink.X64.{
  RelocKind, RecoveryOutput, SymbolResolver, Register, OpAccess, FlowControl, Mnemonic, OpKind,
  Instruction, default_is_intra_function,
}
use delink.X64.Recover.{recover}
use delink.X64.Recover.Origin.{IsListed, rev_onto}
use delink.X64.Recover.Sound.{IsCaused, recover-IsCaused, recover-IsListed}

abbrev resolver : SymbolResolver
resolver = record {
  resolve_code = λ va.
      if va == 0x140005000
      then some (codes "f", pos 0)
      else if va == 0x140001004
      then some (codes "g", pos 4)
      else if va == 0x140001008
      then some (codes "g", pos 8)
      else none;
  resolve_data = λ va. none;
  image_base = 0x140000000;
  in_text = λ va. true;
  resolve_tls_offset = λ offset. if offset == 8 then some (codes "t", pos 0) else none;
  is_intra_function = default_is_intra_function;
}

abbrev plain : (ip len : ℕ) → Instruction
plain ip len = record {
  is_invalid = false;
  ip = ip;
  len = len;
  mnemonic = Mnemonic.other_mnemonic;
  flow_control = FlowControl.other_flow;
  near_branch64 = 0;
  used_registers = [];
  memory_segment = Register.other_register;
  memory_base = Register.other_register;
  memory_displacement64 = 0;
  op0_kind = OpKind.register;
  op1_kind = OpKind.register;
  op0_register = Register.other_register;
  op_kinds = [];
  immediate32 = 0;
  immediate_offset = 0;
  immediate_size = 0;
  immediate_size2 = 0;
  displacement_offset = 0;
}

abbrev insns : List Instruction
insns =
    record (plain 0x140001000 7) {
      mnemonic = Mnemonic.lea;
      used_registers = record { register = Register.gpr 2; access = OpAccess.write } ∷ [];
      memory_base = Register.rip;
      memory_displacement64 = 0x140000000;
      op1_kind = OpKind.memory;
      op0_register = Register.gpr 2;
      displacement_offset = 3;
    }
    ∷ record (plain 0x140001007 7) {
      mnemonic = Mnemonic.mov;
      used_registers =
          record { register = Register.gpr 1; access = OpAccess.write }
          ∷ record { register = Register.gpr 2; access = OpAccess.read }
          ∷ [];
      memory_base = Register.gpr 2;
      memory_displacement64 = 0x1020;
      op_kinds = OpKind.register ∷ OpKind.memory ∷ [];
      displacement_offset = 3;
    }
    ∷ record (plain 0x14000100e 5) { flow_control = FlowControl.call; near_branch64 = 0x140005000 }
    ∷ record (plain 0x140001013 5) {
      mnemonic = Mnemonic.mov;
      op1_kind = OpKind.immediate32;
      immediate32 = 8;
      immediate_offset = 1;
    }
    ∷ record (plain 0x140001018 8) { memory_segment = Register.gs; memory_displacement64 = 0x58 }
    ∷ []

-- 32 bytes of code, whose values the decoder has seen, and the table.
abbrev bytes : List ℕ
bytes = replicate 32 0x90 ++ (0x04 ∷ 0x10 ∷ 0 ∷ 0 ∷ 0x08 ∷ 0x10 ∷ 0 ∷ 0 ∷ [])

abbrev decode_all : List ℕ → ℕ → List Instruction
decode_all code ip = insns

abbrev output : RecoveryOutput
output = record {
  relocs =
      record {
        offset = 32;
        pc = 0x140001020;
        kind = RelocKind.addr32_nb;
        target = codes "g";
        addend = pos 4;
      }
      ∷ record {
        offset = 36;
        pc = 0x140001024;
        kind = RelocKind.addr32_nb;
        target = codes "g";
        addend = pos 8;
      }
      ∷ record {
        offset = 10;
        pc = 0x140001007;
        kind = RelocKind.addr32_nb;
        target = codes "$jpt_140001020";
        addend = pos 0;
      }
      ∷ record {
        offset = 15;
        pc = 0x14000100e;
        kind = RelocKind.rel32 0;
        target = codes "f";
        addend = pos 0;
      }
      ∷ record {
        offset = 20;
        pc = 0x140001013;
        kind = RelocKind.secrel;
        target = codes "t";
        addend = pos 0;
      }
      ∷ [];
  jump_tables = record { name = codes "$jpt_140001020"; offset = 32; entry_count = 2 } ∷ [];
  diag = record {
    instructions = 5;
    decode_failures = 0;
    calls_resolved = 1;
    calls_unresolved = 0;
    rip_refs_resolved = 0;
    rip_refs_unresolved = 0;
  };
  rep_ret_offsets = [];
}

recovered : recover decode_all bytes 0x140001000 40 resolver ≡ output
unfolding recover default_is_intra_function hex
recovered = refl

recover-IsCaused_example :
    All
      (IsCaused resolver bytes 0x140001000 40 (rev_onto insns []))
      (recover decode_all bytes 0x140001000 40 resolver).relocs
recover-IsCaused_example = recover-IsCaused decode_all bytes 0x140001000 40 resolver

recover-IsListed_example :
    All
      (IsListed (recover decode_all bytes 0x140001000 40 resolver).relocs)
      (recover decode_all bytes 0x140001000 40 resolver).jump_tables
recover-IsListed_example = recover-IsListed decode_all bytes 0x140001000 40 resolver
