-- ===== src/Arm/Tests.antt =====
-- A function of three instructions and a pool word, recovered.
use delink.Prelude.{ℕ, ◌%◌, ◌^◌, ◌<◌, ◌≡◌, refl, true, false, some, List, [], ◌∷◌, arith, All}
use delink.Prelude.Text.{codes}
use delink.Prelude.Eq.{nat_eq}
use delink.Prelude.Bytes.{slice, from_le_bytes, to_le_bytes, starts_with}
use delink.Prelude.Int.{pos, negsuc, ◌+ℤ◌, ◌-ℤ◌}
use delink.Prelude.Words.{as_i64, as_u64, wrap_i64, sign_extend_u32}
use delink.Collections.BTreeMap
use delink.Collections.BTreeMap.{set_insert, set_extend}
use delink.Collections.HashMap
use delink.Symbols.{resolve, resolve_into, resolve_data}
use delink.Symbols.Sample.{table, table_ordered}
use delink.Arm.{
  RelocKind, arm_pc_bias, RecoveryOutput, CodeImage, word, InsnId, Operand, OperandType, Decoded,
  Capstone, classify,
}
use delink.Arm.Pools.{code_runs, scan_pool_words, find_pools}
use delink.Arm.Recover.{
  use_pcrel, step_insn, count_instruction, step_decoded, run_decoded, run_all, ok, recover,
}
use delink.Arm.Emit.{no_diagnostics, handle_branch, branch_target, push_pool_reloc, emit_pcrel}
use delink.Arm.Addend.{patched, apply_addend}
use delink.Arm.Addend.RoundTrip.{IsWritten, apply_addend-IsWritten}
use delink.Arm.Recover.Relink.{Relinks, BranchSymbol, branch_target_sound}
use delink.Arm.Recover.Relink.Run.{decoded_code, recover-Relinks}
use delink.Arm.Recover.Unique.{AreDistinct, pool_offsets}
use delink.Arm.Recover.Unique.Run.{recover-AreDistinct}

abbrev operand : OperandType → Operand
operand t = record { op_type = t; unshifted = true; subtracted = false }

-- `ldr r3, [pc, #4]; add r3, pc, r3; bl main`
abbrev decoded : List Decoded
decoded =
    record {
      address = 0x1000;
      id = InsnId.ldr;
      mnemonic = some (codes "ldr");
      detail = some (operand (OperandType.reg 3) ∷ operand (OperandType.mem 15 0 4) ∷ []);
    }
    ∷ record {
      address = 0x1004;
      id = InsnId.add;
      mnemonic = some (codes "add");
      detail = some (
          operand (OperandType.reg 3)
          ∷ operand (OperandType.reg 15)
          ∷ operand (OperandType.reg 3)
          ∷ []);
    }
    ∷ record {
      address = 0x1008;
      id = InsnId.bl;
      mnemonic = some (codes "bl");
      detail = some (operand (OperandType.imm 0x1000) ∷ []);
    }
    ∷ []

abbrev decoder : Capstone
decoder = record { disasm_all = λ bytes addr. some decoded; reg_pc = 15 }

-- The pool word at 0x100c is `counter - (0x1004 + 8)`.
abbrev image : CodeImage
image = record {
  base = 0x1000;
  bytes =
      0x04 ∷ 0x30 ∷ 0x9f ∷ 0xe5 ∷ 0x03 ∷ 0x30 ∷ 0x8f ∷ 0xe0 ∷ 0xfc ∷ 0xff ∷ 0xff ∷ 0xeb ∷ 0xfc
      ∷ 0x1f ∷ 0 ∷ 0 ∷ [];
}

abbrev recovered : RecoveryOutput
recovered = record {
  relocs =
      record {
        offset = 12;
        pc = 0x1004;
        kind = RelocKind.rel32;
        target = codes "counter";
        addend = pos 0;
        target_addr = 0x3008;
      }
      ∷ record {
        offset = 8;
        pc = 0x1008;
        kind = RelocKind.call;
        target = codes "main";
        addend = negsuc 7;
        target_addr = 0x1000;
      }
      ∷ [];
  diag = record no_diagnostics {
    instructions = 3;
    bl_resolved = 1;
    pool_loads = 1;
    pool_relocated = 1;
  };
}

recovers : recover decoder 0x1000 16 image table ≡ ok recovered
unfolding recover find_pools scan_pool_words code_runs run_all run_decoded step_decoded step_insn
    classify handle_branch branch_target resolve resolve_into use_pcrel emit_pcrel push_pool_reloc
    resolve_data count_instruction word slice from_le_bytes starts_with set_insert set_extend
    BTreeMap.get BTreeMap.floor BTreeMap.insert HashMap.get HashMap.insert HashMap.remove as_i64
    as_u64 wrap_i64 sign_extend_u32 ◌+ℤ◌ ◌-ℤ◌
recovers = refl

locals_bounded :
    (slot target : ℕ) → HashMap.get slot table.got_local ≡ some target → target < 2 ^ 64
unfolding HashMap.get
locals_bounded slot target h = ground arith

recover-Relinks_example :
    All
      (Relinks decoder (decoded_code decoder 0x1000 16 image) table image 0x1000 16)
      recovered.relocs
recover-Relinks_example =
    recover-Relinks decoder 0x1000 16 image table recovered table_ordered locals_bounded
      (omega arith) recovers

-- The addend -8 of the call, written over what the linker left there.
call_bytes :
    apply_addend RelocKind.call (0 ∷ 0xfc ∷ 0xff ∷ 0xff ∷ 0xeb ∷ []) 1 (negsuc 7)
    ≡ some (0 ∷ 0xfe ∷ 0xff ∷ 0xff ∷ 0xeb ∷ [])
unfolding apply_addend patched slice from_le_bytes to_le_bytes as_u64
call_bytes = refl

abbrev call_field : List ℕ
call_field = 0 ∷ 0xfc ∷ 0xff ∷ 0xff ∷ 0xeb ∷ []

minus_eight : as_u64 (negsuc 7) % 4 ≡ 0
unfolding as_u64
minus_eight = refl

apply_addend-IsWritten_example :
    (out : List ℕ) × (apply_addend RelocKind.call call_field 1 (negsuc 7) ≡ some out)
    × IsWritten RelocKind.call call_field 1 (negsuc 7) out
apply_addend-IsWritten_example =
    apply_addend-IsWritten RelocKind.call call_field 1 (negsuc 7)
      (omega arith, (omega arith, (omega arith, (omega arith, (omega arith, tt)))))
      (omega arith, minus_eight) (omega arith)

enters_main : branch_target table 0x1004 ≡ some (codes "main", negsuc 3)
unfolding branch_target resolve resolve_into BTreeMap.get BTreeMap.floor as_i64 as_u64 wrap_i64 ◌+ℤ◌
enters_main = refl

branch_target_sound_example :
    (base : ℕ) × BranchSymbol table (codes "main") base
    × (as_u64 (pos base +ℤ negsuc 3 +ℤ pos arm_pc_bias) ≡ 0x1004)
branch_target_sound_example =
    branch_target_sound table 0x1004 (codes "main") (negsuc 3) table_ordered (omega arith)
      enters_main

recover-AreDistinct_example : AreDistinct (pool_offsets recovered.relocs)
recover-AreDistinct_example = recover-AreDistinct decoder 0x1000 16 image table recovered recovers
