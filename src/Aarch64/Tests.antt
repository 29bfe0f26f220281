-- ===== src/Aarch64/Tests.antt =====
-- `adrp x0, 0x3000; add x0, x0, #8; bl main`, recovered.
use delink.Prelude.{ℕ, Option, some, List, [], ◌∷◌}
use delink.Prelude.Text.{Str, codes}
use delink.Prelude.Eq.{nat_eq}
use delink.Prelude.Int.{pos}
use delink.Collections.BTreeMap
use delink.Collections.HashMap
use delink.Aarch64.{RelocKind, RecoveryOutput, Operand, Decoded}
use delink.Aarch64.Recover.{no_diagnostics}

abbrev insn : ℕ → Str → List Operand → Decoded
insn address mnemonic ops = record {
  address = address;
  mnemonic = some mnemonic;
  detail = some ops;
}

abbrev decoded : List Decoded
decoded =
    insn 0x1000 (codes "adrp") (Operand.reg 1 ∷ Operand.imm 0x3000 ∷ [])
    ∷ insn 0x1004 (codes "add") (Operand.reg 1 ∷ Operand.reg 1 ∷ Operand.imm 8 ∷ [])
    ∷ insn 0x1008 (codes "bl") (Operand.imm 0x1000 ∷ [])
    ∷ []

abbrev pub disasm_all : List ℕ → ℕ → Option (List Decoded)
disasm_all bytes base = some decoded

abbrev recovered : RecoveryOutput
recovered = record {
  relocs =
      record {
        offset = 0;
        pc = 0x1000;
        kind = RelocKind.adr_prel_pg_hi21;
        target = codes "counter";
        addend = pos 0;
        target_addr = 0x3008;
      }
      ∷ record {
        offset = 4;
        pc = 0x1004;
        kind = RelocKind.add_abs_lo12_nc;
        target = codes "counter";
        addend = pos 0;
        target_addr = 0x3008;
      }
      ∷ record {
        offset = 8;
        pc = 0x1008;
        kind = RelocKind.call26;
        target = codes "main";
        addend = pos 0;
        target_addr = 0x1000;
      }
      ∷ [];
  diag = record no_diagnostics {
    instructions = 3;
    bl_resolved = 1;
    adrp_seen = 1;
    adrp_paired = 1;
  };
}
