-- ===== src/X64/Tables.antt =====
-- crates/delink-x86_64/src/recover.rs: the switch tables behind image-base-relative loads.
use delink.Prelude.{
  ℕ, zero, suc, ◌+◌, ◌*◌, ◌-◌, ◌&&◌, ◌||◌, none, some, List, [], ◌∷◌, ◌++◌, take, drop, length, ltb,
  leb, if◌then◌else◌,
}
use delink.Prelude.Text.{Str, codes, hex}
use delink.Prelude.Int.{ℤ, pos}
use delink.Prelude.Words.{add_u64}
use delink.Prelude.Bytes.{from_le_bytes}
use delink.X64.{
  RelocKind, RecoveredReloc, RecoveredJumpTable, RecoveryOutput, SymbolResolver, Instruction, push,
  insn_offset_of,
}

-- The address of the case that the word at an offset stands for.
abbrev pub case_at : SymbolResolver → List ℕ → ℕ → ℕ
case_at resolver fn_bytes e = add_u64 resolver.image_base (from_le_bytes (take 4 (drop e fn_bytes)))

abbrev pub entry_reloc : (table_off target_va i : ℕ) → Str → ℤ → RecoveredReloc
entry_reloc table_off target_va i target addend = record {
  offset = table_off + i * 4;
  pc = target_va + i * 4;
  kind = RelocKind.addr32_nb;
  target = target;
  addend = addend;
}

-- The entries from the `i`-th on. Each takes four bytes, so there are no more than bytes.
unfoldable pub entries_from :
    ℕ → SymbolResolver → List ℕ → (fn_va table_off target_va i : ℕ) → List RecoveredReloc
unfolding from_le_bytes
entries_from zero resolver fn_bytes fn_va table_off target_va i = []
entries_from (suc fuel) resolver fn_bytes fn_va table_off target_va i =
    let e = table_off + i * 4 in
    let case_va = case_at resolver fn_bytes e in
    let more : List RecoveredReloc = elim (resolver.resolve_code case_va) [
      | none ↦ []
      | some (target, addend) ↦
          entry_reloc table_off target_va i target addend
          ∷ entries_from fuel resolver fn_bytes fn_va table_off target_va (i + 1)
    ] in
    if ltb (length fn_bytes) (e + 4)
    then []
    else if ltb case_va fn_va || leb (add_u64 fn_va table_off) case_va
    then []
    else more

-- `format!("$jpt_{:x}", target_va)`
abbrev pub table_name : ℕ → Str
table_name target_va = codes "$jpt_" ++ hex target_va

abbrev pub rva_reloc : ℕ → Instruction → Str → ℤ → RecoveredReloc
rva_reloc fn_va insn target addend = record {
  offset = add_u64 (insn_offset_of fn_va insn) insn.displacement_offset;
  pc = insn.ip;
  kind = RelocKind.addr32_nb;
  target = target;
  addend = addend;
}

abbrev pub count_entries : List RecoveredReloc → ℕ
count_entries entries = length entries

-- The entries, the reference to the table and the table itself, unless there is no entry.
unfoldable pub add_table :
    ℕ
    → Instruction
    → (table_off target_va : ℕ) → List RecoveredReloc
    → RecoveryOutput
    → RecoveryOutput
add_table fn_va insn table_off target_va [] out = out
add_table fn_va insn table_off target_va (first ∷ rest) out =
    let table : RecoveredJumpTable = record {
      name = table_name target_va;
      offset = table_off;
      entry_count = count_entries (first ∷ rest);
    } in
    record out {
      relocs =
          (out.relocs ++ (first ∷ rest))
          ++ (rva_reloc fn_va insn (table_name target_va) (pos 0) ∷ []);
      jump_tables = out.jump_tables ++ (table ∷ []);
    }

-- A table inside the body of the function.
unfoldable pub emit_table :
    SymbolResolver → List ℕ → (fn_va target_va : ℕ) → Instruction → RecoveryOutput → RecoveryOutput
unfolding entries_from add_table
emit_table resolver fn_bytes fn_va target_va insn out =
    let table_off = target_va - fn_va in
    add_table fn_va insn table_off target_va
      (entries_from (length fn_bytes) resolver fn_bytes fn_va table_off target_va 0) out

-- `[imagebase_reg + index*scale + rva]`
unfoldable pub emit_rva :
    SymbolResolver → List ℕ → (fn_va fn_size : ℕ) → Instruction → RecoveryOutput → RecoveryOutput
unfolding emit_table
emit_rva resolver fn_bytes fn_va fn_size insn out =
    let target_va = add_u64 resolver.image_base insn.memory_displacement64 in
    let named : RecoveryOutput = elim (resolver.resolve_data target_va) [
      | none ↦ out
      | some (target, addend) ↦ push (rva_reloc fn_va insn target addend) out
    ] in
    if resolver.in_text target_va && leb fn_va target_va && ltb target_va (add_u64 fn_va fn_size)
    then emit_table resolver fn_bytes fn_va target_va insn out
    else named
