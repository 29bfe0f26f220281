-- ===== src/X64/Recover/Adds.antt =====
-- crates/delink-x86_64/src/recover.rs: what a step adds comes from its instruction.
use delink.Prelude.{
  ℕ, zero, suc, ◌+◌, ◌*◌, ◌-◌, ◌≡◌, inl, inr, refl, Bool, true, ◌||◌, List, [], ◌∷◌, ◌++◌, length,
  ltb, leb, arith, Bool-cases, Option-cases, All, All-append, sym, ◌∙◌, ◌<◌, Any, Any-append_left,
  Any-append_right, append_nil, append_assoc,
}
use delink.Prelude.Text.{Str}
use delink.Prelude.Int.{ℤ, pos}
use delink.Prelude.Words.{add_u64}
use delink.X64.{
  RelocKind, RecoveredReloc, RecoveredJumpTable, RecoveryOutput, SymbolResolver, OpKind,
  Instruction, is_branch, is_memory, is_rip,
}
use delink.X64.Tables.{
  case_at, entry_reloc, entries_from, table_name, rva_reloc, add_table, emit_table, emit_rva,
}
use delink.X64.Recover.{
  note_rep_ret, branch_reloc, leaves_function, emit_branch, rip_reloc, emit_rip, holds_base,
  emit_operands,
}
use delink.X64.Recover.Origin.{History, IsBased, rva_target, is_table, IsEntry, IsListed, From}

abbrev pub IsSecrel : RelocKind → Type 0
IsSecrel RelocKind.secrel = Unit
IsSecrel _ = ⊥

-- A relocation of code or data, which a history accounts for.
abbrev pub Placed :
    SymbolResolver → List ℕ → (fn_va fn_size : ℕ) → Instruction → History → RecoveredReloc → Type 0
Placed resolver bytes fn_va fn_size insn before r =
    From resolver bytes fn_va fn_size insn before r × (IsSecrel r.kind → ⊥)

module _ (resolver : SymbolResolver) (bytes : List ℕ) (fn_va fn_size : ℕ) (insn : Instruction)
    (before : History) where
  abbrev P : RecoveredReloc → Type 0
  P r = Placed resolver bytes fn_va fn_size insn before r

  -- The relocation of the `k`-th word of a table.
  abbrev IsWord : (table_off k : ℕ) → RecoveredReloc → Type 0
  IsWord table_off k r = (r.offset ≡ table_off + k * 4) × (r.kind ≡ RelocKind.addr32_nb)

  -- The word at the head of the list, or a later one.
  first_or_later :
      (table_off target_va i k n : ℕ) (name : Str) (addend : ℤ)
      → i + k ≡ n
      → (rest : List RecoveredReloc)
      → ((j : ℕ) → i + 1 + j ≡ n → j < length rest → Any (IsWord table_off n) rest)
      → k < suc (length rest)
      → Any (IsWord table_off n) (entry_reloc table_off target_va i name addend ∷ rest)
  first_or_later table_off target_va i zero n name addend e rest later h = inl (omega arith, refl)
  first_or_later table_off target_va i (suc k) n name addend e rest later h =
      inr (later k (omega arith) (omega arith))

  entries_from-Any :
      (fuel table_off target_va i k n : ℕ)
      → i + k ≡ n
      → k < length (entries_from fuel resolver bytes fn_va table_off target_va i)
      → Any (IsWord table_off n) (entries_from fuel resolver bytes fn_va table_off target_va i)
  unfolding entries_from
  entries_from-Any zero table_off target_va i k n e h = elim h [ ]
  entries_from-Any (suc fuel) table_off target_va i k n e h =
      let offset = table_off + i * 4 in
      let case_va = case_at resolver bytes offset in
      elim (Bool-cases (ltb (length bytes) (offset + 4))) [
        | inl short ↦ let h' = rw (short, entries_from) at h in absurd (omega arith)
        | inr room ↦
            elim (Bool-cases (ltb case_va fn_va || leb (add_u64 fn_va table_off) case_va)) [
              | inl outside ↦ let h' = rw (room, outside, entries_from) at h in absurd (omega arith)
              | inr inside ↦ elim (Option-cases (resolver.resolve_code case_va)) [
                | inl none' ↦
                    let h' = rw (room, inside, none', entries_from) at h in absurd (omega arith)
                | inr ((name, addend), found) ↦
                    let h' = rw (room, inside, found, entries_from) at h in
                    rw (room, inside, found)
                      (first_or_later table_off target_va i k n name addend e _
                        (λ j e' h''. entries_from-Any fuel table_off target_va (i + 1) j n e' h'')
                        h')
              ]
            ]
      ]

  -- What a step adds behind the relocations that were there.
  pub record Adds (out out' : RecoveryOutput) : Type 0 where
    pub new : List RecoveredReloc
    pub is_behind : out'.relocs ≡ out.relocs ++ new
    pub placed : All P new
    pub tables : List RecoveredJumpTable
    pub tables_behind : out'.jump_tables ≡ out.jump_tables ++ tables
    pub listed : All (IsListed new) tables

  pub note_rep_ret-relocs :
      (offset : ℕ) (out : RecoveryOutput)
      → ((note_rep_ret bytes offset insn out).relocs ≡ out.relocs)
        × ((note_rep_ret bytes offset insn out).jump_tables ≡ out.jump_tables)
  unfolding note_rep_ret
  note_rep_ret-relocs offset out = ground arith

  -- An output whose relocations and tables are as they were.
  same :
      (out out' : RecoveryOutput)
      → out'.relocs ≡ out.relocs
      → out'.jump_tables ≡ out.jump_tables
      → Adds out out'
  same out out' relocs tables = record {
    new = [];
    is_behind = relocs ∙ sym (append_nil out.relocs);
    placed = tt;
    tables = [];
    tables_behind = tables ∙ sym (append_nil out.jump_tables);
    listed = tt;
  }

  nothing : (out : RecoveryOutput) → Adds out out
  nothing out = same out out refl refl

  -- An output with one relocation more.
  one :
      (out out' : RecoveryOutput) (r : RecoveredReloc)
      → P r
      → out'.relocs ≡ out.relocs ++ (r ∷ [])
      → out'.jump_tables ≡ out.jump_tables
      → Adds out out'
  one out out' r placed relocs tables = record {
    new = r ∷ [];
    is_behind = relocs;
    placed = (placed, tt);
    tables = [];
    tables_behind = tables ∙ sym (append_nil out.jump_tables);
    listed = tt;
  }

  pub emit_branch-Adds :
      (out : RecoveryOutput)
      → is_branch insn.flow_control ≡ true
      → Adds out (emit_branch resolver fn_va fn_size insn out)
  unfolding emit_branch
  emit_branch-Adds out branch = elim (Bool-cases (leaves_function resolver fn_va fn_size insn)) [
    | inr inside ↦ rw (inside, emit_branch) (nothing out)
    | inl leaves ↦ elim (Option-cases (resolver.resolve_code insn.near_branch64)) [
      | inl none' ↦ rw (leaves, none', emit_branch) (same out _ refl refl)
      | inr ((name, addend), found) ↦
          rw (leaves, found, emit_branch)
            (one out _ (branch_reloc fn_va insn name addend)
              (From.branch_target name addend branch leaves found refl, λ h. h) refl refl)
    ]
  ]

  emit_rip-Adds :
      (out : RecoveryOutput)
      → is_rip insn.memory_base ≡ true
      → Adds out (emit_rip resolver fn_va insn out)
  unfolding emit_rip
  emit_rip-Adds out base = elim (Option-cases (resolver.resolve_data insn.memory_displacement64)) [
    | inl none' ↦ rw (none', emit_rip) (same out _ refl refl)
    | inr ((name, addend), found) ↦
        rw (found, emit_rip)
          (one out _ (rip_reloc fn_va insn name addend)
            (From.rip_target name addend base found refl, λ h. h) refl refl)
  ]

  module _ (based : IsBased resolver insn before) where
    abbrev target : ℕ
    target = rva_target resolver insn

    entries_from-All :
        is_table resolver fn_va fn_size insn ≡ true
        → (fuel k : ℕ) → All P (entries_from fuel resolver bytes fn_va (target - fn_va) target k)
    unfolding entries_from
    entries_from-All table zero k = tt
    entries_from-All table (suc fuel) k =
        let e = target - fn_va + k * 4 in
        let case_va = case_at resolver bytes e in
        elim (Bool-cases (ltb (length bytes) (e + 4))) [
          | inl short ↦ rw short tt
          | inr room ↦
              elim (Bool-cases
                (ltb case_va fn_va || leb (add_u64 fn_va (target - fn_va)) case_va)) [
                  | inl outside ↦ rw (room, outside) tt
                  | inr inside ↦ elim (Option-cases (resolver.resolve_code case_va)) [
                    | inl none' ↦ rw (room, inside, none') tt
                    | inr ((name, addend), found) ↦
                        let entry : IsEntry resolver bytes fn_va (target - fn_va) k = record {
                          within = ground arith;
                          above = ground arith;
                          below = ground arith;
                        } in
                        rw (room, inside, found)
                          (
                            (From.table_entry k name addend based table entry found refl, λ h. h),
                            entries_from-All table fuel (k + 1),
                          )
                  ]
                ]
        ]

    add_table-Adds :
        (table_off target_va : ℕ) (entries : List RecoveredReloc) (out : RecoveryOutput)
        → All P entries
        → P (rva_reloc fn_va insn (table_name target_va) (pos 0))
        → ((k : ℕ) → k < length entries → Any (IsWord table_off k) entries)
        → Adds out (add_table fn_va insn table_off target_va entries out)
    unfolding add_table
    add_table-Adds table_off target_va [] out placed reference every = nothing out
    add_table-Adds table_off target_va (first ∷ rest) out placed reference every = record {
      new = (first ∷ rest) ++ (rva_reloc fn_va insn (table_name target_va) (pos 0) ∷ []);
      is_behind = append_assoc out.relocs (first ∷ rest) _;
      placed = All-append P (first ∷ rest) (_ ∷ []) placed (reference, tt);
      tables =
          record {
            name = table_name target_va;
            offset = table_off;
            entry_count = length (first ∷ rest);
          }
          ∷ [];
      tables_behind = refl;
      listed = (
        record {
          is_not_empty = omega arith;
          entries = λ k h. Any-append_left _ (first ∷ rest) (_ ∷ []) (every k h);
          reference = Any-append_right _ (first ∷ rest) (_ ∷ []) (inl (refl, refl, refl));
        },
        tt,
      );
    }

    emit_rva-Adds :
        (out : RecoveryOutput) → Adds out (emit_rva resolver bytes fn_va fn_size insn out)
    unfolding emit_rva emit_table
    emit_rva-Adds out = elim (Bool-cases (is_table resolver fn_va fn_size insn)) [
      | inl table ↦
          rw (table, emit_rva)
            (add_table-Adds (target - fn_va) target _ out (entries_from-All table (length bytes) 0)
              (From.table_reference based table refl, λ h. h)
              (λ k h.
                entries_from-Any (length bytes) (target - fn_va) target 0 k k (omega arith) h))
      | inr other ↦ elim (Option-cases (resolver.resolve_data target)) [
        | inl none' ↦ rw (other, none', emit_rva) (nothing out)
        | inr ((name, addend), found) ↦
            rw (other, found, emit_rva)
              (one out _ (rva_reloc fn_va insn name addend)
                (From.rva_data name addend based found refl, λ h. h) refl refl)
      ]
    ]

  pub emit_operands-Adds :
      (imgbase : List Bool) (kinds : List OpKind) (out : RecoveryOutput)
      → (holds_base imgbase insn.memory_base ≡ true → IsBased resolver insn before)
      → Adds out (emit_operands resolver bytes fn_va fn_size insn imgbase kinds out)
  unfolding emit_operands
  emit_operands-Adds imgbase [] out based = nothing out
  emit_operands-Adds imgbase (kind ∷ kinds) out based = elim (Bool-cases (is_memory kind)) [
    | inr other ↦ rw other (emit_operands-Adds imgbase kinds out based)
    | inl memory ↦ elim (Bool-cases (is_rip insn.memory_base)) [
      | inl base ↦ rw (memory, base) (emit_rip-Adds out base)
      | inr not_rip ↦ elim (Bool-cases (holds_base imgbase insn.memory_base)) [
        | inl holds ↦ rw (memory, not_rip, holds) (emit_rva-Adds (based holds) out)
        | inr unknown ↦ rw (memory, not_rip, unknown) (emit_operands-Adds imgbase kinds out based)
      ]
    ]
  ]
