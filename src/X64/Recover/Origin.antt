-- ===== src/X64/Recover/Origin.antt =====
-- crates/delink-x86_64/src/recover.rs: what a relocation has to come from.
use delink.Prelude.{
  ℕ, ◌+◌, ◌*◌, ◌-◌, ◌≤◌, ◌<◌, ◌≡◌, ◌≢◌, ◌⊎◌, Bool, true, false, ◌&&◌, some, List, [], ◌∷◌, length,
  ltb, leb, All, Any,
}
use delink.Prelude.Text.{Str}
use delink.Prelude.Int.{ℤ, pos}
use delink.Prelude.Words.{add_u64}
use delink.X64.{
  RelocKind, RecoveredJumpTable, RecoveredReloc, SymbolResolver, gpr64_index, UsedRegister,
  is_write, is_branch, is_rip, Instruction,
}
use delink.X64.Tables.{case_at, entry_reloc, rva_reloc, table_name}
use delink.X64.Recover.{
  reads_tls_pointer, loads_immediate, tls_reloc, branch_reloc, leaves_function, rip_reloc,
  loads_base,
}

-- The instructions that were run, the latest first.
abbrev pub History : Type 0
History = List Instruction

abbrev pub rev_onto : List Instruction → History → History
rev_onto [] history = history
rev_onto (insn ∷ insns) history = rev_onto insns (insn ∷ history)

-- Some instruction, with those before it.
abbrev pub Sometime : (Instruction → History → Type 0) → History → Type 0
Sometime P [] = ⊥
Sometime P (insn ∷ before) = P insn before ⊎ Sometime P before

-- No operand that the instruction writes is a part of the register.
abbrev pub IsNotWritten : ℕ → List UsedRegister → Type 0
IsNotWritten i used = All (λ u. is_write u.access ≡ true → gpr64_index u.register ≢ some i) used

-- A valid `lea` of the image base into the register.
pub record LoadsBase (resolver : SymbolResolver) (i : ℕ) (insn : Instruction) : Type 0 where
  pub is_valid : insn.is_invalid ≡ false
  pub is_no_branch : is_branch insn.flow_control ≡ false
  pub loads : loads_base resolver insn ≡ true
  pub into : gpr64_index insn.op0_register ≡ some i

-- The image base was loaded into the register, and no valid instruction since has written it.
abbrev pub HoldsBase : SymbolResolver → ℕ → History → Type 0
HoldsBase resolver i [] = ⊥
HoldsBase resolver i (insn ∷ before) =
    LoadsBase resolver i insn
    ⊎ (((insn.is_invalid ≡ true) ⊎ IsNotWritten i insn.used_registers)
        × HoldsBase resolver i before)

-- The base register of the operand holds the image base.
pub record IsBased (resolver : SymbolResolver) (insn : Instruction) (before : History)
    : Type 0 where
  pub index : ℕ
  pub is_base : gpr64_index insn.memory_base ≡ some index
  pub is_not_written : IsNotWritten index insn.used_registers
  pub holds : HoldsBase resolver index before

-- What such an operand refers to.
abbrev pub rva_target : SymbolResolver → Instruction → ℕ
rva_target resolver insn = add_u64 resolver.image_base insn.memory_displacement64

abbrev pub is_table : SymbolResolver → (fn_va fn_size : ℕ) → Instruction → Bool
is_table resolver fn_va fn_size insn =
    resolver.in_text (rva_target resolver insn)
    && leb fn_va (rva_target resolver insn)
    && ltb (rva_target resolver insn) (add_u64 fn_va fn_size)

-- The `k`-th word of the table stands for an address of the function before the table.
pub record IsEntry (resolver : SymbolResolver) (bytes : List ℕ) (fn_va table_off k : ℕ)
    : Type 0 where
  pub within : table_off + k * 4 + 4 ≤ length bytes
  pub above : fn_va ≤ case_at resolver bytes (table_off + k * 4)
  pub below : case_at resolver bytes (table_off + k * 4) < add_u64 fn_va table_off

-- The relocation is what this instruction asks for.
pub data From (resolver : SymbolResolver) (bytes : List ℕ) (fn_va fn_size : ℕ) (insn : Instruction)
    (before : History) (r : RecoveredReloc) : Type 0 where
  branch_target :
      (name : Str) (addend : ℤ)
      → is_branch insn.flow_control ≡ true
      → leaves_function resolver fn_va fn_size insn ≡ true
      → resolver.resolve_code insn.near_branch64 ≡ some (name, addend)
      → r ≡ branch_reloc fn_va insn name addend
      → From resolver bytes fn_va fn_size insn before r
  rip_target :
      (name : Str) (addend : ℤ)
      → is_rip insn.memory_base ≡ true
      → resolver.resolve_data insn.memory_displacement64 ≡ some (name, addend)
      → r ≡ rip_reloc fn_va insn name addend
      → From resolver bytes fn_va fn_size insn before r
  rva_data :
      (name : Str) (addend : ℤ)
      → IsBased resolver insn before
      → resolver.resolve_data (rva_target resolver insn) ≡ some (name, addend)
      → r ≡ rva_reloc fn_va insn name addend
      → From resolver bytes fn_va fn_size insn before r
  table_reference :
      IsBased resolver insn before
      → is_table resolver fn_va fn_size insn ≡ true
      → r ≡ rva_reloc fn_va insn (table_name (rva_target resolver insn)) (pos 0)
      → From resolver bytes fn_va fn_size insn before r
  table_entry :
      (k : ℕ) (name : Str) (addend : ℤ)
      → IsBased resolver insn before
      → is_table resolver fn_va fn_size insn ≡ true
      → IsEntry resolver bytes fn_va (rva_target resolver insn - fn_va) k
      → resolver.resolve_code (case_at resolver bytes (rva_target resolver insn - fn_va + k * 4))
        ≡ some (name, addend)
      → r ≡ entry_reloc (rva_target resolver insn - fn_va) (rva_target resolver insn) k name addend
      → From resolver bytes fn_va fn_size insn before r
  tls_offset :
      (name : Str) (addend : ℤ)
      → loads_immediate insn ≡ true
      → resolver.resolve_tls_offset insn.immediate32 ≡ some (name, addend)
      → r ≡ tls_reloc fn_va insn name addend
      → From resolver bytes fn_va fn_size insn before r

abbrev pub IsFrom :
    SymbolResolver → List ℕ → (fn_va fn_size : ℕ) → History → RecoveredReloc → Type 0
IsFrom resolver bytes fn_va fn_size history r =
    Sometime
      (λ insn before. (insn.is_invalid ≡ false) × From resolver bytes fn_va fn_size insn before r)
      history

-- The table has an entry, every word of it is relocated, and it is referred to by its name.
pub record IsListed (relocs : List RecoveredReloc) (table : RecoveredJumpTable) : Type 0 where
  pub is_not_empty : 0 < table.entry_count
  pub entries :
      (k : ℕ)
      → k < table.entry_count
      → Any (λ r. (r.offset ≡ table.offset + k * 4) × (r.kind ≡ RelocKind.addr32_nb)) relocs
  pub reference :
      Any
        (λ r. (r.target ≡ table.name) × (r.addend ≡ pos 0) × (r.kind ≡ RelocKind.addr32_nb))
        relocs

-- A valid instruction has read the pointer to the thread-local storage.
abbrev pub ReadsTls : History → Type 0
ReadsTls history =
    Sometime (λ insn before. (insn.is_invalid ≡ false) × (reads_tls_pointer insn ≡ true)) history
