-- ===== src/Arm/Recover/Relink.antt =====
-- crates/delink-arm/src/recover.rs: what a recovered relocation has to mean, by its kind, in terms of the
-- decoded instructions, the symbol table and the linked image.
pub mod Fields
pub mod Code
pub mod Steps
pub mod Keeps
pub mod Run
use delink.Prelude.{
  ℕ, ◌+◌, ◌-◌, ◌^◌, ◌%◌, ◌<◌, ◌≤◌, ◌≡◌, refl, sym, ◌≢◌, ◌⊎◌, inl, inr, Bool, true, false, not, ◌&&◌,
  ◌||◌, Option, none, some, List, [], ◌∷◌, ◌++◌, ◌==◌, ltb, leb, if◌then◌else◌, arith, Option-cases,
  Bool-cases, All, All-append, length, subst, Any,
}
use delink.Prelude.Text.{Str}
use delink.Prelude.Eq.{nat_eq, str_eq}
use delink.Prelude.Int.{ℤ, pos, negsuc, ◌+ℤ◌, ◌-ℤ◌}
use delink.Prelude.Words.{
  IsByte, IsU32, IsU64, add_u64, sub_u64, sign_extend_u32, as_i64, as_u64, as_u32, wrap_i64,
  as_u64-lt, as_u64-pos, as_u64-as_i64, as_u64-wrap_i64, as_u64-add, as_u64-sub,
  sign_extend_u32-mod,
}
use delink.Collections.BTreeMap
use delink.Collections.BTreeMap.{floor_sound}
use delink.Collections.HashMap
use delink.Collections.HashMap.{HashMap, get-insert, get-remove}
use delink.Symbols.{
  GlobalSymbols, FunctionRef, export_name, ResolvedTarget, DataResolution, DataSource, resolve,
  resolve_into, resolve_data, resolve_got_slot, in_got,
}
use delink.Symbols.Sound.{StandsAt, Denotes, IsOrderedTable, resolve_data_sound}
use delink.Arm.{
  RelocKind, RecoveredReloc, RecoveryOutput, CodeImage, word, Operand, Decoded, Capstone, PoolLoad,
  Insn, arm_pc_bias,
}
use delink.Arm.Recover.{reference}
use delink.Arm.Recover.Relink.Fields.{bias_self, bias_interior}
use delink.Arm.Recover.Relink.Code.{BranchesTo, LoadsPool, AddsPc, IndexesPc}
use delink.Arm.Emit.{
  State, same_kind, same_int, push_pool_reloc, emit_pcrel, emit_got, pool_distance, branch_target,
  handle_branch, count_interior, count_pool_unresolved,
}

-- `name` is the symbol at a branch target: a function, or an import through its PLT stub.
abbrev pub BranchSymbol : GlobalSymbols → Str → ℕ → Type 0
BranchSymbol s name base =
    StandsAt s DataSource.function name base ⊎ (HashMap.get base s.plt ≡ some name)

-- A relocated pool word: its address, and the word that the linked image holds there.
pub record PoolWord (image : CodeImage) (fn_addr fn_size : ℕ) (r : RecoveredReloc) (p v : ℕ)
    : Type 0 where
  pub holds : word image p ≡ some v
  pub above : fn_addr ≤ p
  pub within : add_u64 p 4 ≤ add_u64 fn_addr fn_size
  pub offset_lem : r.offset ≡ p - fn_addr

-- A branch instruction of the code leads to the target, and `S + A + 8` is that target.
abbrev pub RelinksBranch :
    Bool → GlobalSymbols → (fn_addr : ℕ) → List Decoded → RecoveredReloc → Type 0
RelinksBranch link s fn_addr insns r =
    Any
      (λ d.
        BranchesTo link r.target_addr d
        × (r.pc ≡ d.address)
        × (r.offset ≡ sub_u64 d.address fn_addr))
      insns
    × ((base : ℕ) × BranchSymbol s r.target base
        × (as_u64 (pos base +ℤ r.addend +ℤ pos arm_pc_bias) ≡ r.target_addr))

-- An instruction of the code loads the pool word at `p` to a register, and another one, at the
-- place of the relocation, adds the same register to the program counter and thereby reaches the target.
pub record PoolUse (cs : Capstone) (insns : List Decoded) (Uses : ℕ → Decoded → Type 0)
    (r : RecoveredReloc) (p v : ℕ) : Type 0 where
  pub reg : ℕ
  pub has_load : Any (LoadsPool cs reg p) insns
  pub has_use : Any (λ d. Uses reg d × (r.pc ≡ d.address)) insns
  pub reaches : r.target_addr ≡ add_u64 (add_u64 r.pc arm_pc_bias) (sign_extend_u32 v)

-- `add rD, pc, rN` or `ldr rD, [pc, rN]`
abbrev pub UsesPc : Capstone → (rn : ℕ) → Decoded → Type 0
UsesPc cs rn d = AddsPc cs rn d ⊎ IndexesPc cs rn d

-- A slot of the .got is bound to the symbol, or holds a module-local address that the symbol leads to.
abbrev pub NamesSlot : GlobalSymbols → (slot : ℕ) → Str → Type 0
NamesSlot s slot name =
    (HashMap.get slot s.got ≡ some name)
    ⊎ ((target : ℕ) × (d : DataResolution) × (HashMap.get slot s.got_local ≡ some target)
        × Denotes s d target
        × (d.symbol ≡ name))

module _ (cs : Capstone) (insns : List Decoded) (s : GlobalSymbols) (image : CodeImage)
    (fn_addr fn_size : ℕ) where
  -- `S + A - P` is the word of the linked image.
  abbrev pub RelinksWord : RecoveredReloc → Type 0
  RelinksWord r =
      (p : ℕ) × (v : ℕ) × (base : ℕ) × (source : DataSource) × PoolWord image fn_addr fn_size r p v
      × PoolUse cs insns (UsesPc cs) r p v
      × StandsAt s source r.target base
      × (as_u32 (pos base +ℤ r.addend -ℤ pos p) ≡ v)

  -- `GOT(S) + A - P` is the word of the linked image, where the slot is one that names `S`.
  abbrev pub RelinksSlot : RecoveredReloc → Type 0
  RelinksSlot r =
      (p : ℕ) × (v : ℕ) × PoolWord image fn_addr fn_size r p v
      × PoolUse cs insns (IndexesPc cs) r p v
      × (in_got s r.target_addr ≡ true)
      × NamesSlot s r.target_addr r.target
      × (as_u32 (pos r.target_addr +ℤ r.addend -ℤ pos p) ≡ v)

  abbrev pub RelinksKind : RelocKind → RecoveredReloc → Type 0
  RelinksKind RelocKind.call r = RelinksBranch true s fn_addr insns r
  RelinksKind RelocKind.jump24 r = RelinksBranch false s fn_addr insns r
  RelinksKind RelocKind.rel32 r = RelinksWord r
  RelinksKind RelocKind.got_prel r = RelinksSlot r
  RelinksKind RelocKind.abs32 r = ⊥
  RelinksKind RelocKind.prel31 r = ⊥

  -- The relocation gives back what the linked image holds.
  abbrev pub Relinks : RecoveredReloc → Type 0
  Relinks r = RelinksKind r.kind r

resolve-internal :
    (s : GlobalSymbols) (t : ℕ) (f : FunctionRef)
    → resolve s t ≡ ResolvedTarget.internal f
    → BTreeMap.get t s.functions ≡ some f
unfolding resolve
resolve-internal s t f e = ground arith

resolve-external_plt :
    (s : GlobalSymbols) (t : ℕ) (name : Str)
    → resolve s t ≡ ResolvedTarget.external_plt name
    → HashMap.get t s.plt ≡ some name
unfolding resolve
resolve-external_plt s t name e = ground arith

resolve_into_sound :
    (s : GlobalSymbols) (t : ℕ) (f : FunctionRef) (delta : ℕ)
    → IsOrderedTable s
    → resolve_into s t ≡ some (f, delta)
    → (base : ℕ) × (BTreeMap.get base s.functions ≡ some f) × (base ≤ t) × (delta ≡ t - base)
unfolding resolve_into
resolve_into_sound s t f delta o e = elim (Option-cases (BTreeMap.floor t s.functions)) [
  | inl absent ↦ ground arith
  | inr ((base, g), found) ↦
      let (le, there) = floor_sound t s.functions base g o.functions_ordered found in
      (base, ground (arith, there), le, ground arith)
]

-- A branch is relocated against a symbol from which name and addend lead back to the target.
pub branch_target_sound :
    (s : GlobalSymbols) (t : ℕ) (name : Str) (addend : ℤ)
    → IsOrderedTable s
    → IsU64 t
    → branch_target s t ≡ some (name, addend)
    → (base : ℕ) × BranchSymbol s name base × (as_u64 (pos base +ℤ addend +ℤ pos arm_pc_bias) ≡ t)
unfolding branch_target
branch_target_sound s t name addend o h e = go (resolve s t) refl
  where
    go :
        (x : ResolvedTarget)
        → resolve s t ≡ x
        → (base : ℕ) × BranchSymbol s name base
          × (as_u64 (pos base +ℤ addend +ℤ pos arm_pc_bias) ≡ t)
    go (ResolvedTarget.internal f) q =
        let named : export_name f ≡ name = ground arith in
        let biased : addend ≡ negsuc 7 = ground arith in
        (t, inl (f, resolve-internal s t f q, sym named), rw biased (bias_self t h))
    go (ResolvedTarget.external_plt n) q =
        let named : n ≡ name = ground arith in
        let biased : addend ≡ negsuc 7 = ground arith in
        (
          t,
          inr (subst (λ x. HashMap.get t s.plt ≡ some x) named (resolve-external_plt s t n q)),
          rw biased (bias_self t h),
        )
    go ResolvedTarget.unknown q = elim (Option-cases (resolve_into s t)) [
      | inl absent ↦ ground arith
      | inr ((f, delta), found) ↦
          let (base, there, le, d) = resolve_into_sound s t f delta o found in
          let named : export_name f ≡ name = ground arith in
          let biased : addend ≡ wrap_i64 (negsuc 7 +ℤ as_i64 delta) = ground arith in
          (base, inl (f, there, sym named), rw (biased, d) (bias_interior base t h le))
    ]
