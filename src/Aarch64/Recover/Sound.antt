-- ===== src/Aarch64/Recover/Sound.antt =====
-- crates/delink-aarch64/src/recover.rs, `recover`: what each relocation that is recovered means.
pub mod Operands
pub mod Pairs
pub mod Steps
pub mod Run
use delink.Prelude.{
  ℕ, ◌≡◌, refl, sym, ap, ◌∙◌, ◌⊎◌, inl, inr, Bool, true, false, Option, none, some, List, [], ◌∷◌,
  arith, All, Any, All-append, All-imp, Any-imp, subst, in_range, ◌==◌, Bool-cases, Option-cases,
}
use delink.Prelude.Text.{Str, codes}
use delink.Prelude.Eq.{str_eq, str_eq_iff, nat_eq}
use delink.Prelude.Int.{pos}
use delink.Prelude.Words.{add_u64, sub_u64}
use delink.Collections.BTreeMap
use delink.Collections.HashMap
use delink.Collections.HashMap.{HashMap, get-insert, get-remove}
use delink.Symbols.{
  GlobalSymbols, export_name, ResolvedTarget, DataSource, resolve, resolve_data, in_got,
}
use delink.Symbols.Sound.{StandsAt, Denotes, IsOrderedTable, resolve_data_sound}
use delink.Aarch64.{
  RelocKind, RecoveredReloc, RecoveryOutput, AdrpSite, LoKind, Operand, Decoded, imm_operand,
  reg_write, is_one_of, write_regs, add_imm_operands, mem_imm_operand, is_mem_load_or_store,
  lo_kind_for_mem, lo_direct,
}
use delink.Aarch64.Recover.Sound.Operands.{HasImm, HasReg, Completes, BranchesTo, StandsIn}
use delink.Aarch64.Recover.{
  State, pair_kinds, half, emit_adrp_pair, branch_reloc, is_jump26, branch_outcome, handle_branch,
  remove_all, pair_at, untrack_some, step_branch, step_adrp, step_add, step_mem, step_insn,
  count_instruction, count_decode_failure, step_decoded, run_decoded, initial, recover,
}

-- The site is an `adrp` of this register among the instructions, with the page that it loads.
abbrev pub IsAdrp : ℕ → ℕ → AdrpSite → Decoded → Type 0
IsAdrp base reg site d =
    StandsIn base site.insn_offset site.pc d
    × (d.mnemonic ≡ some (codes "adrp"))
    × ((ops : List Operand) × (d.detail ≡ some ops) × HasReg reg ops × HasImm site.page_addr ops)

-- An `adrp` of a register, and an instruction at that distance from the same register, which is of
-- the kind that the second half of a pair is for.
pub record IsPair (base : ℕ) (insns : List Decoded) (lo : LoKind) (site : AdrpSite)
    (offset pc target : ℕ) : Type 0 where
  pub reg : ℕ
  pub disp : ℕ
  pub has_adrp : Any (IsAdrp base reg site) insns
  pub has_use : Any (λ d. Completes lo reg disp d × StandsIn base offset pc d) insns
  pub reaches : target ≡ add_u64 site.page_addr disp

-- `S + A` is the address that the pair of instructions computes.
abbrev pub PointsAt : GlobalSymbols → RecoveredReloc → Type 0
PointsAt s r =
    (source : DataSource) × Denotes s
      (record { symbol = r.target; addend = r.addend; source = source }) r.target_addr

-- The first half stands at the `adrp` of a pair.
abbrev pub IsPage : GlobalSymbols → ℕ → List Decoded → RecoveredReloc → Type 0
IsPage s base insns r =
    (site : AdrpSite) × (lo : LoKind) × (offset : ℕ) × (pc : ℕ) × IsPair base insns lo site offset
      pc r.target_addr
    × (r.offset ≡ site.insn_offset)
    × (r.pc ≡ site.pc)
    × PointsAt s r

-- The second half stands at the instruction that completes the pair.
abbrev pub IsUse : LoKind → GlobalSymbols → ℕ → List Decoded → RecoveredReloc → Type 0
IsUse lo s base insns r =
    (site : AdrpSite) × IsPair base insns lo site r.offset r.pc r.target_addr × PointsAt s r

-- A branch stands at an instruction of this mnemonic, and names the function or the import at the
-- target of the instruction, with no addend.
abbrev pub IsBranch : Str → GlobalSymbols → ℕ → List Decoded → RecoveredReloc → Type 0
IsBranch m s base insns r =
    Any (λ d. BranchesTo m r.target_addr d × StandsIn base r.offset r.pc d) insns
    × (r.addend ≡ pos 0)
    × (StandsAt s DataSource.function r.target r.target_addr
        ⊎ (HashMap.get r.target_addr s.plt ≡ some r.target))

abbrev pub MeansKind : RelocKind → GlobalSymbols → ℕ → List Decoded → RecoveredReloc → Type 0
MeansKind RelocKind.call26 s base insns r = IsBranch (codes "bl") s base insns r
MeansKind RelocKind.jump26 s base insns r = IsBranch (codes "b") s base insns r
MeansKind RelocKind.adr_prel_pg_hi21 s base insns r = IsPage s base insns r
MeansKind RelocKind.adr_got_page s base insns r =
    IsPage s base insns r × (in_got s r.target_addr ≡ true)
MeansKind RelocKind.ld64_got_lo12_nc s base insns r =
    IsUse LoKind.ldst64 s base insns r × (in_got s r.target_addr ≡ true)
MeansKind RelocKind.add_abs_lo12_nc s base insns r = IsUse LoKind.add s base insns r
MeansKind RelocKind.ldst8_abs_lo12_nc s base insns r = IsUse LoKind.ldst8 s base insns r
MeansKind RelocKind.ldst16_abs_lo12_nc s base insns r = IsUse LoKind.ldst16 s base insns r
MeansKind RelocKind.ldst32_abs_lo12_nc s base insns r = IsUse LoKind.ldst32 s base insns r
MeansKind RelocKind.ldst64_abs_lo12_nc s base insns r = IsUse LoKind.ldst64 s base insns r
MeansKind RelocKind.ldst128_abs_lo12_nc s base insns r = IsUse LoKind.ldst128 s base insns r

-- What a relocation means, by its kind.
abbrev pub Means : GlobalSymbols → ℕ → List Decoded → RecoveredReloc → Type 0
Means s base insns r = MeansKind r.kind s base insns r

lo_direct-Means :
    (s : GlobalSymbols) (base : ℕ) (insns : List Decoded) (lo : LoKind) (r : RecoveredReloc)
    → IsUse lo s base insns r
    → MeansKind (lo_direct lo) s base insns r
unfolding lo_direct
lo_direct-Means s base insns LoKind.add r h = h
lo_direct-Means s base insns LoKind.ldst8 r h = h
lo_direct-Means s base insns LoKind.ldst16 r h = h
lo_direct-Means s base insns LoKind.ldst32 r h = h
lo_direct-Means s base insns LoKind.ldst64 r h = h
lo_direct-Means s base insns LoKind.ldst128 r h = h

pub pair_kinds-Means :
    (s : GlobalSymbols) (base : ℕ) (insns : List Decoded) (g : Bool) (lo : LoKind)
    (hi low : RecoveredReloc)
    → g ≡ in_got s hi.target_addr
    → low.target_addr ≡ hi.target_addr
    → IsPage s base insns hi
    → IsUse lo s base insns low
    → MeansKind (pair_kinds g lo).0 s base insns hi × MeansKind (pair_kinds g lo).1 s base insns low
unfolding pair_kinds
pair_kinds-Means s base insns true LoKind.ldst64 hi low got same page h =
    ((page, sym got), (h, ap (in_got s) same ∙ sym got))
pair_kinds-Means s base insns true LoKind.add hi low got same page h = (page, h)
pair_kinds-Means s base insns true LoKind.ldst8 hi low got same page h = (page, h)
pair_kinds-Means s base insns true LoKind.ldst16 hi low got same page h = (page, h)
pair_kinds-Means s base insns true LoKind.ldst32 hi low got same page h = (page, h)
pair_kinds-Means s base insns true LoKind.ldst128 hi low got same page h = (page, h)
pair_kinds-Means s base insns false lo hi low got same page h =
    (page, lo_direct-Means s base insns lo low h)

-- What a resolved target says of the tables.
abbrev pub IsResolved : GlobalSymbols → ℕ → ResolvedTarget → Type 0
IsResolved s target (ResolvedTarget.internal f) = BTreeMap.get target s.functions ≡ some f
IsResolved s target (ResolvedTarget.external_plt name) = HashMap.get target s.plt ≡ some name
IsResolved s target ResolvedTarget.unknown = Unit

pub resolve-IsResolved : (s : GlobalSymbols) (target : ℕ) → IsResolved s target (resolve s target)
unfolding resolve
resolve-IsResolved s target = elim (Option-cases (BTreeMap.get target s.functions)) [
  | inr (f, found) ↦ rw (found, resolve) found
  | inl absent ↦ elim (Bool-cases (in_range s.plt_range target)) [
    | inr out ↦ rw (absent, out, resolve) tt
    | inl inside ↦ elim (Option-cases (HashMap.get target s.plt)) [
      | inl missing ↦ rw (absent, inside, missing, resolve) tt
      | inr (name, found) ↦ rw (absent, inside, found, resolve) found
    ]
  ]
]
