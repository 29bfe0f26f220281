-- ===== src/Aarch64/Recover/Sound/Pairs.antt =====
-- crates/delink-aarch64/src/recover.rs: what is tracked, and the relocations of one branch or pair.
use delink.Prelude.{
  ℕ, ◌≡◌, refl, inl, inr, Option, none, some, List, [], ◌∷◌, arith, All, Any, All-append, subst,
  ◌==◌, Bool-cases, Option-cases,
}
use delink.Prelude.Text.{Str}
use delink.Prelude.Eq.{nat_eq}
use delink.Prelude.Words.{IsU64, add_u64}
use delink.Collections.HashMap
use delink.Collections.HashMap.{HashMap, get-insert, get-remove}
use delink.Symbols.{GlobalSymbols, export_name, ResolvedTarget, resolve, resolve_data, in_got}
use delink.Symbols.Sound.{IsOrderedTable, resolve_data_sound}
use delink.Aarch64.{RelocKind, RecoveredReloc, RecoveryOutput, AdrpSite, LoKind, Decoded}
use delink.Aarch64.Recover.{
  State, pair_kinds, half, emit_adrp_pair, branch_reloc, is_jump26, branch_outcome, handle_branch,
  remove_all, pair_at, untrack_some,
}
use delink.Aarch64.Recover.Sound.Operands.{Completes, BranchesTo, StandsIn}
use delink.Aarch64.Recover.Sound.{
  IsAdrp, IsPair, IsBranch, MeansKind, Means, pair_kinds-Means, IsResolved, resolve-IsResolved,
}

module _ (s : GlobalSymbols) (base : ℕ) (insns : List Decoded) (ordered : IsOrderedTable s) where
  -- Every tracked register holds the page of an `adrp` of that register.
  abbrev pub IsTracked : HashMap ℕ AdrpSite → Type 0
  IsTracked t =
      (r : ℕ) (site : AdrpSite) → HashMap.get r t ≡ some site → Any (IsAdrp base r site) insns

  abbrev pub IsSound : State → Type 0
  IsSound st = IsTracked st.tracker × All (Means s base insns) st.out.relocs

  emit_adrp_pair-All :
      (site : AdrpSite) (lo_offset lo_pc full : ℕ) (lo : LoKind) (out : RecoveryOutput)
      → IsPair base insns lo site lo_offset lo_pc full
      → IsU64 full
      → All (Means s base insns) out.relocs
      → All (Means s base insns) (emit_adrp_pair s site lo_offset lo_pc full lo out).relocs
  unfolding emit_adrp_pair
  emit_adrp_pair-All site lo_offset lo_pc full lo out pair small all =
      elim (Option-cases (resolve_data s full)) [
        | inl absent ↦ rw (absent, emit_adrp_pair) all
        | inr (d, found) ↦
            let points = resolve_data_sound s full d ordered small found in
            let kinds = pair_kinds (in_got s full) lo in
            let hi = half site.insn_offset site.pc kinds.0 d full in
            let low = half lo_offset lo_pc kinds.1 d full in
            let (a, b) =
              pair_kinds-Means s base insns (in_got s full) lo hi low refl refl
                (site, lo, lo_offset, lo_pc, pair, refl, refl, (d.source, points))
                (site, pair, (d.source, points)) in
            rw (found, emit_adrp_pair)
              (All-append (Means s base insns) out.relocs (hi ∷ low ∷ []) all (a, (b, tt)))
      ]

  branch_outcome-All :
      (m : Str) (offset pc target : ℕ) (kind : RelocKind) (out : RecoveryOutput)
      (o : ResolvedTarget)
      → Any (λ d. BranchesTo m target d × StandsIn base offset pc d) insns
      → IsResolved s target o
      → ((r : RecoveredReloc) → IsBranch m s base insns r → MeansKind kind s base insns r)
      → All (Means s base insns) out.relocs
      → All (Means s base insns) (branch_outcome offset pc target kind out o).relocs
  unfolding branch_outcome
  branch_outcome-All m offset pc target kind out (ResolvedTarget.internal f) there found means all =
      let r = branch_reloc offset pc kind (export_name f) target in
      All-append (Means s base insns) out.relocs (r ∷ []) all
        (means r (there, refl, inl (f, found, refl)), tt)
  branch_outcome-All m offset pc target kind out (ResolvedTarget.external_plt name) there found
        means all =
      let r = branch_reloc offset pc kind name target in
      All-append (Means s base insns) out.relocs (r ∷ []) all (means r (there, refl, inr found), tt)
  branch_outcome-All m offset pc target kind out ResolvedTarget.unknown there found means all =
      elim (Bool-cases (is_jump26 kind)) [ inl t ↦ rw t all | inr n ↦ rw n all ]

  pub handle_branch-All :
      (m : Str) (offset pc target : ℕ) (kind : RelocKind) (out : RecoveryOutput)
      → Any (λ d. BranchesTo m target d × StandsIn base offset pc d) insns
      → ((r : RecoveredReloc) → IsBranch m s base insns r → MeansKind kind s base insns r)
      → All (Means s base insns) out.relocs
      → All (Means s base insns) (handle_branch s offset pc target kind out).relocs
  unfolding handle_branch
  handle_branch-All m offset pc target kind out there means all =
      branch_outcome-All m offset pc target kind out (resolve s target) there
        (resolve-IsResolved s target) means all

  IsTracked-remove :
      (rd : ℕ) (t : HashMap ℕ AdrpSite) → IsTracked t → IsTracked (HashMap.remove rd t)
  IsTracked-remove rd t h r site found = h r site (ground (arith, get-remove r rd t))

  pub IsTracked-insert :
      (rd : ℕ) (new : AdrpSite) (t : HashMap ℕ AdrpSite)
      → Any (IsAdrp base rd new) insns
      → IsTracked t
      → IsTracked (HashMap.insert rd new t)
  IsTracked-insert rd new t there h r site found = elim (Bool-cases (r == rd)) [
    | inl here ↦
        let same : new ≡ site = ground (arith, get-insert r rd new t) in
        let at : rd ≡ r = ground arith in
        subst (λ a. Any (IsAdrp base r a) insns) same
          (subst (λ q. Any (IsAdrp base q new) insns) at there)
    | inr other ↦ h r site (ground (arith, get-insert r rd new t))
  ]

  pub IsTracked-nil : IsTracked []
  unfolding HashMap.get
  IsTracked-nil r site found = cc

  pub IsTracked-remove_all :
      (rs : List ℕ) (t : HashMap ℕ AdrpSite) → IsTracked t → IsTracked (remove_all rs t)
  unfolding remove_all
  IsTracked-remove_all [] t h = h
  IsTracked-remove_all (r ∷ rs) t h =
      IsTracked-remove_all rs (HashMap.remove r t) (IsTracked-remove r t h)

  pub pair_at-IsSound :
      (lo_offset lo_pc reg disp : ℕ) (lo : LoKind) (st : State)
      → Any (λ d. Completes lo reg disp d × StandsIn base lo_offset lo_pc d) insns
      → IsSound st
      → IsSound (pair_at s lo_offset lo_pc reg disp lo st)
  pair_at-IsSound lo_offset lo_pc reg disp lo st there (tracked, all) =
      elim (Option-cases (HashMap.get reg st.tracker)) [
        | inl absent ↦ rw (absent, pair_at) (tracked, all)
        | inr (site, found) ↦
            rw (found, pair_at)
              (
                tracked,
                emit_adrp_pair-All site lo_offset lo_pc (add_u64 site.page_addr disp) lo st.out
                    (record {
                      reg = reg;
                      disp = disp;
                      has_adrp = tracked reg site found;
                      has_use = there;
                      reaches = refl;
                    })
                    (omega arith) all,
              )
      ]

  pub untrack_some-IsSound :
      (rd : Option ℕ) (st : State) → IsSound st → IsSound (untrack_some rd st)
  untrack_some-IsSound none st h = h
  untrack_some-IsSound (some rd) st (tracked, all) = (IsTracked-remove rd st.tracker tracked, all)
