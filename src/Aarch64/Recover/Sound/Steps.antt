-- ===== src/Aarch64/Recover/Sound/Steps.antt =====
-- crates/delink-aarch64/src/recover.rs: the steps of the pass, by the mnemonic of the instruction.
use delink.Prelude.{
  ℕ, ◌≡◌, refl, sym, ap, ◌∙◌, inl, inr, true, some, List, [], ◌∷◌, All, Any, Any-imp, subst,
  Bool-cases, Option-cases,
}
use delink.Prelude.Text.{Str, codes}
use delink.Prelude.Eq.{str_eq, str_eq_iff, nat_eq}
use delink.Prelude.Words.{sub_u64}
use delink.Symbols.{GlobalSymbols}
use delink.Symbols.Sound.{IsOrderedTable}
use delink.Aarch64.{
  RelocKind, RecoveredReloc, AdrpSite, LoKind, Operand, Decoded, imm_operand, reg_write, is_one_of,
  write_regs, add_imm_operands, mem_imm_operand, is_mem_load_or_store, lo_kind_for_mem,
}
use delink.Aarch64.Recover.{
  State, remove_all, pair_at, step_branch, step_adrp, step_add, step_mem, step_insn,
  count_instruction, count_decode_failure, step_decoded, run_decoded,
}
use delink.Aarch64.Recover.Sound.Pairs.{
  IsSound, IsTracked-nil, IsTracked-insert, IsTracked-remove_all, handle_branch-All,
  pair_at-IsSound, untrack_some-IsSound,
}
use delink.Aarch64.Recover.Sound.Operands.{
  Completes, BranchesTo, StandsIn, imm_operand-HasImm, reg_write-HasReg, add_imm_operands-Adds,
  mem_imm_operand-Accesses,
}
use delink.Aarch64.Recover.Sound.{IsAdrp, IsBranch, MeansKind}

module _ (s : GlobalSymbols) (base : ℕ) (insns : List Decoded) (ordered : IsOrderedTable s) where
  -- What holds of an instruction of the code holds of one of its instructions.
  at : (d : Decoded) (P : Decoded → Type 0) → Any (λ e. e ≡ d) insns → P d → Any P insns
  at d P there h = Any-imp (λ e same. subst P (sym same) h) insns there

  step_branch-IsSound :
      (d : Decoded) (m : Str) (kind : RelocKind) (ops : List Operand) (st : State)
      → Any (λ e. e ≡ d) insns
      → d.mnemonic ≡ some m
      → d.detail ≡ some ops
      → ((r : RecoveredReloc) → IsBranch m s base insns r → MeansKind kind s base insns r)
      → IsSound s base insns ordered st
      → IsSound s base insns ordered (step_branch s (sub_u64 d.address base) d.address kind ops st)
  unfolding step_branch
  step_branch-IsSound d m kind ops st there name detail means (tracked, all) =
      elim (Option-cases (imm_operand ops)) [
        | inl absent ↦ rw (absent, step_branch) ((IsTracked-nil s base insns ordered), all)
        | inr (target, found) ↦
            rw (found, step_branch)
              (
                (IsTracked-nil s base insns ordered),
                handle_branch-All s base insns ordered m (sub_u64 d.address base) d.address target
                    kind st.out
                    (at d
                      (λ e.
                        BranchesTo m target e × StandsIn base (sub_u64 d.address base) d.address e)
                      there
                      ((ops, name, detail, imm_operand-HasImm ops target found), (refl, refl)))
                    means all,
              )
      ]

  step_adrp-IsSound :
      (d : Decoded) (ops : List Operand) (st : State)
      → Any (λ e. e ≡ d) insns
      → d.mnemonic ≡ some (codes "adrp")
      → d.detail ≡ some ops
      → IsSound s base insns ordered st
      → IsSound s base insns ordered (step_adrp (sub_u64 d.address base) d.address ops st)
  unfolding step_adrp
  step_adrp-IsSound d ops st there name detail (tracked, all) =
      elim (Option-cases (reg_write ops)) [
        | inl absent ↦ rw (absent, step_adrp) (tracked, all)
        | inr (rd, reg) ↦ elim (Option-cases (imm_operand ops)) [
          | inl absent ↦ rw (reg, absent, step_adrp) (tracked, all)
          | inr (page, found) ↦
              let site : AdrpSite = record {
                insn_offset = sub_u64 d.address base;
                pc = d.address;
                page_addr = page;
              } in
              let here : IsAdrp base rd site d = (
                (refl, refl),
                name,
                (ops, detail, reg_write-HasReg ops rd reg, imm_operand-HasImm ops page found),
              ) in
              rw (reg, found, step_adrp)
                (
                  IsTracked-insert s base insns ordered rd site st.tracker
                      (at d (IsAdrp base rd site) there here) tracked,
                  all,
                )
        ]
      ]

  step_add-IsSound :
      (d : Decoded) (ops : List Operand) (st : State)
      → Any (λ e. e ≡ d) insns
      → d.mnemonic ≡ some (codes "add")
      → d.detail ≡ some ops
      → IsSound s base insns ordered st
      → IsSound s base insns ordered (step_add s (sub_u64 d.address base) d.address ops st)
  unfolding step_add
  step_add-IsSound d ops st there name detail h = elim (Option-cases (add_imm_operands ops)) [
    | inl absent ↦
        rw (absent, step_add) (untrack_some-IsSound s base insns ordered (reg_write ops) st h)
    | inr ((rd, (rn, v)), found) ↦
        let offset = sub_u64 d.address base in
        rw (found, step_add)
          (untrack_some-IsSound s base insns ordered (some rd)
            (pair_at s offset d.address rn v LoKind.add st)
            (pair_at-IsSound s base insns ordered offset d.address rn v LoKind.add st
              (at d (λ e. Completes LoKind.add rn v e × StandsIn base offset d.address e) there
                (
                  (
                    codes "add",
                    ops,
                    name,
                    detail,
                    inl (refl, refl, add_imm_operands-Adds ops rd rn v found),
                  ),
                  (refl, refl),
                ))
              h))
  ]

  untrack_all-IsSound :
      (rs : List ℕ) (st : State)
      → IsSound s base insns ordered st
      → IsSound s base insns ordered (record st { tracker = remove_all rs st.tracker })
  untrack_all-IsSound rs st (tracked, all) =
      (IsTracked-remove_all s base insns ordered rs st.tracker tracked, all)

  step_mem-IsSound :
      (d : Decoded) (m : Str) (ops : List Operand) (st : State)
      → Any (λ e. e ≡ d) insns
      → d.mnemonic ≡ some m
      → d.detail ≡ some ops
      → is_mem_load_or_store m ≡ true
      → IsSound s base insns ordered st
      → IsSound s base insns ordered (step_mem s (sub_u64 d.address base) d.address m ops st)
  unfolding step_mem
  step_mem-IsSound d m ops st there name detail mem h = elim (Option-cases (mem_imm_operand ops)) [
    | inl absent ↦ rw (absent, step_mem) (untrack_all-IsSound (write_regs m ops) st h)
    | inr (a, found) ↦
        let offset = sub_u64 d.address base in
        let lo = lo_kind_for_mem m in
        rw (found, step_mem)
          (untrack_all-IsSound (write_regs m ops) (pair_at s offset d.address a.base a.disp lo st) (
            pair_at-IsSound s base insns ordered offset d.address a.base a.disp lo st
              (at d (λ e. Completes lo a.base a.disp e × StandsIn base offset d.address e) there
                (
                  (m, ops, name, detail, inr (mem, refl, mem_imm_operand-Accesses ops a found)),
                  (refl, refl),
                ))
              h))
  ]

  step_insn-IsSound :
      (d : Decoded) (m : Str) (ops : List Operand) (st : State)
      → Any (λ e. e ≡ d) insns
      → d.mnemonic ≡ some m
      → d.detail ≡ some ops
      → IsSound s base insns ordered st
      → IsSound s base insns ordered (step_insn s (sub_u64 d.address base) d.address m ops st)
  unfolding step_insn
  step_insn-IsSound d m ops st there name detail h = elim (Bool-cases (str_eq m (codes "bl"))) [
    | inl t ↦
        let is : d.mnemonic ≡ some (codes "bl") =
          name ∙ ap some ((str_eq_iff m (codes "bl")).0 t) in
        rw t
          (step_branch-IsSound d (codes "bl") RelocKind.call26 ops st there is detail (λ r b. b) h)
    | inr n1 ↦ elim (Bool-cases (str_eq m (codes "b"))) [
      | inl t ↦
          let is : d.mnemonic ≡ some (codes "b") =
            name ∙ ap some ((str_eq_iff m (codes "b")).0 t) in
          rw (n1, t)
            (step_branch-IsSound d (codes "b") RelocKind.jump26 ops st there is detail (λ r b. b) h)
      | inr n2 ↦ elim (Bool-cases (str_eq m (codes "adrp"))) [
        | inl t ↦
            let is : d.mnemonic ≡ some (codes "adrp") =
              name ∙ ap some ((str_eq_iff m (codes "adrp")).0 t) in
            rw (n1, n2, t) (step_adrp-IsSound d ops st there is detail h)
        | inr n3 ↦ elim (Bool-cases (str_eq m (codes "add"))) [
          | inl t ↦
              let is : d.mnemonic ≡ some (codes "add") =
                name ∙ ap some ((str_eq_iff m (codes "add")).0 t) in
              rw (n1, n2, n3, t) (step_add-IsSound d ops st there is detail h)
          | inr n4 ↦ elim (Bool-cases (is_mem_load_or_store m)) [
            | inl t ↦ rw (n1, n2, n3, n4, t) (step_mem-IsSound d m ops st there name detail t h)
            | inr n5 ↦
                elim (Bool-cases (is_one_of m (codes "ret" ∷ codes "br" ∷ codes "blr" ∷ []))) [
                  | inl t ↦ rw (n1, n2, n3, n4, n5, t) ((IsTracked-nil s base insns ordered), h.1)
                  | inr n6 ↦
                      rw (n1, n2, n3, n4, n5, n6) (untrack_all-IsSound (write_regs m ops) st h)
                ]
          ]
        ]
      ]
    ]
  ]

  step_decoded-IsSound :
      (d : Decoded) (st : State)
      → Any (λ e. e ≡ d) insns
      → IsSound s base insns ordered st
      → IsSound s base insns ordered (step_decoded s base d st)
  unfolding step_decoded count_instruction count_decode_failure
  step_decoded-IsSound d st there h = elim (Option-cases d.mnemonic) [
    | inl absent ↦ rw (absent, step_decoded) h
    | inr (m, name) ↦ elim (Option-cases d.detail) [
      | inl absent ↦ rw (name, absent, step_decoded) ((IsTracked-nil s base insns ordered), h.1)
      | inr (ops, detail) ↦
          rw (name, detail, step_decoded)
            (step_insn-IsSound d m ops (count_instruction st) there name detail h)
    ]
  ]

  pub run_decoded-IsSound :
      (rest : List Decoded) (st : State)
      → All (λ d. Any (λ e. e ≡ d) insns) rest
      → IsSound s base insns ordered st
      → IsSound s base insns ordered (run_decoded s base rest st)
  unfolding run_decoded
  run_decoded-IsSound [] st there h = h
  run_decoded-IsSound (d ∷ rest) st there h =
      run_decoded-IsSound rest (step_decoded s base d st) there.1
        (step_decoded-IsSound d st there.0 h)
