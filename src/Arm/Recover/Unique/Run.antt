-- ===== src/Arm/Recover/Unique/Run.antt =====
-- crates/delink-arm/src/recover.rs, `recover`: no pool word is relocated twice.
use delink.Prelude.{
  ℕ, ◌+◌, ◌-◌, ◌≡◌, refl, inl, inr, true, false, not, ◌&&◌, List, [], ◌∷◌, ltb, leb, arith, All,
  Bool-cases, Option-cases, is_some,
}
use delink.Prelude.Text.{Str}
use delink.Prelude.Eq.{nat_eq}
use delink.Prelude.Words.{add_u64, sub_u64}
use delink.Prelude.Bytes.{slice}
use delink.Collections.HashMap
use delink.Collections.HashMap.{HashMap, get-insert}
use delink.Symbols.{GlobalSymbols, in_got}
use delink.Arm.{RelocKind, RecoveryOutput, CodeImage, Operand, Decoded, Capstone, Insn, classify}
use delink.Arm.Pools.{Run, code_runs, find_pools}
use delink.Arm.Emit.{State, handle_branch}
use delink.Arm.Recover.{
  reference, use_pcrel, use_indexed, step_insn, count_instruction, count_decode_failure,
  step_decoded, run_decoded, run_all, ok, initial, recover,
}
use delink.Arm.Recover.Unique.{
  is_pool, pool_offsets, AreDistinct, IsUnique, emit_pcrel-IsUnique, emit_got-IsUnique,
  handle_branch-pool_offsets,
}

module _ (s : GlobalSymbols) (image : CodeImage) (fn_addr fn_size : ℕ) where
  use_pcrel-IsUnique :
      (pc rn : ℕ) (st : State)
      → IsUnique fn_addr fn_size st
      → IsUnique fn_addr fn_size (use_pcrel s fn_addr fn_size pc rn st)
  unfolding use_pcrel
  use_pcrel-IsUnique pc rn st h = elim (Option-cases (HashMap.get rn st.tracker)) [
    | inl absent ↦ rw (absent, use_pcrel) h
    | inr (site, found) ↦
        rw (found, use_pcrel)
          (emit_pcrel-IsUnique fn_addr fn_size s site pc (reference pc site) st h)
  ]

  use_indexed-IsUnique :
      (pc rn : ℕ) (st : State)
      → IsUnique fn_addr fn_size st
      → IsUnique fn_addr fn_size (use_indexed s fn_addr fn_size pc rn st)
  unfolding use_indexed
  use_indexed-IsUnique pc rn st h = elim (Option-cases (HashMap.get rn st.tracker)) [
    | inl absent ↦ rw (absent, use_indexed) h
    | inr (site, found) ↦ elim (Bool-cases (in_got s (reference pc site))) [
      | inl slot ↦
          rw (found, slot, use_indexed)
            (emit_got-IsUnique fn_addr fn_size s site pc (reference pc site) st h)
      | inr other ↦
          rw (found, other, use_indexed)
            (emit_pcrel-IsUnique fn_addr fn_size s site pc (reference pc site) st h)
    ]
  ]

  -- A branch leaves the pool offsets and the claims alone.
  branch-IsUnique :
      (pc target : ℕ) (kind : RelocKind) (st : State)
      → is_pool kind ≡ false
      → IsUnique fn_addr fn_size st
      → let relocs = (handle_branch s (sub_u64 pc fn_addr) pc target kind st.out).relocs in
        All (λ o. is_some (HashMap.get (fn_addr + o) st.claimed) ≡ true) (pool_offsets relocs)
        × AreDistinct (pool_offsets relocs)
  branch-IsUnique pc target kind st branch h =
      rw
        (handle_branch-pool_offsets fn_addr fn_size s (sub_u64 pc fn_addr) pc target kind st.out
          branch)
        h

  step_insn-IsUnique :
      (pc : ℕ) (m : Str) (ops : List Operand) (i : Insn) (st : State)
      → IsUnique fn_addr fn_size st
      → IsUnique fn_addr fn_size (step_insn s image fn_addr fn_size pc m ops i st)
  unfolding step_insn
  step_insn-IsUnique pc m ops (Insn.branch true target) st h =
      branch-IsUnique pc target RelocKind.call st refl h
  step_insn-IsUnique pc m ops (Insn.branch false target) st h =
      elim (Bool-cases (not (leb fn_addr target && ltb target (add_u64 fn_addr fn_size)))) [
        | inl leaves ↦ rw leaves (branch-IsUnique pc target RelocKind.jump24 st refl h)
        | inr stays ↦ rw stays h
      ]
  step_insn-IsUnique pc m ops (Insn.pool_load rd pool) st h = h
  step_insn-IsUnique pc m ops (Insn.add_pc rd rn) st h = use_pcrel-IsUnique pc rn st h
  step_insn-IsUnique pc m ops (Insn.pc_indexed_load rd rn) st h = use_indexed-IsUnique pc rn st h
  step_insn-IsUnique pc m ops Insn.other st h = h
  step_insn-IsUnique pc m ops Insn.barrier st h = h

module _ (cs : Capstone) (s : GlobalSymbols) (image : CodeImage) (fn_addr fn_size : ℕ) where
  step_decoded-IsUnique :
      (insn : Decoded) (st : State)
      → IsUnique fn_addr fn_size st
      → IsUnique fn_addr fn_size (step_decoded cs s image fn_addr fn_size insn st)
  unfolding step_decoded count_instruction count_decode_failure
  step_decoded-IsUnique insn st h = elim (Option-cases insn.mnemonic) [
    | inl absent ↦ rw (absent, step_decoded) h
    | inr (m, name) ↦ elim (Option-cases insn.detail) [
      | inl absent ↦ rw (name, absent, step_decoded) h
      | inr (ops, detail) ↦
          rw (name, detail, step_decoded)
            (step_insn-IsUnique s image fn_addr fn_size insn.address m ops (classify cs ops insn)
              (count_instruction st) h)
    ]
  ]

  run_decoded-IsUnique :
      (insns : List Decoded) (st : State)
      → IsUnique fn_addr fn_size st
      → IsUnique fn_addr fn_size (run_decoded cs s image fn_addr fn_size insns st)
  unfolding run_decoded
  run_decoded-IsUnique [] st h = h
  run_decoded-IsUnique (insn ∷ insns) st h =
      run_decoded-IsUnique insns (step_decoded cs s image fn_addr fn_size insn st)
        (step_decoded-IsUnique insn st h)

  run_all-IsUnique :
      (runs : List Run) (st : State)
      → IsUnique fn_addr fn_size st
      → IsUnique fn_addr fn_size (run_all cs s image fn_addr fn_size runs st)
  unfolding run_all count_decode_failure
  run_all-IsUnique [] st h = h
  run_all-IsUnique ((addr, bytes) ∷ runs) st h = elim (Option-cases (cs.disasm_all bytes addr)) [
    | inl absent ↦ rw (absent, run_all) (run_all-IsUnique runs (count_decode_failure st) h)
    | inr (insns, found) ↦
        rw (found, run_all)
          (run_all-IsUnique runs (run_decoded cs s image fn_addr fn_size insns st)
            (run_decoded-IsUnique insns st h))
  ]

-- Whatever capstone decodes, no two relocations of pool words that `recover` returns have one
-- offset: a word that several loads share is relocated once.
pub recover-AreDistinct :
    (cs : Capstone) (fn_addr fn_size : ℕ) (image : CodeImage) (s : GlobalSymbols)
    (out : RecoveryOutput)
    → recover cs fn_addr fn_size image s ≡ ok out
    → AreDistinct (pool_offsets out.relocs)
unfolding recover
recover-AreDistinct cs fn_addr fn_size image s out e = elim (Bool-cases (leb image.base fn_addr)) [
  | inr before ↦ ground arith
  | inl after ↦
      elim (Option-cases
        (slice image.bytes (fn_addr - image.base) (fn_addr - image.base + fn_size))) [
          | inl past ↦ ground arith
          | inr (bytes, found) ↦
              let runs : List Run = code_runs bytes fn_addr (find_pools cs bytes fn_addr 3 []) in
              let unique = run_all-IsUnique cs s image fn_addr fn_size runs initial (tt, tt) in
              let same : out ≡ (run_all cs s image fn_addr fn_size runs initial).out =
                ground arith in
              rw same unique.1
        ]
]
