-- ===== src/Arm/Recover/Relink/Run.antt =====
-- crates/delink-arm/src/recover.rs, `recover`: the runs of code and the whole pass.
use delink.Prelude.{
  ℕ, ◌+◌, ◌-◌, ◌≡◌, refl, sym, none, some, List, [], ◌∷◌, ◌++◌, leb, arith, Option-cases,
  Bool-cases, All, All-imp, Any, subst, inl, inr,
}
use delink.Prelude.Eq.{nat_eq}
use delink.Prelude.Bytes.{slice}
use delink.Prelude.Words.{IsByte}
use delink.Symbols.{GlobalSymbols}
use delink.Symbols.Sound.{IsOrderedTable}
use delink.Arm.{RecoveryOutput, CodeImage, Decoded, Capstone, classify}
use delink.Arm.Classify.{classify-IsBounded}
use delink.Arm.Pools.{Run, code_runs, find_pools}
use delink.Arm.Recover.{step_decoded, run_decoded, run_all, ok, recover, initial}
use delink.Arm.Emit.{State}
use delink.Arm.Recover.Relink.{Relinks}
use delink.Arm.Recover.Relink.Code.{classify-ClassMeans}
use delink.Arm.Recover.Relink.Steps.{LocalsAreU64}
use delink.Arm.Recover.Relink.Keeps.{
  Tracks-nil, Keeps, step_insn-Keeps, counts-Keeps, failure-Keeps, skip-Keeps,
}

-- The instructions that capstone decodes in these runs of code.
abbrev pub decoded_runs : Capstone → List Run → List Decoded
decoded_runs cs [] = []
decoded_runs cs ((addr, bytes) ∷ runs) =
    elim (cs.disasm_all bytes addr) [ none ↦ [] | some insns ↦ insns ] ++ decoded_runs cs runs

-- The instructions of a function: those of its code runs, between the pools.
abbrev pub decoded_code : Capstone → (fn_addr fn_size : ℕ) → CodeImage → List Decoded
decoded_code cs fn_addr fn_size image =
    elim (slice image.bytes (fn_addr - image.base) (fn_addr - image.base + fn_size)) [
      | none ↦ []
      | some bytes ↦ decoded_runs cs (code_runs bytes fn_addr (find_pools cs bytes fn_addr 3 []))
    ]

members : (insns : List Decoded) → All (λ d. Any (λ e. e ≡ d) insns) insns
members [] = tt
members (d ∷ insns) = (inl refl, All-imp (λ e h. inr h) insns (members insns))

All-append_split :
    (P : Decoded → Type 0) (xs ys : List Decoded) → All P (xs ++ ys) → All P xs × All P ys
All-append_split P [] ys h = (tt, h)
All-append_split P (x ∷ xs) ys (first, rest) =
    let (front, back) = All-append_split P xs ys rest in ((first, front), back)

module _ (cs : Capstone) (insns : List Decoded) (s : GlobalSymbols) (image : CodeImage)
    (fn_addr fn_size : ℕ) where
  -- An instruction of the code.
  abbrev IsCode : Decoded → Type 0
  IsCode d = Any (λ e. e ≡ d) insns

  step_decoded-Keeps :
      (insn : Decoded) (st : State)
      → IsCode insn
      → IsOrderedTable s
      → LocalsAreU64 s
      → All IsByte image.bytes
      → Keeps cs insns s image fn_addr fn_size st
      → Keeps cs insns s image fn_addr fn_size (step_decoded cs s image fn_addr fn_size insn st)
  unfolding step_decoded
  step_decoded-Keeps insn st there o l b k =
      let k' = counts-Keeps cs insns s image fn_addr fn_size st k in
      elim (Option-cases insn.mnemonic) [
        | inl unnamed ↦
            rw (unnamed, step_decoded) (failure-Keeps cs insns s image fn_addr fn_size _ k')
        | inr (m, named) ↦ elim (Option-cases insn.detail) [
          | inl opaque ↦
              rw (named, opaque, step_decoded) (failure-Keeps cs insns s image fn_addr fn_size _ k')
          | inr (ops, detailed) ↦
              rw (named, detailed, step_decoded)
                (step_insn-Keeps cs insns s image fn_addr fn_size insn m ops (classify cs ops insn)
                  _ o l b there (classify-ClassMeans cs insn ops detailed)
                  (classify-IsBounded cs ops insn) k')
        ]
      ]

  run_decoded-Keeps :
      (rest : List Decoded) (st : State)
      → All IsCode rest
      → IsOrderedTable s
      → LocalsAreU64 s
      → All IsByte image.bytes
      → Keeps cs insns s image fn_addr fn_size st
      → Keeps cs insns s image fn_addr fn_size (run_decoded cs s image fn_addr fn_size rest st)
  unfolding run_decoded
  run_decoded-Keeps [] st there o l b k = k
  run_decoded-Keeps (i ∷ is) st (here, rest) o l b k =
      run_decoded-Keeps is _ rest o l b (step_decoded-Keeps i st here o l b k)

  run_all-Keeps :
      (runs : List Run) (st : State)
      → All IsCode (decoded_runs cs runs)
      → IsOrderedTable s
      → LocalsAreU64 s
      → All IsByte image.bytes
      → Keeps cs insns s image fn_addr fn_size st
      → Keeps cs insns s image fn_addr fn_size (run_all cs s image fn_addr fn_size runs st)
  unfolding run_all
  run_all-Keeps [] st there o l b k = k
  run_all-Keeps ((addr, bytes) ∷ runs) st there o l b k =
      elim (Option-cases (cs.disasm_all bytes addr)) [
        | inl bad ↦
            let same : decoded_runs cs ((addr, bytes) ∷ runs) ≡ decoded_runs cs runs =
              rw bad refl in
            rw (bad, run_all)
              (run_all-Keeps runs _ (subst (All IsCode) same there) o l b
                (skip-Keeps cs insns s image fn_addr fn_size st k))
        | inr (run, good) ↦
            let same : decoded_runs cs ((addr, bytes) ∷ runs) ≡ run ++ decoded_runs cs runs =
              rw good refl in
            let (here, rest) =
              All-append_split IsCode run (decoded_runs cs runs) (subst (All IsCode) same there) in
            rw (good, run_all)
              (run_all-Keeps runs _ rest o l b (run_decoded-Keeps run st here o l b k))
      ]

-- For an image of bytes and an ordered symbol table whose slots hold u64s, each relocation that the
-- ARM `recover` returns belongs to instructions that capstone decodes, and relinks. A branch
-- relocation stands at a `bl`, `blx` or `b`, and its symbol and addend, applied as the linker does,
-- lead to the target of that instruction. A relocated pool word lies in the function, and a literal
-- load of the function loads it to a register; the relocation's `pc` is of an instruction that adds
-- the same register to the program counter; and the symbol at its original address, or for the GOT
-- kind the slot that names it, gives back the word that the linked image holds.
pub recover-Relinks :
    (cs : Capstone) (fn_addr fn_size : ℕ) (image : CodeImage) (s : GlobalSymbols)
    (out : RecoveryOutput)
    → IsOrderedTable s
    → LocalsAreU64 s
    → All IsByte image.bytes
    → recover cs fn_addr fn_size image s ≡ ok out
    → All (Relinks cs (decoded_code cs fn_addr fn_size image) s image fn_addr fn_size) out.relocs
unfolding recover
recover-Relinks cs fn_addr fn_size image s out o l b e =
    elim (Bool-cases (leb image.base fn_addr)) [
      | inr before ↦ ground arith
      | inl after ↦
          elim (Option-cases
            (slice image.bytes (fn_addr - image.base) (fn_addr - image.base + fn_size))) [
              | inl past ↦ ground arith
              | inr (bytes, found) ↦
                  let runs : List Run =
                    code_runs bytes fn_addr (find_pools cs bytes fn_addr 3 []) in
                  let insns : List Decoded = decoded_runs cs runs in
                  let code : decoded_code cs fn_addr fn_size image ≡ insns =
                    rw (found, decoded_code) refl in
                  let start : Keeps cs insns s image fn_addr fn_size initial = record {
                    tracks = Tracks-nil cs insns image;
                    relinks = tt;
                  } in
                  let same : (run_all cs s image fn_addr fn_size runs initial).out ≡ out =
                    ground arith in
                  subst (λ is. All (Relinks cs is s image fn_addr fn_size) out.relocs) (sym code)
                    (subst (λ x. All (Relinks cs insns s image fn_addr fn_size) x.relocs) same
                      (run_all-Keeps cs insns s image fn_addr fn_size runs initial (members insns) o
                        l b start).relinks)
            ]
    ]
