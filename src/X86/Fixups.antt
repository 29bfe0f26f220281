-- ===== src/X86/Fixups.antt =====
-- crates/delink-x86/src/recover.rs, `recover`: the loop, against what each instruction gives by itself.
use delink.Prelude.{
  append_assoc, append_nil, ℕ, ◌+◌, ◌%◌, ◌^◌, ◌≡◌, refl, sym, ◌∙◌, ap, Bool, ◌&&◌, not, none, some,
  List, [], ◌∷◌, ◌++◌, ◌==◌, if◌then◌else◌, arith, Bool-cases, Option-cases, inl, inr,
}
use delink.X86.{
  RecoveredReloc, RecoveryOutput, SymbolResolver, Instruction, note_rep_ret, fs_reloc, emit_fs_zero,
  branch_reloc, leaves_function, emit_branch, insn_offset_of, count_instruction, step, run,
  empty_output, recover,
}

-- The fixup of `fs:[0]`, where the caller names its symbol.
abbrev pub fs_fixup : SymbolResolver → ℕ → Instruction → List RecoveredReloc
fs_fixup resolver insn_offset insn = elim (resolver.resolve_fs_zero) [
  | none ↦ []
  | some target ↦ fs_reloc insn_offset insn target ∷ []
]

-- The fixup of a branch, where its target resolves.
abbrev pub branch_fixup : SymbolResolver → ℕ → Instruction → List RecoveredReloc
branch_fixup resolver insn_offset insn = elim (resolver.resolve_code insn.near_branch32) [
  | none ↦ []
  | some r ↦ branch_reloc insn_offset insn r.0 r.1 ∷ []
]

-- The fixups of one instruction, with no state.
unfoldable pub fixups : SymbolResolver → (fn_va fn_size : ℕ) → Instruction → List RecoveredReloc
fixups resolver fn_va fn_size insn =
    if insn.is_invalid
    then []
    else (if insn.fs_absolute_zero && insn.displacement_size == 4
        then fs_fixup resolver (insn_offset_of fn_va insn) insn
        else [])
      ++ (if leaves_function resolver fn_va fn_size insn
          then branch_fixup resolver (insn_offset_of fn_va insn) insn
          else [])

abbrev pub all_fixups :
    SymbolResolver → (fn_va fn_size : ℕ) → List Instruction → List RecoveredReloc
all_fixups resolver fn_va fn_size [] = []
all_fixups resolver fn_va fn_size (insn ∷ insns) =
    fixups resolver fn_va fn_size insn ++ all_fixups resolver fn_va fn_size insns

-- How many instructions pass a test.
abbrev pub count : (Instruction → Bool) → List Instruction → ℕ
count p [] = 0
count p (insn ∷ insns) = (if p insn then 1 else 0) + count p insns

module _ (resolver : SymbolResolver) (fn_va fn_size : ℕ) where
  note_rep_ret-relocs :
      (bytes : List ℕ) (offset : ℕ) (insn : Instruction) (out : RecoveryOutput)
      → ((note_rep_ret bytes offset insn out).relocs ≡ out.relocs)
        × ((note_rep_ret bytes offset insn out).diag ≡ out.diag)
  unfolding note_rep_ret
  note_rep_ret-relocs bytes offset insn out = ground arith

  emit_fs_zero-relocs :
      (offset : ℕ) (insn : Instruction) (out : RecoveryOutput)
      → ((emit_fs_zero resolver offset insn out).relocs
          ≡ out.relocs
            ++ (if insn.fs_absolute_zero && insn.displacement_size == 4
                then fs_fixup resolver offset insn
                else []))
        × ((emit_fs_zero resolver offset insn out).diag ≡ out.diag)
  unfolding emit_fs_zero
  emit_fs_zero-relocs offset insn out =
      elim (Bool-cases (insn.fs_absolute_zero && insn.displacement_size == 4)) [
        | inr no' ↦ rw (no', emit_fs_zero) (sym (append_nil out.relocs), refl)
        | inl yes' ↦ elim (Option-cases resolver.resolve_fs_zero) [
          | inl absent ↦ rw (yes', absent, emit_fs_zero) (sym (append_nil out.relocs), refl)
          | inr (target, found) ↦ rw (yes', found, emit_fs_zero) (refl, refl)
        ]
      ]

  emit_branch-relocs :
      (offset : ℕ) (insn : Instruction) (out : RecoveryOutput)
      → (emit_branch resolver fn_va fn_size offset insn out).relocs
        ≡ out.relocs
          ++ (if leaves_function resolver fn_va fn_size insn
              then branch_fixup resolver offset insn
              else [])
  unfolding emit_branch
  emit_branch-relocs offset insn out =
      elim (Bool-cases (leaves_function resolver fn_va fn_size insn)) [
        | inr no' ↦ rw (no', emit_branch) (sym (append_nil out.relocs))
        | inl yes' ↦ elim (Option-cases (resolver.resolve_code insn.near_branch32)) [
          | inl absent ↦ rw (yes', absent, emit_branch, branch_fixup) (sym (append_nil out.relocs))
          | inr (r, found) ↦ rw (yes', found, emit_branch, branch_fixup) refl
        ]
      ]

  step-relocs :
      (bytes : List ℕ) (insn : Instruction) (out : RecoveryOutput)
      → (step resolver bytes fn_va fn_size insn out).relocs
        ≡ out.relocs ++ fixups resolver fn_va fn_size insn
  unfolding step fixups
  step-relocs bytes insn out = elim (Bool-cases insn.is_invalid) [
    | inl bad ↦ rw (bad, step) (sym (append_nil out.relocs))
    | inr good ↦
        let offset = insn_offset_of fn_va insn in
        let noted = note_rep_ret bytes offset insn (count_instruction out) in
        let zeroed = emit_fs_zero resolver offset insn noted in
        let fs =
          if insn.fs_absolute_zero && insn.displacement_size == 4
          then fs_fixup resolver offset insn
          else [] in
        let branch =
          if leaves_function resolver fn_va fn_size insn
          then branch_fixup resolver offset insn
          else [] in
        rw (good, step)
          (emit_branch-relocs offset insn zeroed
            ∙ (ap (λ rs. rs ++ branch)
                  ((emit_fs_zero-relocs offset insn noted).0
                    ∙ ap (λ rs. rs ++ fs)
                        (note_rep_ret-relocs bytes offset insn (count_instruction out)).0)
                ∙ append_assoc out.relocs fs branch))
  ]

  run-relocs :
      (bytes : List ℕ) (insns : List Instruction) (out : RecoveryOutput)
      → (run resolver bytes fn_va fn_size insns out).relocs
        ≡ out.relocs ++ all_fixups resolver fn_va fn_size insns
  unfolding run
  run-relocs bytes [] out = sym (append_nil out.relocs)
  run-relocs bytes (insn ∷ insns) out =
      run-relocs bytes insns (step resolver bytes fn_va fn_size insn out)
      ∙ (ap (λ rs. rs ++ all_fixups resolver fn_va fn_size insns) (step-relocs bytes insn out)
          ∙ append_assoc out.relocs (fixups resolver fn_va fn_size insn)
              (all_fixups resolver fn_va fn_size insns))

  -- A valid instruction that leaves the function is counted once, resolved or not.
  abbrev pub leaves : Instruction → Bool
  leaves insn = not insn.is_invalid && leaves_function resolver fn_va fn_size insn

pub recover-all_fixups :
    (decode_all : List ℕ → ℕ → List Instruction) (bytes : List ℕ) (fn_va fn_size : ℕ)
    (resolver : SymbolResolver)
    → (recover decode_all bytes fn_va fn_size resolver).relocs
      ≡ all_fixups resolver fn_va fn_size (decode_all bytes (fn_va % 2 ^ 32))
unfolding recover
recover-all_fixups decode_all bytes fn_va fn_size resolver =
    run-relocs resolver fn_va fn_size bytes (decode_all bytes (fn_va % 2 ^ 32)) empty_output
