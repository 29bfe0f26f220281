-- ===== src/X86/Fields.antt =====
-- crates/delink-x86/src/recover.rs: the fields that the relocations patch, and what they refer to.
use delink.Prelude.{
  ℕ, ◌-◌, ◌%◌, ◌^◌, ◌≤◌, ◌≡◌, refl, sym, subst, ◌⊎◌, inl, inr, true, false, ◌&&◌, some, List, [],
  ◌∷◌, ◌++◌, ◌==◌, leb, if◌then◌else◌, arith, All, Any, All-append, All-imp, Any-append_left,
  Any-append_right, Bool-cases, Option-cases,
}
use delink.Prelude.Text.{Str}
use delink.Prelude.Int.{ℤ, pos}
use delink.Prelude.Words.{add_u64, sub_u64}
use delink.X86.{
  RelocKind, RecoveredReloc, SymbolResolver, FlowControl, Instruction, is_branch, fs_reloc,
  branch_reloc, leaves_function, recover,
}
use delink.X86.Fixups.{fs_fixup, branch_fixup, fixups, all_fixups, recover-all_fixups}

-- The place of an instruction in the function.
abbrev place : ℕ → Instruction → ℕ
place fn_va insn = sub_u64 insn.ip (fn_va % 2 ^ 32)

-- A call or a jump.
abbrev IsJump : FlowControl → Type 0
IsJump FlowControl.call = Unit
IsJump FlowControl.unconditional_branch = Unit
IsJump FlowControl.conditional_branch = Unit
IsJump FlowControl.other_flow = ⊥

is_branch-IsJump : (f : FlowControl) → is_branch f ≡ true → IsJump f
is_branch-IsJump FlowControl.call h = tt
is_branch-IsJump FlowControl.unconditional_branch h = tt
is_branch-IsJump FlowControl.conditional_branch h = tt
is_branch-IsJump FlowControl.other_flow h = cc

IsJump-is_branch : (f : FlowControl) → IsJump f → is_branch f ≡ true
IsJump-is_branch FlowControl.call h = refl
IsJump-is_branch FlowControl.unconditional_branch h = refl
IsJump-is_branch FlowControl.conditional_branch h = refl
IsJump-is_branch FlowControl.other_flow h = absurd h

module _ (resolver : SymbolResolver) (fn_va fn_size : ℕ) where
  -- A valid branch of five bytes or more to outside the function.
  pub record IsFar (insn : Instruction) : Type 0 where
    pub is_valid : insn.is_invalid ≡ false
    pub is_jump : IsJump insn.flow_control
    pub is_long : 5 ≤ insn.len
    pub is_outside : resolver.is_intra_function fn_va fn_size insn.near_branch32 ≡ false

  -- The field is the last four bytes of a far branch, and the symbol is the one at its target.
  pub record PatchesBranch (r : RecoveredReloc) (insn : Instruction) : Type 0 where
    pub is_far : IsFar insn
    pub is_rel32 : r.kind ≡ RelocKind.rel32
    pub is_at : r.pc ≡ insn.ip
    pub ends : add_u64 r.offset 4 ≡ add_u64 (place fn_va insn) insn.len
    pub resolves : resolver.resolve_code insn.near_branch32 ≡ some (r.target, r.addend)

  -- The field is the displacement of four bytes of an access to fs:[0].
  pub record PatchesFsZero (r : RecoveredReloc) (insn : Instruction) : Type 0 where
    pub is_valid : insn.is_invalid ≡ false
    pub is_fs_zero : insn.fs_absolute_zero ≡ true
    pub is_long : insn.displacement_size ≡ 4
    pub is_dir32 : r.kind ≡ RelocKind.dir32
    pub is_at : r.pc ≡ insn.ip
    pub is_displacement : r.offset ≡ add_u64 (place fn_va insn) insn.displacement_offset
    pub resolves : resolver.resolve_fs_zero ≡ some r.target
    pub no_addend : r.addend ≡ pos 0

  abbrev pub Patches : RecoveredReloc → Instruction → Type 0
  Patches r insn = PatchesBranch r insn ⊎ PatchesFsZero r insn

  leaves_function-IsFar :
      (insn : Instruction)
      → insn.is_invalid ≡ false
      → leaves_function resolver fn_va fn_size insn ≡ true
      → IsFar insn
  unfolding leaves_function
  leaves_function-IsFar insn valid h = record {
    is_valid = valid;
    is_jump = is_branch-IsJump insn.flow_control (ground arith);
    is_long = ground arith;
    is_outside = ground arith;
  }

  IsFar-leaves_function :
      (insn : Instruction) → IsFar insn → leaves_function resolver fn_va fn_size insn ≡ true
  unfolding leaves_function
  IsFar-leaves_function insn h =
      let jumps = IsJump-is_branch insn.flow_control h.is_jump in
      let outside = h.is_outside in
      let long : leb 5 insn.len ≡ true = ground (arith, h.is_long) in rw (jumps, long, outside) refl

  far_fixup :
      (insn : Instruction) (target : Str) (addend : ℤ)
      → IsFar insn
      → resolver.resolve_code insn.near_branch32 ≡ some (target, addend)
      → PatchesBranch
          (record {
            offset = add_u64 (place fn_va insn) (insn.len - 4);
            pc = insn.ip;
            kind = RelocKind.rel32;
            target = target;
            addend = addend;
          })
          insn
  far_fixup insn target addend far found = record {
    is_far = far;
    is_rel32 = refl;
    is_at = refl;
    ends = omega (arith, far.is_long);
    resolves = found;
  }

  -- The two parts of the fixups of a valid instruction.
  abbrev fs_part : Instruction → List RecoveredReloc
  fs_part insn =
      if insn.fs_absolute_zero && insn.displacement_size == 4
      then fs_fixup resolver (place fn_va insn) insn
      else []

  abbrev branch_part : Instruction → List RecoveredReloc
  branch_part insn =
      if leaves_function resolver fn_va fn_size insn
      then branch_fixup resolver (place fn_va insn) insn
      else []

  fixups-Patches :
      (insn : Instruction) → All (λ r. Patches r insn) (fixups resolver fn_va fn_size insn)
  unfolding fixups
  fixups-Patches insn = elim (Bool-cases insn.is_invalid) [
    | inl bad ↦
        let none_at_all : fixups resolver fn_va fn_size insn ≡ [] = ground arith in
        subst (All (λ r. Patches r insn)) (sym none_at_all) tt
    | inr valid ↦
        let both : fixups resolver fn_va fn_size insn ≡ (fs_part insn) ++ (branch_part insn) =
          ground arith in
        subst (All (λ r. Patches r insn)) (sym both) (
          All-append (λ r. Patches r insn) (fs_part insn) (branch_part insn) (fs valid)
            (branch valid))
  ]
    where
      fs : insn.is_invalid ≡ false → All (λ r. Patches r insn) (fs_part insn)
      fs valid = elim (Bool-cases (insn.fs_absolute_zero && insn.displacement_size == 4)) [
        | inr other ↦ rw other tt
        | inl zero' ↦ elim (Option-cases resolver.resolve_fs_zero) [
          | inl absent ↦
              let nothing : fs_fixup resolver (place fn_va insn) insn ≡ [] = ground arith in
              rw (zero', nothing) tt
          | inr (target, found) ↦
              let one : fs_fixup resolver (place fn_va insn) insn
                  ≡ fs_reloc (place fn_va insn) insn target ∷ [] =
                ground arith in
              rw (zero', one)
                (
                  inr (record {
                    is_valid = valid;
                    is_fs_zero = ground arith;
                    is_long = ground arith;
                    is_dir32 = refl;
                    is_at = refl;
                    is_displacement = refl;
                    resolves = found;
                    no_addend = refl;
                  }),
                  tt,
                )
        ]
      ]

      branch : insn.is_invalid ≡ false → All (λ r. Patches r insn) (branch_part insn)
      branch valid = elim (Bool-cases (leaves_function resolver fn_va fn_size insn)) [
        | inr stays ↦ rw stays tt
        | inl far ↦ elim (Option-cases (resolver.resolve_code insn.near_branch32)) [
          | inl absent ↦ rw (far, absent, branch_fixup) tt
          | inr ((target, addend), found) ↦
              rw (far, found, branch_fixup)
                (
                  inl (far_fixup insn target addend (leaves_function-IsFar insn valid far) found),
                  tt,
                )
        ]
      ]

  all_fixups-Patches :
      (insns : List Instruction)
      → All (λ r. Any (Patches r) insns) (all_fixups resolver fn_va fn_size insns)
  all_fixups-Patches [] = tt
  all_fixups-Patches (insn ∷ insns) =
      All-append (λ r. Any (Patches r) (insn ∷ insns)) (fixups resolver fn_va fn_size insn)
        (all_fixups resolver fn_va fn_size insns)
        (All-imp (λ r h. inl h) (fixups resolver fn_va fn_size insn) (fixups-Patches insn))
        (All-imp (λ r h. inr h) (all_fixups resolver fn_va fn_size insns)
          (all_fixups-Patches insns))

  fixups-far :
      (insn : Instruction) (target : Str) (addend : ℤ)
      → IsFar insn
      → resolver.resolve_code insn.near_branch32 ≡ some (target, addend)
      → Any (λ r. PatchesBranch r insn) (fixups resolver fn_va fn_size insn)
  unfolding fixups
  fixups-far insn target addend far found =
      let valid = far.is_valid in
      let leaves = IsFar-leaves_function insn far in
      let all : fixups resolver fn_va fn_size insn
          ≡ (fs_part insn) ++ (branch_reloc (place fn_va insn) insn target addend ∷ []) =
        ground arith in
      subst (Any (λ r. PatchesBranch r insn)) (sym all) (
        Any-append_right (λ r. PatchesBranch r insn) (fs_part insn)
          (branch_reloc (place fn_va insn) insn target addend ∷ [])
          (inl (far_fixup insn target addend far found)))

  all_fixups-far :
      (insns : List Instruction) (insn : Instruction) (target : Str) (addend : ℤ)
      → Any (λ i. i ≡ insn) insns
      → IsFar insn
      → resolver.resolve_code insn.near_branch32 ≡ some (target, addend)
      → Any (λ r. PatchesBranch r insn) (all_fixups resolver fn_va fn_size insns)
  all_fixups-far [] insn target addend there far found = absurd there
  all_fixups-far (i ∷ insns) insn target addend (inl same) far found =
      Any-append_left (λ r. PatchesBranch r insn) (fixups resolver fn_va fn_size i) _
        (rw same (fixups-far insn target addend far found))
  all_fixups-far (i ∷ insns) insn target addend (inr there) far found =
      Any-append_right (λ r. PatchesBranch r insn) (fixups resolver fn_va fn_size i) _
        (all_fixups-far insns insn target addend there far found)

-- Each relocation that the x86 recover returns patches a field of one of the instructions: the last
-- four bytes of a valid branch of five bytes or more to outside the function, against the symbol that
-- the caller has at its target, or the displacement of four bytes of an access to fs:[0], against the
-- symbol of the exception list.
pub recover-Patches :
    (decode_all : List ℕ → ℕ → List Instruction) (bytes : List ℕ) (fn_va fn_size : ℕ)
    (resolver : SymbolResolver)
    → All
        (λ r. Any (Patches resolver fn_va fn_size r) (decode_all bytes (fn_va % 2 ^ 32)))
        (recover decode_all bytes fn_va fn_size resolver).relocs
recover-Patches decode_all bytes fn_va fn_size resolver =
    rw (recover-all_fixups decode_all bytes fn_va fn_size resolver)
      (all_fixups-Patches resolver fn_va fn_size (decode_all bytes (fn_va % 2 ^ 32)))

-- No branch is forgotten: for each valid branch of five bytes or more to outside the function whose
-- target the caller resolves, the x86 recover returns a relocation of its last four bytes against the
-- symbol at its target.
pub recover-far :
    (decode_all : List ℕ → ℕ → List Instruction) (bytes : List ℕ) (fn_va fn_size : ℕ)
    (resolver : SymbolResolver) (insn : Instruction) (target : Str) (addend : ℤ)
    → Any (λ i. i ≡ insn) (decode_all bytes (fn_va % 2 ^ 32))
    → IsFar resolver fn_va fn_size insn
    → resolver.resolve_code insn.near_branch32 ≡ some (target, addend)
    → Any
        (λ r. PatchesBranch resolver fn_va fn_size r insn)
        (recover decode_all bytes fn_va fn_size resolver).relocs
recover-far decode_all bytes fn_va fn_size resolver insn target addend there far found =
    rw (recover-all_fixups decode_all bytes fn_va fn_size resolver) (
      all_fixups-far resolver fn_va fn_size (decode_all bytes (fn_va % 2 ^ 32)) insn target addend
        there far found)
