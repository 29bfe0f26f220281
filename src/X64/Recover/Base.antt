-- ===== src/X64/Recover/Base.antt =====
-- crates/delink-x86_64/src/recover.rs: the registers that are marked do hold the image base.
use delink.Prelude.{
  ℕ, zero, suc, ◌≡◌, ◌≢◌, ◌⊎◌, inl, inr, refl, Bool, true, false, some, List, [], ◌∷◌, get_or, set,
  replicate, arith, Bool-cases, Option-cases, ap, ◌∙◌,
}
use delink.X64.{SymbolResolver, gpr64_index, UsedRegister, is_write, Instruction, is_branch}
use delink.X64.Recover.{invalidate, holds_base, loads_base, establish}
use delink.X64.Recover.Origin.{History, IsNotWritten, HoldsBase, IsBased}

get_or-set-false :
    (xs : List Bool) (i j : ℕ)
    → get_or (set xs j false) i false ≡ true
    → (j ≢ i) × (get_or xs i false ≡ true)
get_or-set-false [] i j h = cc
get_or-set-false (x ∷ xs) zero zero h = cc
get_or-set-false (x ∷ xs) zero (suc j) h = (omega arith, h)
get_or-set-false (x ∷ xs) (suc i) zero h = (omega arith, h)
get_or-set-false (x ∷ xs) (suc i) (suc j) h =
    let (differ, there) = get_or-set-false xs i j h in (omega arith, there)

get_or-set-true :
    (xs : List Bool) (i j : ℕ)
    → get_or (set xs j true) i false ≡ true
    → (j ≡ i) ⊎ (get_or xs i false ≡ true)
get_or-set-true [] i j h = cc
get_or-set-true (x ∷ xs) zero zero h = inl refl
get_or-set-true (x ∷ xs) zero (suc j) h = inr h
get_or-set-true (x ∷ xs) (suc i) zero h = inr h
get_or-set-true (x ∷ xs) (suc i) (suc j) h = elim (get_or-set-true xs i j h) [
  | inl same ↦ inl (ap suc same)
  | inr there ↦ inr there
]

-- The marks stand for what the instructions so far have done.
abbrev pub IsMarked : SymbolResolver → List Bool → History → Type 0
IsMarked resolver imgbase history =
    (i : ℕ) → get_or imgbase i false ≡ true → HoldsBase resolver i history

pub replicate-IsMarked :
    (resolver : SymbolResolver) (n : ℕ) → IsMarked resolver (replicate n false) []
replicate-IsMarked resolver zero i h = cc
replicate-IsMarked resolver (suc n) zero h = cc
replicate-IsMarked resolver (suc n) (suc i) h = replicate-IsMarked resolver n i h

-- A mark that is left is that of a register which is not written.
pub invalidate_lem :
    (used : List UsedRegister) (imgbase : List Bool) (i : ℕ)
    → get_or (invalidate used imgbase) i false ≡ true
    → IsNotWritten i used × (get_or imgbase i false ≡ true)
unfolding invalidate
invalidate_lem [] imgbase i h = (tt, h)
invalidate_lem (u ∷ used) imgbase i h = elim (Bool-cases (is_write u.access)) [
  | inr reads ↦
      let (later, there) = invalidate_lem used imgbase i (rw (reads, invalidate) at h) in
      ((λ w. cc, later), there)
  | inl writes ↦ elim (Option-cases (gpr64_index u.register)) [
    | inl none' ↦
        let (later, there) = invalidate_lem used imgbase i (rw (writes, none', invalidate) at h) in
        ((λ w e. cc, later), there)
    | inr (j, found) ↦
        let (later, there) =
          invalidate_lem used (set imgbase j false) i (rw (writes, found, invalidate) at h) in
        let (differ, before) = get_or-set-false imgbase i j there in
        ((λ w e. ground arith, later), before)
  ]
]

module _ (resolver : SymbolResolver) (insn : Instruction) (before : History) (imgbase : List Bool)
    (marked : IsMarked resolver imgbase before) where
  -- Where a register is marked after the writes, the operand is based on the image base.
  pub holds_base-IsBased :
      holds_base (invalidate insn.used_registers imgbase) insn.memory_base ≡ true
      → IsBased resolver insn before
  holds_base-IsBased h = elim (Option-cases (gpr64_index insn.memory_base)) [
    | inl none' ↦ let h' = rw (none', holds_base) at h in cc
    | inr (i, found) ↦
        let (quiet, there) =
          invalidate_lem insn.used_registers imgbase i (rw (found, holds_base) at h) in
        record { index = i; is_base = found; is_not_written = quiet; holds = marked i there }
  ]

  pub invalidate-IsMarked :
      IsMarked resolver (invalidate insn.used_registers imgbase) (insn ∷ before)
  invalidate-IsMarked i h =
      let (quiet, there) = invalidate_lem insn.used_registers imgbase i h in
      inr (inr quiet, marked i there)

  pub establish-IsMarked :
      insn.is_invalid ≡ false
      → is_branch insn.flow_control ≡ false
      → IsMarked resolver
          (establish resolver insn (invalidate insn.used_registers imgbase))
          (insn ∷ before)
  unfolding establish
  establish-IsMarked valid straight i h = elim (Bool-cases (loads_base resolver insn)) [
    | inr other ↦ invalidate-IsMarked i (rw (other, establish) at h)
    | inl loads ↦ elim (Option-cases (gpr64_index insn.op0_register)) [
      | inl none' ↦ invalidate-IsMarked i (rw (loads, none', establish) at h)
      | inr (j, found) ↦ elim (get_or-set-true _ i j (rw (loads, found, establish) at h)) [
        | inr there ↦ invalidate-IsMarked i there
        | inl same ↦ inl (record {
          is_valid = valid;
          is_no_branch = straight;
          loads = loads;
          into = found ∙ ap some same;
        })
      ]
    ]
  ]

  pub invalid-IsMarked : insn.is_invalid ≡ true → IsMarked resolver imgbase (insn ∷ before)
  invalid-IsMarked invalid i h = inr (inl invalid, marked i h)
