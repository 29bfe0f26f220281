-- ===== src/Aarch64/Recover/Sound/Operands.antt =====
-- crates/delink-aarch64/src/recover.rs: what the instructions of a pair and a branch look like, by
-- their operands.
use delink.Prelude.{ℕ, ◌≡◌, refl, ◌⊎◌, inl, inr, true, some, List, [], ◌∷◌, arith, Any}
use delink.Prelude.Text.{Str, codes}
use delink.Prelude.Eq.{nat_eq}
use delink.Prelude.Words.{sign_extend_u32, sub_u64}
use delink.Aarch64.{
  LoKind, Operand, Decoded, MemAccess, imm_operand, reg_write, add_imm_operands, mem_imm_operand,
  is_mem_load_or_store, lo_kind_for_mem,
}

abbrev pub HasImm : ℕ → List Operand → Type 0
HasImm v ops = Any (λ op. op ≡ Operand.imm v) ops

abbrev pub HasReg : ℕ → List Operand → Type 0
HasReg r ops = Any (λ op. op ≡ Operand.reg r) ops

-- `add Rd, Rn, #disp`
abbrev pub Adds : (reg disp : ℕ) → List Operand → Type 0
Adds reg disp ops =
    (rd : ℕ) × (more : List Operand) × (ops
      ≡ Operand.reg rd ∷ Operand.reg reg ∷ Operand.imm disp ∷ more)

-- `[Rn, #disp]`, where the displacement is sign-extended.
abbrev pub Accesses : (reg disp : ℕ) → List Operand → Type 0
Accesses reg disp ops =
    (x : ℕ) × Any (λ op. op ≡ Operand.mem reg 0 x) ops × (disp ≡ sign_extend_u32 x)

-- The instruction uses the address `disp` away from register `reg`: an `add`, or a load or a store
-- of the width that the kind names.
abbrev pub Completes : LoKind → (reg disp : ℕ) → Decoded → Type 0
Completes lo reg disp d =
    (m : Str) × (ops : List Operand) × (d.mnemonic ≡ some m)
    × (d.detail ≡ some ops)
    × (((m ≡ codes "add") × (lo ≡ LoKind.add) × Adds reg disp ops)
        ⊎ ((is_mem_load_or_store m ≡ true) × (lo ≡ lo_kind_for_mem m) × Accesses reg disp ops))

-- The instruction is a branch of this mnemonic to `target`.
abbrev pub BranchesTo : Str → (target : ℕ) → Decoded → Type 0
BranchesTo m target d =
    (ops : List Operand) × (d.mnemonic ≡ some m) × (d.detail ≡ some ops) × HasImm target ops

-- The place of an instruction: its offset in the function, and its address.
abbrev pub StandsIn : (base offset pc : ℕ) → Decoded → Type 0
StandsIn base offset pc d = (pc ≡ d.address) × (offset ≡ sub_u64 d.address base)

pub imm_operand-HasImm : (ops : List Operand) (v : ℕ) → imm_operand ops ≡ some v → HasImm v ops
unfolding imm_operand
imm_operand-HasImm [] v h = ground arith
imm_operand-HasImm (Operand.imm x ∷ ops) v h = inl (ground arith)
imm_operand-HasImm (Operand.reg x ∷ ops) v h = inr (imm_operand-HasImm ops v h)
imm_operand-HasImm (Operand.mem a b c ∷ ops) v h = inr (imm_operand-HasImm ops v h)
imm_operand-HasImm (Operand.other_type ∷ ops) v h = inr (imm_operand-HasImm ops v h)

pub reg_write-HasReg : (ops : List Operand) (r : ℕ) → reg_write ops ≡ some r → HasReg r ops
unfolding reg_write
reg_write-HasReg [] r h = ground arith
reg_write-HasReg (Operand.reg x ∷ ops) r h = inl (ground arith)
reg_write-HasReg (Operand.imm x ∷ ops) r h = inr (reg_write-HasReg ops r h)
reg_write-HasReg (Operand.mem a b c ∷ ops) r h = inr (reg_write-HasReg ops r h)
reg_write-HasReg (Operand.other_type ∷ ops) r h = inr (reg_write-HasReg ops r h)

pub add_imm_operands-Adds :
    (ops : List Operand) (rd reg disp : ℕ)
    → add_imm_operands ops ≡ some (rd, (reg, disp))
    → Adds reg disp ops
unfolding add_imm_operands
add_imm_operands-Adds (Operand.reg x ∷ Operand.reg y ∷ Operand.imm z ∷ ops) rd reg disp h =
    let base : y ≡ reg = ground arith in
    let distance : z ≡ disp = ground arith in (x, ops, rw (base, distance) refl)
add_imm_operands-Adds [] rd reg disp h = cc
add_imm_operands-Adds (Operand.imm x ∷ ops) rd reg disp h = cc
add_imm_operands-Adds (Operand.mem a b c ∷ ops) rd reg disp h = cc
add_imm_operands-Adds (Operand.other_type ∷ ops) rd reg disp h = cc
add_imm_operands-Adds (Operand.reg x ∷ []) rd reg disp h = cc
add_imm_operands-Adds (Operand.reg x ∷ Operand.imm y ∷ ops) rd reg disp h = cc
add_imm_operands-Adds (Operand.reg x ∷ Operand.mem a b c ∷ ops) rd reg disp h = cc
add_imm_operands-Adds (Operand.reg x ∷ Operand.other_type ∷ ops) rd reg disp h = cc
add_imm_operands-Adds (Operand.reg x ∷ Operand.reg y ∷ []) rd reg disp h = cc
add_imm_operands-Adds (Operand.reg x ∷ Operand.reg y ∷ Operand.reg z ∷ ops) rd reg disp h = cc
add_imm_operands-Adds (Operand.reg x ∷ Operand.reg y ∷ Operand.mem a b c ∷ ops) rd reg disp h = cc
add_imm_operands-Adds (Operand.reg x ∷ Operand.reg y ∷ Operand.other_type ∷ ops) rd reg disp h = cc

pub mem_imm_operand-Accesses :
    (ops : List Operand) (a : MemAccess) → mem_imm_operand ops ≡ some a → Accesses a.base a.disp ops
unfolding mem_imm_operand
mem_imm_operand-Accesses [] a h = ground arith
mem_imm_operand-Accesses (Operand.mem base index x ∷ ops) a h =
    let plain : index ≡ 0 = ground arith in
    let same : base ≡ a.base = ground arith in (x, inl (rw (plain, same) refl), ground arith)
mem_imm_operand-Accesses (Operand.imm x ∷ ops) a h =
    let (y, there, d) = mem_imm_operand-Accesses ops a h in (y, inr there, d)
mem_imm_operand-Accesses (Operand.reg x ∷ ops) a h =
    let (y, there, d) = mem_imm_operand-Accesses ops a h in (y, inr there, d)
mem_imm_operand-Accesses (Operand.other_type ∷ ops) a h =
    let (y, there, d) = mem_imm_operand-Accesses ops a h in (y, inr there, d)
