-- ===== src/Arm/Classify.antt =====
-- What the classification of an instruction promises: branch targets and pool addresses are u64s.
use delink.Prelude.{ℕ, ◌^◌, ◌<◌, ◌≡◌, refl, ◌≢◌, Bool, some, List, [], ◌∷◌, arith}
use delink.Prelude.Words.{IsU64}
use delink.Arm.{Operand, Decoded, Capstone, Insn, first_imm, classify_load, classify_add, classify}

first_imm-lt : (ops : List Operand) (v : ℕ) → first_imm ops ≡ some v → v < 2 ^ 32
unfolding first_imm
first_imm-lt [] v h = cc
first_imm-lt (op ∷ ops) v h = ground (arith, first_imm-lt ops v)

classify_load-pool :
    (cs : Capstone) (address : ℕ) (ops : List Operand) (rd pool : ℕ)
    → classify_load cs address ops ≡ some (Insn.pool_load rd pool)
    → IsU64 pool
unfolding classify_load
classify_load-pool cs address [] rd pool e = cc
classify_load-pool cs address (a ∷ []) rd pool e = cc
classify_load-pool cs address (a ∷ m ∷ []) rd pool e = ground arith
classify_load-pool cs address (a ∷ m ∷ x ∷ xs) rd pool e = cc

classify_load-branch :
    (cs : Capstone) (address : ℕ) (ops : List Operand) (link : Bool) (target : ℕ)
    → classify_load cs address ops ≢ some (Insn.branch link target)
unfolding classify_load
classify_load-branch cs address [] link target e = cc
classify_load-branch cs address (a ∷ []) link target e = cc
classify_load-branch cs address (a ∷ m ∷ []) link target e = ground arith
classify_load-branch cs address (a ∷ m ∷ x ∷ xs) link target e = cc

classify_add-add :
    (cs : Capstone) (ops : List Operand) (i : Insn)
    → classify_add cs ops ≡ some i
    → (rd : ℕ) × (rn : ℕ) × (i ≡ Insn.add_pc rd rn)
unfolding classify_add
classify_add-add cs [] i e = cc
classify_add-add cs (a ∷ []) i e = cc
classify_add-add cs (a ∷ m ∷ []) i e = cc
classify_add-add cs (a ∷ m ∷ x ∷ []) i e = ground arith
classify_add-add cs (a ∷ m ∷ x ∷ y ∷ ys) i e = cc

-- A branch leads to a u32, zero-extended.
classify-branch :
    (cs : Capstone) (ops : List Operand) (insn : Decoded) (link : Bool) (target : ℕ)
    → classify cs ops insn ≡ Insn.branch link target
    → IsU64 target
unfolding classify
classify-branch cs ops insn link target e = ground (
  arith,
  first_imm-lt ops target,
  classify_load-branch cs insn.address ops link target,
  classify_add-add cs ops (Insn.branch link target),
)

-- The pool address of a literal load is a wrapped sum.
classify-pool :
    (cs : Capstone) (ops : List Operand) (insn : Decoded) (rd pool : ℕ)
    → classify cs ops insn ≡ Insn.pool_load rd pool
    → IsU64 pool
unfolding classify
classify-pool cs ops insn rd pool e = ground (arith, classify_load-pool cs insn.address ops rd pool)

-- The addresses that a classified instruction carries are u64s.
abbrev pub IsBounded : Insn → Type 0
IsBounded (Insn.branch link target) = IsU64 target
IsBounded (Insn.pool_load rd pool_addr) = IsU64 pool_addr
IsBounded _ = Unit

IsBounded-of :
    (i : Insn)
    → ((link : Bool) (target : ℕ) → i ≡ Insn.branch link target → IsU64 target)
    → ((rd pool : ℕ) → i ≡ Insn.pool_load rd pool → IsU64 pool)
    → IsBounded i
IsBounded-of (Insn.branch link target) b p = b link target refl
IsBounded-of (Insn.pool_load rd pool) b p = p rd pool refl
IsBounded-of _ b p = tt

pub classify-IsBounded :
    (cs : Capstone) (ops : List Operand) (insn : Decoded) → IsBounded (classify cs ops insn)
classify-IsBounded cs ops insn =
    IsBounded-of (classify cs ops insn) (classify-branch cs ops insn) (classify-pool cs ops insn)
