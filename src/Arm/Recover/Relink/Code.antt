-- ===== src/Arm/Recover/Relink/Code.antt =====
-- crates/delink-arm/src/recover.rs, `classify`: what the instructions that lead to a relocation look
-- like, by their ids and operands.
use delink.Prelude.{
  ℕ, ◌%◌, ◌^◌, ◌≡◌, refl, sym, subst, ◌⊎◌, inl, inr, Bool, true, false, ◌&&◌, none, some, List, [],
  ◌∷◌, ◌==◌, arith, Any, Option-cases, Bool-cases,
}
use delink.Prelude.Eq.{nat_eq}
use delink.Prelude.Words.{add_u64, sign_extend_u32}
use delink.Arm.{
  InsnId, OperandType, Operand, Decoded, Capstone, Insn, arm_pc_bias, reg_of, first_imm, regs_of,
  any_reg, classify_load, classify_add, classify,
}

-- The zero-extended immediate of an operand.
abbrev pub HasImm : ℕ → List Operand → Type 0
HasImm v ops = Any (λ op. (x : ℕ) × (op.op_type ≡ OperandType.imm x) × (v ≡ x % 2 ^ 32)) ops

abbrev pub IsReg : ℕ → Operand → Type 0
IsReg r op = op.op_type ≡ OperandType.reg r

-- A call is a `bl` or a `blx`, any other branch a `b`.
abbrev pub IsBranchId : Bool → InsnId → Type 0
IsBranchId true id = (id ≡ InsnId.bl) ⊎ (id ≡ InsnId.blx)
IsBranchId false id = id ≡ InsnId.b

abbrev pub BranchesTo : Bool → (target : ℕ) → Decoded → Type 0
BranchesTo link target d =
    (ops : List Operand) × (d.detail ≡ some ops) × IsBranchId link d.id × HasImm target ops

-- `ldr rD, [pc, #disp]`, which loads the word at `pool`.
abbrev pub LoadsPool : Capstone → (rd pool : ℕ) → Decoded → Type 0
LoadsPool cs rd pool d =
    (a : Operand) × (m : Operand) × (disp : ℕ) × (d.id ≡ InsnId.ldr)
    × (d.detail ≡ some (a ∷ m ∷ []))
    × IsReg rd a
    × (m.op_type ≡ OperandType.mem cs.reg_pc 0 disp)
    × (pool ≡ add_u64 (add_u64 d.address 8) (sign_extend_u32 disp))

-- `add rD, pc, rN`
abbrev pub AddsPc : Capstone → (rn : ℕ) → Decoded → Type 0
AddsPc cs rn d =
    (a : Operand) × (n : Operand) × (m : Operand) × (d.id ≡ InsnId.add)
    × (d.detail ≡ some (a ∷ n ∷ m ∷ []))
    × IsReg cs.reg_pc n
    × IsReg rn m
    × (m.unshifted ≡ true)

-- `ldr rD, [pc, rN]`
abbrev pub IndexesPc : Capstone → (rn : ℕ) → Decoded → Type 0
IndexesPc cs rn d =
    (a : Operand) × (m : Operand) × (disp : ℕ) × (d.id ≡ InsnId.ldr)
    × (d.detail ≡ some (a ∷ m ∷ []))
    × (m.op_type ≡ OperandType.mem cs.reg_pc rn disp)
    × (m.unshifted ≡ true)
    × (m.subtracted ≡ false)

-- What the class of an instruction says of it.
abbrev pub ClassMeans : Capstone → Decoded → Insn → Type 0
ClassMeans cs d (Insn.branch link target) = BranchesTo link target d
ClassMeans cs d (Insn.pool_load rd pool) = LoadsPool cs rd pool d
ClassMeans cs d (Insn.add_pc rd rn) = AddsPc cs rn d
ClassMeans cs d (Insn.pc_indexed_load rd rn) = IndexesPc cs rn d
ClassMeans cs d Insn.barrier = Unit
ClassMeans cs d Insn.other = Unit

first_imm-HasImm : (ops : List Operand) (v : ℕ) → first_imm ops ≡ some v → HasImm v ops
unfolding first_imm
first_imm-HasImm [] v h = cc
first_imm-HasImm (op ∷ ops) v h = go (first_imm-HasImm ops v) op.op_type refl
  where
    go :
        (first_imm ops ≡ some v → HasImm v ops)
        → (t : OperandType) → op.op_type ≡ t
        → HasImm v (op ∷ ops)
    go rest (OperandType.imm x) q = inl (x, q, ground arith)
    go rest (OperandType.reg r) q = inr (rest (ground arith))
    go rest (OperandType.mem a b c) q = inr (rest (ground arith))
    go rest OperandType.other_type q = inr (rest (ground arith))

reg_of-IsReg : (op : Operand) (r : ℕ) → reg_of op ≡ some r → IsReg r op
unfolding reg_of
reg_of-IsReg op r h = go op.op_type refl
  where
    go : (t : OperandType) → op.op_type ≡ t → IsReg r op
    go (OperandType.reg x) q =
        let same : x ≡ r = ground arith in subst (λ y. op.op_type ≡ OperandType.reg y) same q
    go (OperandType.imm x) q = ground arith
    go (OperandType.mem a b c) q = ground arith
    go OperandType.other_type q = ground arith

module _ (cs : Capstone) (d : Decoded) where
  load_parts :
      (a m : Operand) (i : Insn)
      → d.id ≡ InsnId.ldr
      → d.detail ≡ some (a ∷ m ∷ [])
      → classify_load cs d.address (a ∷ m ∷ []) ≡ some i
      → ClassMeans cs d i
  unfolding classify_load
  load_parts a m i id detail h = elim (Option-cases (reg_of a)) [
    | inl absent ↦ ground arith
    | inr (rd, found) ↦ go rd found m.op_type refl
  ]
    where
      go : (rd : ℕ) → reg_of a ≡ some rd → (t : OperandType) → m.op_type ≡ t → ClassMeans cs d i
      go rd found (OperandType.reg x) q = ground arith
      go rd found (OperandType.imm x) q = ground arith
      go rd found OperandType.other_type q = ground arith
      go rd found (OperandType.mem base index disp) q =
          let pool : ℕ = add_u64 (add_u64 d.address arm_pc_bias) (sign_extend_u32 disp) in
          elim (Bool-cases (base == cs.reg_pc && m.unshifted)) [
            | inr other ↦ ground arith
            | inl pc ↦
                let program_counter : base ≡ cs.reg_pc = ground arith in
                let at : m.op_type ≡ OperandType.mem cs.reg_pc index disp =
                  subst (λ x. m.op_type ≡ OperandType.mem x index disp) program_counter q in
                elim (Bool-cases (index == 0)) [
                  | inl none_at_all ↦
                      let zero' : index ≡ 0 = ground arith in
                      let is : Insn.pool_load rd pool ≡ i = ground arith in
                      subst (ClassMeans cs d) is (
                        a,
                        m,
                        disp,
                        id,
                        detail,
                        reg_of-IsReg a rd found,
                        subst (λ x. m.op_type ≡ OperandType.mem cs.reg_pc x disp) zero' at,
                        refl,
                      )
                  | inr some_index ↦
                      let is : Insn.pc_indexed_load rd index ≡ i = ground arith in
                      subst (ClassMeans cs d) is
                        (a, m, disp, id, detail, at, ground arith, ground arith)
                ]
          ]

  classify_load-ClassMeans :
      (ops : List Operand) (i : Insn)
      → d.id ≡ InsnId.ldr
      → d.detail ≡ some ops
      → classify_load cs d.address ops ≡ some i
      → ClassMeans cs d i
  unfolding classify_load
  classify_load-ClassMeans [] i id detail h = cc
  classify_load-ClassMeans (a ∷ []) i id detail h = cc
  classify_load-ClassMeans (a ∷ m ∷ []) i id detail h = load_parts a m i id detail h
  classify_load-ClassMeans (a ∷ m ∷ x ∷ xs) i id detail h = cc

  add_parts :
      (a n m : Operand) (i : Insn)
      → d.id ≡ InsnId.add
      → d.detail ≡ some (a ∷ n ∷ m ∷ [])
      → classify_add cs (a ∷ n ∷ m ∷ []) ≡ some i
      → ClassMeans cs d i
  unfolding classify_add
  add_parts a n m i id detail h = elim (Option-cases (reg_of a)) [
    | inl absent ↦ ground arith
    | inr (rd, dest) ↦ elim (Option-cases (reg_of n)) [
      | inl absent ↦ ground arith
      | inr (rn, first) ↦ elim (Option-cases (reg_of m)) [
        | inl absent ↦ ground arith
        | inr (rm, second) ↦
            let program_counter : rn ≡ cs.reg_pc = ground arith in
            let is : Insn.add_pc rd rm ≡ i = ground arith in
            subst (ClassMeans cs d) is (
              a,
              n,
              m,
              id,
              detail,
              subst (λ x. IsReg x n) program_counter (reg_of-IsReg n rn first),
              reg_of-IsReg m rm second,
              ground arith,
            )
      ]
    ]
  ]

  classify_add-ClassMeans :
      (ops : List Operand) (i : Insn)
      → d.id ≡ InsnId.add
      → d.detail ≡ some ops
      → classify_add cs ops ≡ some i
      → ClassMeans cs d i
  unfolding classify_add
  classify_add-ClassMeans [] i id detail h = cc
  classify_add-ClassMeans (a ∷ []) i id detail h = cc
  classify_add-ClassMeans (a ∷ n ∷ []) i id detail h = cc
  classify_add-ClassMeans (a ∷ n ∷ m ∷ []) i id detail h = add_parts a n m i id detail h
  classify_add-ClassMeans (a ∷ n ∷ m ∷ x ∷ xs) i id detail h = cc

  branch_class :
      (ops : List Operand) (link : Bool)
      → d.detail ≡ some ops
      → IsBranchId link d.id
      → ((t : ℕ) → first_imm ops ≡ some t → classify cs ops d ≡ Insn.branch link t)
      → (first_imm ops ≡ none → classify cs ops d ≡ Insn.barrier)
      → ClassMeans cs d (classify cs ops d)
  branch_class ops link detail id leads ends = elim (Option-cases (first_imm ops)) [
    | inl absent ↦ subst (ClassMeans cs d) (sym (ends absent)) tt
    | inr (t, found) ↦
        subst (ClassMeans cs d) (sym (leads t found))
          (ops, detail, id, first_imm-HasImm ops t found)
  ]

  pop_class :
      (ops : List Operand)
      → (any_reg cs.reg_pc (regs_of ops) ≡ true → classify cs ops d ≡ Insn.barrier)
      → (any_reg cs.reg_pc (regs_of ops) ≡ false → classify cs ops d ≡ Insn.other)
      → ClassMeans cs d (classify cs ops d)
  pop_class ops ends goes = elim (Bool-cases (any_reg cs.reg_pc (regs_of ops))) [
    | inl t ↦ subst (ClassMeans cs d) (sym (ends t)) tt
    | inr f ↦ subst (ClassMeans cs d) (sym (goes f)) tt
  ]

  pub classify-ClassMeans :
      (ops : List Operand) → d.detail ≡ some ops → ClassMeans cs d (classify cs ops d)
  unfolding classify
  classify-ClassMeans ops detail = go d.id refl
    where
      go : (id : InsnId) → d.id ≡ id → ClassMeans cs d (classify cs ops d)
      go InsnId.bl q =
          branch_class ops true detail (inl q) (λ t f. ground arith) (λ f. ground arith)
      go InsnId.blx q =
          branch_class ops true detail (inr q) (λ t f. ground arith) (λ f. ground arith)
      go InsnId.b q = branch_class ops false detail q (λ t f. ground arith) (λ f. ground arith)
      go InsnId.bx q =
          let c : classify cs ops d ≡ Insn.barrier = ground arith in
          subst (ClassMeans cs d) (sym c) tt
      go InsnId.bxj q =
          let c : classify cs ops d ≡ Insn.barrier = ground arith in
          subst (ClassMeans cs d) (sym c) tt
      go InsnId.other_id q =
          let c : classify cs ops d ≡ Insn.other = ground arith in
          subst (ClassMeans cs d) (sym c) tt
      go InsnId.pop q = pop_class ops (λ t. ground arith) (λ f. ground arith)
      go InsnId.ldm q = pop_class ops (λ t. ground arith) (λ f. ground arith)
      go InsnId.ldr q = elim (Option-cases (classify_load cs d.address ops)) [
        | inl absent ↦
            let c : classify cs ops d ≡ Insn.other = ground arith in
            subst (ClassMeans cs d) (sym c) tt
        | inr (i, found) ↦
            let c : classify cs ops d ≡ i = ground arith in
            subst (ClassMeans cs d) (sym c) (classify_load-ClassMeans ops i q detail found)
      ]
      go InsnId.add q = elim (Option-cases (classify_add cs ops)) [
        | inl absent ↦
            let c : classify cs ops d ≡ Insn.other = ground arith in
            subst (ClassMeans cs d) (sym c) tt
        | inr (i, found) ↦
            let c : classify cs ops d ≡ i = ground arith in
            subst (ClassMeans cs d) (sym c) (classify_add-ClassMeans ops i q detail found)
      ]
