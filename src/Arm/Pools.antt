-- ===== src/Arm/Pools.antt =====
-- crates/delink-arm/src/recover.rs, `code_runs` and `scan_pool_words`: literal pools are carved out
-- of the code before it is decoded.
use delink.Prelude.{
  ℕ, zero, suc, ◌+◌, ◌-◌, ◌/◌, ◌%◌, ◌&&◌, ◌||◌, none, some, List, [], ◌∷◌, ◌==◌, ltb, leb,
  if◌then◌else◌, length, take, drop,
}
use delink.Prelude.Text.{Str, codes}
use delink.Prelude.Bytes.{starts_with}
use delink.Prelude.Words.{add_u64, sign_extend_u32}
use delink.Collections.BTreeMap.{BTreeSet, set_contains, set_insert, set_extend}
use delink.Arm.{Capstone, Decoded, Operand, OperandType, arm_pc_bias}

-- A run of code: its address and its bytes.
abbrev pub Run : Type 0
Run = ℕ × List ℕ

-- The loop from `cursor`, with the rounds that are left: a round takes four bytes.
unfoldable pub code_runs_from : List ℕ → ℕ → BTreeSet → (rounds run_start cursor : ℕ) → List Run
code_runs_from bytes base pools zero run_start cursor =
    if ltb run_start (length bytes) then (add_u64 base run_start, drop run_start bytes) ∷ [] else []
code_runs_from bytes base pools (suc n) run_start cursor =
    let skip = code_runs_from bytes base pools n (cursor + 4) (cursor + 4) in
    let go_on = code_runs_from bytes base pools n run_start (cursor + 4) in
    if set_contains (add_u64 base cursor) pools
    then if ltb run_start cursor
      then (add_u64 base run_start, take (cursor - run_start) (drop run_start bytes)) ∷ skip
      else skip
    else go_on

-- `while cursor + 4 <= bytes.len()` makes one round for each whole word.
unfoldable pub code_runs : List ℕ → ℕ → BTreeSet → List Run
unfolding code_runs_from
code_runs bytes base pools = code_runs_from bytes base pools (length bytes / 4) 0 0

-- One memory operand, in `[base, limit)` and aligned: one word, or two for `ldrd` and `vldr`.
scan_operand : Capstone → (base limit : ℕ) → Decoded → Str → Operand → BTreeSet → BTreeSet
scan_operand cs base limit insn m op found = elim (op.op_type) [
  | OperandType.mem breg index disp ↦
      let target = add_u64 (add_u64 insn.address arm_pc_bias) (sign_extend_u32 disp) in
      if breg == cs.reg_pc && index == 0 && leb base target && ltb target limit && target % 4 == 0
      then if (starts_with m (codes "ldrd") || starts_with m (codes "vldr"))
          && ltb (add_u64 target 4) limit
        then set_insert (add_u64 target 4) (set_insert target found)
        else set_insert target found
      else found
  | _ ↦ found
]

scan_operands : Capstone → (base limit : ℕ) → Decoded → Str → List Operand → BTreeSet → BTreeSet
unfolding scan_operand
scan_operands cs base limit insn m [] found = found
scan_operands cs base limit insn m (op ∷ ops) found =
    scan_operands cs base limit insn m ops (scan_operand cs base limit insn m op found)

scan_insn : Capstone → (base limit : ℕ) → Decoded → BTreeSet → BTreeSet
unfolding scan_operands
scan_insn cs base limit insn found = elim (insn.mnemonic) [
  | none ↦ found
  | some m ↦
      if starts_with m (codes "ldr") || starts_with m (codes "vldr")
      then elim (insn.detail) [
        | none ↦ found
        | some ops ↦ scan_operands cs base limit insn m ops found
      ]
      else found
]

scan_insns : Capstone → (base limit : ℕ) → List Decoded → BTreeSet → BTreeSet
unfolding scan_insn
scan_insns cs base limit [] found = found
scan_insns cs base limit (i ∷ is) found =
    scan_insns cs base limit is (scan_insn cs base limit i found)

scan_runs : Capstone → (base limit : ℕ) → List Run → BTreeSet → BTreeSet
unfolding scan_insns
scan_runs cs base limit [] found = found
scan_runs cs base limit ((addr, run) ∷ runs) found =
    scan_runs cs base limit runs (elim (cs.disasm_all run addr) [
      | none ↦ found
      | some insns ↦ scan_insns cs base limit insns found
    ])

unfoldable pub scan_pool_words : Capstone → List ℕ → ℕ → BTreeSet → BTreeSet
unfolding scan_runs code_runs
scan_pool_words cs bytes base known =
    scan_runs cs base (add_u64 base (length bytes)) (code_runs bytes base known) []

-- The loop of `recover` that grows the set until it is stable, three times at most.
unfoldable pub find_pools : Capstone → List ℕ → ℕ → (rounds : ℕ) → BTreeSet → BTreeSet
unfolding scan_pool_words
find_pools cs bytes base zero pools = pools
find_pools cs bytes base (suc n) pools =
    let pools' = set_extend pools (scan_pool_words cs bytes base pools) in
    let rest = find_pools cs bytes base n pools' in
    if length pools' == length pools then pools' else rest
