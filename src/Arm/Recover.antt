-- ===== src/Arm/Recover.antt =====
-- crates/delink-arm/src/recover.rs, `recover`: the pass over the decoded instructions.
pub mod Relink
pub mod Unique
use delink.Prelude.{
  ℕ, zero, suc, ◌+◌, ◌-◌, Bool, true, false, ◌&&◌, ◌||◌, not, Option, none, some, List, [], ◌∷◌,
  ◌++◌, ◌==◌, ltb, leb, if◌then◌else◌, length,
}
use delink.Prelude.Text.{Str}
use delink.Prelude.Eq.{Eq, nat_eq, str_eq}
use delink.Prelude.Bytes.{slice}
use delink.Prelude.Int.{ℤ, pos, negsuc, pos_part, neg_part, ◌+ℤ◌, ◌-ℤ◌}
use delink.Prelude.Words.{add_u64, sub_u64, sign_extend_u32, as_i64, wrap_i64}
use delink.Collections.HashMap
use delink.Collections.HashMap.{HashMap}
use delink.Collections.BTreeMap.{BTreeSet}
use delink.Symbols.{
  GlobalSymbols, FunctionRef, export_name, ResolvedTarget, DataResolution, DataSource, resolve,
  resolve_into, resolve_data, resolve_got_slot, in_got,
}
use delink.Arm.{
  RelocKind, RecoveredReloc, RecoveryDiagnostics, RecoveryOutput, CodeImage, word, Operand, Decoded,
  Capstone, PoolLoad, Insn, arm_pc_bias, classify, written_registers,
}
use delink.Arm.Pools.{Run, code_runs, find_pools}
use delink.Arm.Emit.{
  Claim, State, no_diagnostics, push, same_kind, same_int, branch_target, handle_branch,
  push_pool_reloc, count_pool_unresolved, pool_distance, emit_pcrel, is_got_slot, count_interior,
  emit_got,
}

unfoldable pub remove_all : List ℕ → HashMap ℕ PoolLoad → HashMap ℕ PoolLoad
remove_all [] t = t
remove_all (r ∷ rs) t = remove_all rs (HashMap.remove r t)

-- What a tracked register points at from `pc`.
abbrev pub reference : ℕ → PoolLoad → ℕ
reference pc site = add_u64 (add_u64 pc arm_pc_bias) (sign_extend_u32 site.value)

-- `add rD, pc, rN`: the tracked word of `rN` is an offset from the program counter.
unfoldable pub use_pcrel : GlobalSymbols → (fn_addr fn_size pc rn : ℕ) → State → State
use_pcrel symbols fn_addr fn_size pc rn st = elim (HashMap.get rn st.tracker) [
  | some site ↦ emit_pcrel symbols site pc (reference pc site) fn_addr fn_size st
  | none ↦ st
]

-- `ldr rD, [pc, rN]`: the tracked word leads to a slot of the `.got`, or to other data.
unfoldable pub use_indexed : GlobalSymbols → (fn_addr fn_size pc rn : ℕ) → State → State
use_indexed symbols fn_addr fn_size pc rn st = elim (HashMap.get rn st.tracker) [
  | some site ↦
      if in_got symbols (reference pc site)
      then emit_got symbols site pc (reference pc site) fn_addr fn_size st
      else emit_pcrel symbols site pc (reference pc site) fn_addr fn_size st
  | none ↦ st
]

abbrev pub untrack : ℕ → State → State
untrack rd st = record st { tracker = HashMap.remove rd st.tracker }

-- The arms of the `match` on the classified instruction.
unfoldable pub step_insn :
    GlobalSymbols → CodeImage → (fn_addr fn_size pc : ℕ) → Str → List Operand → Insn → State → State
step_insn symbols image fn_addr fn_size pc m ops (Insn.branch link target) st =
    let inside = leb fn_addr target && ltb target (add_u64 fn_addr fn_size) in
    if link
    then record {
      tracker = [];
      claimed = st.claimed;
      out = handle_branch symbols (sub_u64 pc fn_addr) pc target RelocKind.call st.out;
    }
    else if not inside
    then record st {
      out = handle_branch symbols (sub_u64 pc fn_addr) pc target RelocKind.jump24 st.out;
    }
    else st
step_insn symbols image fn_addr fn_size pc m ops (Insn.pool_load rd pool_addr) st = record {
  tracker = elim (word image pool_addr) [
    | some value ↦ HashMap.insert rd (record { pool_addr = pool_addr; value = value }) st.tracker
    | none ↦ HashMap.remove rd st.tracker
  ];
  claimed = st.claimed;
  out = record (st.out) { diag = record (st.out.diag) { pool_loads = st.out.diag.pool_loads + 1 } };
}
step_insn symbols image fn_addr fn_size pc m ops (Insn.add_pc rd rn) st =
    untrack rd (use_pcrel symbols fn_addr fn_size pc rn st)
step_insn symbols image fn_addr fn_size pc m ops (Insn.pc_indexed_load rd rn) st =
    untrack rd (use_indexed symbols fn_addr fn_size pc rn st)
step_insn symbols image fn_addr fn_size pc m ops Insn.other st = record st {
  tracker = remove_all (written_registers m ops) st.tracker;
}
step_insn symbols image fn_addr fn_size pc m ops Insn.barrier st = record st { tracker = [] }

unfoldable pub count_instruction : State → State
count_instruction st = record st {
  out = record (st.out) {
    diag = record (st.out.diag) { instructions = st.out.diag.instructions + 1 };
  };
}

unfoldable pub count_decode_failure : State → State
count_decode_failure st = record st {
  out = record (st.out) {
    diag = record (st.out.diag) { decode_failures = st.out.diag.decode_failures + 1 };
  };
}

module _ (cs : Capstone) (symbols : GlobalSymbols) (image : CodeImage) (fn_addr fn_size : ℕ) where
  -- One round of the loop over the instructions of a run.
  unfoldable pub step_decoded : Decoded → State → State
  step_decoded insn st = elim (insn.mnemonic) [
    | none ↦ record (count_decode_failure (count_instruction st)) { tracker = [] }
    | some m ↦ elim (insn.detail) [
      | none ↦ record (count_decode_failure (count_instruction st)) { tracker = [] }
      | some ops ↦
          step_insn symbols image fn_addr fn_size insn.address m ops (classify cs ops insn)
            (count_instruction st)
    ]
  ]

  unfoldable pub run_decoded : List Decoded → State → State
  run_decoded [] st = st
  run_decoded (insn ∷ insns) st = run_decoded insns (step_decoded insn st)

  unfoldable pub run_all : List Run → State → State
  run_all [] st = st
  run_all ((addr, bytes) ∷ runs) st = run_all runs (elim (cs.disasm_all bytes addr) [
    | none ↦ count_decode_failure st
    | some insns ↦ run_decoded insns st
  ])

pub data RecoverError : Type 0 where
  starts_before_image extends_past_image : RecoverError

pub data Recovered : Type 0 where
  ok : RecoveryOutput → Recovered
  err : RecoverError → Recovered

abbrev pub initial : State
initial = record { tracker = []; claimed = []; out = record { relocs = []; diag = no_diagnostics } }

unfoldable pub recover : Capstone → (fn_addr fn_size : ℕ) → CodeImage → GlobalSymbols → Recovered
recover cs fn_addr fn_size image symbols =
    if leb image.base fn_addr
    then elim (slice image.bytes (fn_addr - image.base) (fn_addr - image.base + fn_size)) [
      | none ↦ err extends_past_image
      | some bytes ↦
          let pools = find_pools cs bytes fn_addr 3 [] in
          ok (run_all cs symbols image fn_addr fn_size (code_runs bytes fn_addr pools) initial).out
    ]
    else err starts_before_image
