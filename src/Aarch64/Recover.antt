-- ===== src/Aarch64/Recover.antt =====
-- crates/delink-aarch64/src/recover.rs, `recover`: the pass over the decoded instructions.
pub mod Sound
use delink.Prelude.{
  ℕ, ◌+◌, Bool, true, false, Option, none, some, List, [], ◌∷◌, ◌++◌, if◌then◌else◌,
}
use delink.Prelude.Text.{Str, codes}
use delink.Prelude.Eq.{str_eq, nat_eq}
use delink.Prelude.Int.{ℤ, pos}
use delink.Prelude.Words.{add_u64, sub_u64}
use delink.Collections.HashMap
use delink.Collections.HashMap.{HashMap}
use delink.Symbols.{
  GlobalSymbols, FunctionRef, export_name, ResolvedTarget, DataResolution, resolve, resolve_data,
  in_got,
}
use delink.Aarch64.{
  RelocKind, RecoveredReloc, RecoveryDiagnostics, RecoveryOutput, AdrpSite, LoKind, Operand,
  Decoded, MemAccess, imm_operand, reg_write, is_one_of, write_regs, add_imm_operands,
  mem_imm_operand, is_mem_load_or_store, lo_kind_for_mem, lo_direct,
}

pub record State : Type 0 where
  pub tracker : HashMap ℕ AdrpSite
  pub out : RecoveryOutput

abbrev pub no_diagnostics : RecoveryDiagnostics
no_diagnostics = record {
  instructions = 0;
  decode_failures = 0;
  bl_resolved = 0;
  bl_unresolved = 0;
  adrp_seen = 0;
  adrp_paired = 0;
  adrp_unpaired = 0;
  adrp_unresolved = 0;
}

-- The relocation kinds of the two halves: through the GOT for a 64-bit load of a slot, or direct.
unfoldable pub pair_kinds : Bool → LoKind → RelocKind × RelocKind
unfolding lo_direct
pair_kinds true LoKind.ldst64 = (RelocKind.adr_got_page, RelocKind.ld64_got_lo12_nc)
pair_kinds _ lo = (RelocKind.adr_prel_pg_hi21, lo_direct lo)

abbrev pub half : ℕ → ℕ → RelocKind → DataResolution → ℕ → RecoveredReloc
half offset pc kind resolution full_addr = record {
  offset = offset;
  pc = pc;
  kind = kind;
  target = resolution.symbol;
  addend = resolution.addend;
  target_addr = full_addr;
}

unfoldable pub emit_adrp_pair :
    GlobalSymbols
    → AdrpSite
    → (lo_offset lo_pc full_addr : ℕ) → LoKind
    → RecoveryOutput
    → RecoveryOutput
emit_adrp_pair symbols adrp lo_offset lo_pc full_addr lo out =
    elim (resolve_data symbols full_addr) [
      | none ↦ record out {
        diag = record (out.diag) { adrp_unresolved = out.diag.adrp_unresolved + 1 };
      }
      | some resolution ↦
          let kinds = pair_kinds (in_got symbols full_addr) lo in
          record {
            relocs =
                out.relocs
                ++ (half adrp.insn_offset adrp.pc kinds.0 resolution full_addr
                    ∷ half lo_offset lo_pc kinds.1 resolution full_addr
                    ∷ []);
            diag = record (out.diag) { adrp_paired = out.diag.adrp_paired + 1 };
          }
    ]

abbrev pub branch_reloc : (offset pc : ℕ) → RelocKind → Str → ℕ → RecoveredReloc
branch_reloc offset pc kind name target = record {
  offset = offset;
  pc = pc;
  kind = kind;
  target = name;
  addend = pos 0;
  target_addr = target;
}

abbrev pub push_branch : RecoveredReloc → RecoveryOutput → RecoveryOutput
push_branch r out = record {
  relocs = out.relocs ++ (r ∷ []);
  diag = record (out.diag) { bl_resolved = out.diag.bl_resolved + 1 };
}

abbrev pub is_jump26 : RelocKind → Bool
is_jump26 RelocKind.jump26 = true
is_jump26 _ = false

-- The arms of the `match` on the resolved target.
unfoldable pub branch_outcome :
    (offset pc target : ℕ) → RelocKind → RecoveryOutput → ResolvedTarget → RecoveryOutput
branch_outcome offset pc target kind out (ResolvedTarget.internal func) =
    push_branch (branch_reloc offset pc kind (export_name func) target) out
branch_outcome offset pc target kind out (ResolvedTarget.external_plt name) =
    push_branch (branch_reloc offset pc kind name target) out
branch_outcome offset pc target kind out ResolvedTarget.unknown =
    if is_jump26 kind
    then out
    else record out { diag = record (out.diag) { bl_unresolved = out.diag.bl_unresolved + 1 } }

unfoldable pub handle_branch :
    GlobalSymbols → (offset pc target : ℕ) → RelocKind → RecoveryOutput → RecoveryOutput
unfolding branch_outcome resolve
handle_branch symbols offset pc target kind out =
    branch_outcome offset pc target kind out (resolve symbols target)

unfoldable pub remove_all : List ℕ → HashMap ℕ AdrpSite → HashMap ℕ AdrpSite
remove_all [] t = t
remove_all (r ∷ rs) t = remove_all rs (HashMap.remove r t)

abbrev pub pair_at : GlobalSymbols → (lo_offset lo_pc base disp : ℕ) → LoKind → State → State
pair_at symbols lo_offset lo_pc base disp lo st = elim (HashMap.get base st.tracker) [
  | none ↦ st
  | some site ↦ record st {
    out = emit_adrp_pair symbols site lo_offset lo_pc (add_u64 site.page_addr disp) lo st.out;
  }
]

abbrev pub untrack_some : Option ℕ → State → State
untrack_some none st = st
untrack_some (some rd) st = record st { tracker = HashMap.remove rd st.tracker }

-- `bl` and `b`: the tracked registers are forgotten.
unfoldable pub step_branch :
    GlobalSymbols → (offset pc : ℕ) → RelocKind → List Operand → State → State
step_branch symbols offset pc kind ops st = record {
  tracker = [];
  out = elim (imm_operand ops) [
    | none ↦ st.out
    | some target ↦ handle_branch symbols offset pc target kind st.out
  ];
}

unfoldable pub step_adrp : (offset pc : ℕ) → List Operand → State → State
step_adrp offset pc ops st = record {
  tracker = elim (reg_write ops) [
    | none ↦ st.tracker
    | some rd ↦ elim (imm_operand ops) [
      | none ↦ st.tracker
      | some page ↦
          HashMap.insert rd (record { insn_offset = offset; pc = pc; page_addr = page }) st.tracker
    ]
  ];
  out = record (st.out) { diag = record (st.out.diag) { adrp_seen = st.out.diag.adrp_seen + 1 } };
}

unfoldable pub step_add : GlobalSymbols → (offset pc : ℕ) → List Operand → State → State
step_add symbols offset pc ops st = elim (add_imm_operands ops) [
  | none ↦ untrack_some (reg_write ops) st
  | some (rd, (rn, v)) ↦ untrack_some (some rd) (pair_at symbols offset pc rn v LoKind.add st)
]

unfoldable pub step_mem : GlobalSymbols → (offset pc : ℕ) → Str → List Operand → State → State
step_mem symbols offset pc m ops st =
    let paired : State = elim (mem_imm_operand ops) [
      | none ↦ st
      | some access ↦ pair_at symbols offset pc access.base access.disp (lo_kind_for_mem m) st
    ] in
    record paired { tracker = remove_all (write_regs m ops) paired.tracker }

-- The arms of the `match` on the mnemonic.
unfoldable pub step_insn : GlobalSymbols → (offset pc : ℕ) → Str → List Operand → State → State
step_insn symbols offset pc m ops st =
    if str_eq m (codes "bl")
    then step_branch symbols offset pc RelocKind.call26 ops st
    else if str_eq m (codes "b")
    then step_branch symbols offset pc RelocKind.jump26 ops st
    else if str_eq m (codes "adrp")
    then step_adrp offset pc ops st
    else if str_eq m (codes "add")
    then step_add symbols offset pc ops st
    else if is_mem_load_or_store m
    then step_mem symbols offset pc m ops st
    else if is_one_of m (codes "ret" ∷ codes "br" ∷ codes "blr" ∷ [])
    then record st { tracker = [] }
    else record st { tracker = remove_all (write_regs m ops) st.tracker }

unfoldable pub count_instruction : State → State
count_instruction st = record st {
  out = record (st.out) {
    diag = record (st.out.diag) { instructions = st.out.diag.instructions + 1 };
  };
}

unfoldable pub count_decode_failure : State → State
count_decode_failure st = record st {
  out = record (st.out) {
    diag = record (st.out.diag) { decode_failures = st.out.diag.decode_failures + 1 };
  };
}

-- One round of the loop; an instruction without a mnemonic leaves the tracker alone.
unfoldable pub step_decoded : GlobalSymbols → ℕ → Decoded → State → State
step_decoded symbols base insn st = elim (insn.mnemonic) [
  | none ↦ count_decode_failure (count_instruction st)
  | some m ↦ elim (insn.detail) [
    | none ↦ record (count_decode_failure (count_instruction st)) { tracker = [] }
    | some ops ↦
        step_insn symbols (sub_u64 insn.address base) insn.address m ops (count_instruction st)
  ]
]

unfoldable pub run_decoded : GlobalSymbols → ℕ → List Decoded → State → State
run_decoded symbols base [] st = st
run_decoded symbols base (insn ∷ insns) st =
    run_decoded symbols base insns (step_decoded symbols base insn st)

abbrev pub initial : State
initial = record { tracker = []; out = record { relocs = []; diag = no_diagnostics } }

-- `disasm_all` is capstone's; its error is the only one.
unfoldable pub recover :
    (List ℕ → ℕ → Option (List Decoded)) → List ℕ → ℕ → GlobalSymbols → Option RecoveryOutput
recover disasm_all bytes base symbols = elim (disasm_all bytes base) [
  | none ↦ none
  | some insns ↦ some (run_decoded symbols base insns initial).out
]
