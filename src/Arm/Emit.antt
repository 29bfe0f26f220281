-- ===== src/Arm/Emit.antt =====
-- crates/delink-arm/src/recover.rs: the relocations that the ARM pass emits, and its state.
use delink.Prelude.{
  ℕ, ◌+◌, ◌-◌, Bool, true, false, ◌&&◌, ◌||◌, not, Option, none, some, [], ◌∷◌, ◌++◌, ◌==◌, ltb,
  if◌then◌else◌,
}
use delink.Prelude.Text.{Str}
use delink.Prelude.Eq.{nat_eq, str_eq}
use delink.Prelude.Int.{ℤ, pos, negsuc, pos_part, neg_part, ◌+ℤ◌, ◌-ℤ◌}
use delink.Prelude.Words.{add_u64, as_i64, wrap_i64}
use delink.Collections.HashMap
use delink.Collections.HashMap.{HashMap}
use delink.Symbols.{
  GlobalSymbols, export_name, ResolvedTarget, DataResolution, DataSource, resolve, resolve_into,
  resolve_data, resolve_got_slot,
}
use delink.Arm.{
  RelocKind, RecoveredReloc, RecoveryDiagnostics, RecoveryOutput, PoolLoad, arm_pc_bias,
}

-- What a pool word was claimed for.
abbrev pub Claim : Type 0
Claim = RelocKind × Str × ℤ

pub record State : Type 0 where
  pub tracker : HashMap ℕ PoolLoad
  pub claimed : HashMap ℕ Claim
  pub out : RecoveryOutput

abbrev pub no_diagnostics : RecoveryDiagnostics
no_diagnostics = record {
  instructions = 0;
  decode_failures = 0;
  bl_resolved = 0;
  bl_unresolved = 0;
  pool_loads = 0;
  pool_relocated = 0;
  pool_unresolved = 0;
  pool_out_of_range = 0;
  got_slot_interior = 0;
  pool_conflicts = 0;
}

abbrev pub push : RecoveredReloc → RecoveryOutput → RecoveryOutput
push r out = record out { relocs = out.relocs ++ (r ∷ []) }

unfoldable pub same_kind : RelocKind → RelocKind → Bool
same_kind RelocKind.call RelocKind.call = true
same_kind RelocKind.jump24 RelocKind.jump24 = true
same_kind RelocKind.rel32 RelocKind.rel32 = true
same_kind RelocKind.got_prel RelocKind.got_prel = true
same_kind RelocKind.abs32 RelocKind.abs32 = true
same_kind RelocKind.prel31 RelocKind.prel31 = true
same_kind _ _ = false

unfoldable pub same_int : ℤ → ℤ → Bool
same_int a b = pos_part a == pos_part b && neg_part a == neg_part b

-- The name and the addend of a branch: `-8`, and the offset in a function that is entered midway.
unfoldable pub branch_target : GlobalSymbols → ℕ → Option (Str × ℤ)
branch_target symbols target = elim (resolve symbols target) [
  | ResolvedTarget.internal f ↦ some (export_name f, negsuc 7)
  | ResolvedTarget.external_plt name ↦ some (name, negsuc 7)
  | ResolvedTarget.unknown ↦ elim (resolve_into symbols target) [
    | some (f, delta) ↦ some (export_name f, wrap_i64 (negsuc 7 +ℤ as_i64 delta))
    | none ↦ none
  ]
]

unfoldable pub handle_branch :
    GlobalSymbols → (offset pc target : ℕ) → RelocKind → RecoveryOutput → RecoveryOutput
handle_branch symbols offset pc target kind out = elim (branch_target symbols target) [
  | none ↦ record out { diag = record (out.diag) { bl_unresolved = out.diag.bl_unresolved + 1 } }
  | some (name, addend) ↦ record {
    relocs =
        out.relocs
        ++ (record {
          offset = offset;
          pc = pc;
          kind = kind;
          target = name;
          addend = addend;
          target_addr = target;
        }
            ∷ []);
    diag = record (out.diag) { bl_resolved = out.diag.bl_resolved + 1 };
  }
]

unfoldable pub push_pool_reloc :
    PoolLoad
    → (ref_pc : ℕ) → RelocKind
    → Str
    → ℤ
    → (target_addr fn_addr fn_size : ℕ) → State
    → State
push_pool_reloc site ref_pc kind symbol addend target_addr fn_addr fn_size st =
    if ltb site.pool_addr fn_addr || ltb (add_u64 fn_addr fn_size) (add_u64 site.pool_addr 4)
    then record st {
      out = record (st.out) {
        diag = record (st.out.diag) { pool_out_of_range = st.out.diag.pool_out_of_range + 1 };
      };
    }
    else elim (HashMap.get site.pool_addr st.claimed) [
      | some prev ↦
          if not (same_kind prev.0 kind)
            || not (str_eq prev.1 symbol)
            || not (same_int prev.2 addend)
          then record st {
            out = record (st.out) {
              diag = record (st.out.diag) { pool_conflicts = st.out.diag.pool_conflicts + 1 };
            };
          }
          else st
      | none ↦ record {
        tracker = st.tracker;
        claimed = HashMap.insert site.pool_addr (kind, symbol, addend) st.claimed;
        out = record {
          relocs =
              st.out.relocs
              ++ (record {
                offset = site.pool_addr - fn_addr;
                pc = ref_pc;
                kind = kind;
                target = symbol;
                addend = addend;
                target_addr = target_addr;
              }
                  ∷ []);
          diag = record (st.out.diag) { pool_relocated = st.out.diag.pool_relocated + 1 };
        };
      }
    ]

unfoldable pub count_pool_unresolved : State → State
count_pool_unresolved st = record st {
  out = record (st.out) {
    diag = record (st.out.diag) { pool_unresolved = st.out.diag.pool_unresolved + 1 };
  };
}

-- `pool_addr as i64 - (ref_pc + ARM_PC_BIAS) as i64`
abbrev pub pool_distance : PoolLoad → ℕ → ℤ
pool_distance site ref_pc = wrap_i64 (as_i64 site.pool_addr -ℤ as_i64 (add_u64 ref_pc arm_pc_bias))

unfoldable pub emit_pcrel :
    GlobalSymbols → PoolLoad → (ref_pc target fn_addr fn_size : ℕ) → State → State
emit_pcrel symbols site ref_pc target fn_addr fn_size st = elim (resolve_data symbols target) [
  | none ↦ count_pool_unresolved st
  | some res ↦
      push_pool_reloc site ref_pc RelocKind.rel32 res.symbol
        (wrap_i64 (pool_distance site ref_pc +ℤ res.addend)) target fn_addr fn_size st
]

abbrev pub is_got_slot : DataSource → Bool
is_got_slot DataSource.got_slot = true
is_got_slot _ = false

unfoldable pub count_interior : DataResolution → State → State
count_interior res st =
    if not (same_int res.addend (pos 0)) && not (is_got_slot res.source)
    then record st {
      out = record (st.out) {
        diag = record (st.out.diag) { got_slot_interior = st.out.diag.got_slot_interior + 1 };
      };
    }
    else st

unfoldable pub emit_got :
    GlobalSymbols → PoolLoad → (ref_pc slot_addr fn_addr fn_size : ℕ) → State → State
emit_got symbols site ref_pc slot_addr fn_addr fn_size st =
    elim (resolve_got_slot symbols slot_addr) [
      | none ↦ count_pool_unresolved st
      | some res ↦
          push_pool_reloc site ref_pc RelocKind.got_prel res.symbol (pool_distance site ref_pc)
            slot_addr fn_addr fn_size (count_interior res st)
    ]
