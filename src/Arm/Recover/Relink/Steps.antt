-- ===== src/Arm/Recover/Relink/Steps.antt =====
-- crates/delink-arm/src/recover.rs, `handle_branch`, `emit_pcrel` and `emit_got`: the relocations that
-- they append, by what `Relinks` asks of each.
use delink.Prelude.{
  ℕ, ◌-◌, ◌≤◌, ◌≡◌, refl, inl, inr, true, not, ◌||◌, some, List, ltb, arith, Option-cases,
  Bool-cases, All, All-append, Any, Bool,
}
use delink.Prelude.Text.{Str}
use delink.Prelude.Eq.{nat_eq, str_eq}
use delink.Prelude.Int.{ℤ}
use delink.Prelude.Words.{IsU32, IsU64, add_u64, sub_u64}
use delink.Collections.HashMap
use delink.Collections.HashMap.{HashMap, get-insert, get-remove}
use delink.Symbols.{GlobalSymbols, DataResolution, resolve_data, resolve_got_slot, in_got}
use delink.Symbols.Sound.{IsOrderedTable, resolve_data_sound, resolve_got_slot_sound}
use delink.Arm.{
  RelocKind, RecoveredReloc, RecoveryOutput, CodeImage, word, PoolLoad, Decoded, Capstone,
}
use delink.Arm.Recover.{reference}
use delink.Arm.Emit.{
  State, same_kind, same_int, push_pool_reloc, emit_pcrel, emit_got, branch_target, handle_branch,
  count_interior, count_pool_unresolved,
}
use delink.Arm.Recover.Relink.Fields.{pool_field, slot_field}
use delink.Arm.Recover.Relink.Code.{BranchesTo, LoadsPool, IndexesPc}
use delink.Arm.Recover.Relink.{
  UsesPc, NamesSlot, Relinks, RelinksKind, RelinksBranch, branch_target_sound,
}

-- A word that a register tracks is the word of the image at its address, and an instruction of the
-- code loads it to that register.
pub record IsSite (cs : Capstone) (insns : List Decoded) (image : CodeImage) (reg : ℕ)
    (site : PoolLoad) : Type 0 where
  pub loaded : Any (LoadsPool cs reg site.pool_addr) insns
  pub addr_bound : IsU64 site.pool_addr
  pub value_bound : IsU32 site.value
  pub holds : word image site.pool_addr ≡ some site.value

-- The module-local addresses in the slots of the .got are u64s.
abbrev pub LocalsAreU64 : GlobalSymbols → Type 0
LocalsAreU64 s = (slot target : ℕ) → HashMap.get slot s.got_local ≡ some target → IsU64 target

resolve_got_slot-NamesSlot :
    (s : GlobalSymbols) (slot : ℕ) (d : DataResolution)
    → IsOrderedTable s
    → LocalsAreU64 s
    → resolve_got_slot s slot ≡ some d
    → NamesSlot s slot d.symbol
resolve_got_slot-NamesSlot s slot d o l e = elim (resolve_got_slot_sound s slot d o (l slot) e) [
  | inl (bound, zero_addend, slot_source) ↦ inl bound
  | inr (target, none_at_all, held, leads) ↦ inr (target, d, held, leads, refl)
]

module _ (cs : Capstone) (insns : List Decoded) (s : GlobalSymbols) (image : CodeImage)
    (fn_addr fn_size : ℕ) where
  abbrev pub AllRelink : List RecoveredReloc → Type 0
  AllRelink rs = All (Relinks cs insns s image fn_addr fn_size) rs

  -- A branch handler appends at most one relocation, and it relinks.
  pub handle_branch-Relinks :
      (link : Bool) (offset pc t : ℕ) (kind : RelocKind) (out : RecoveryOutput)
      → ((r : RecoveredReloc)
          → RelinksBranch link s fn_addr insns r
          → RelinksKind cs insns s image fn_addr fn_size kind r)
      → Any
          (λ d. BranchesTo link t d × (pc ≡ d.address) × (offset ≡ sub_u64 d.address fn_addr))
          insns
      → IsOrderedTable s
      → IsU64 t
      → AllRelink out.relocs
      → AllRelink (handle_branch s offset pc t kind out).relocs
  unfolding handle_branch
  handle_branch-Relinks link offset pc t kind out lift there o h a =
      elim (Option-cases (branch_target s t)) [
        | inl absent ↦ rw (absent, handle_branch) a
        | inr ((name, addend), found) ↦
            rw (found, handle_branch)
              (All-append (Relinks cs insns s image fn_addr fn_size) out.relocs _ a
                (lift _ (there, branch_target_sound s t name addend o h found), tt))
      ]

  -- A claim of a pool word appends at most one relocation. It relinks if the one that would be
  -- appended does.
  push_pool_reloc-Relinks :
      (site : PoolLoad) (ref_pc : ℕ) (kind : RelocKind) (symbol : Str) (addend : ℤ) (target : ℕ)
      (st : State)
      → (fn_addr ≤ site.pool_addr
          → add_u64 site.pool_addr 4 ≤ add_u64 fn_addr fn_size
          → Relinks cs insns s image fn_addr fn_size (record {
            offset = site.pool_addr - fn_addr;
            pc = ref_pc;
            kind = kind;
            target = symbol;
            addend = addend;
            target_addr = target;
          }))
      → AllRelink st.out.relocs
      → AllRelink
          (push_pool_reloc site ref_pc kind symbol addend target fn_addr fn_size st).out.relocs
  unfolding push_pool_reloc
  push_pool_reloc-Relinks site ref_pc kind symbol addend target st new a =
      elim (Bool-cases
        (ltb site.pool_addr fn_addr || ltb (add_u64 fn_addr fn_size) (add_u64 site.pool_addr 4))) [
          | inl outside ↦ rw outside a
          | inr inside ↦ rw inside (elim (Option-cases (HashMap.get site.pool_addr st.claimed)) [
            | inl free ↦ rw free (
                All-append (Relinks cs insns s image fn_addr fn_size) st.out.relocs _ a
                  (new (ground arith) (ground arith), tt))
            | inr (prev, taken) ↦
                rw taken
                  (elim (Bool-cases (
                    not (same_kind prev.0 kind)
                    || not (str_eq prev.1 symbol)
                    || not (same_int prev.2 addend))) [
                      | inl differs ↦ rw differs a
                      | inr agrees ↦ rw agrees a
                    ])
          ])
        ]

  pub emit_pcrel-Relinks :
      (reg : ℕ) (site : PoolLoad) (pc : ℕ) (st : State)
      → IsOrderedTable s
      → IsSite cs insns image reg site
      → Any (λ d. UsesPc cs reg d × (pc ≡ d.address)) insns
      → AllRelink st.out.relocs
      → AllRelink (emit_pcrel s site pc (reference pc site) fn_addr fn_size st).out.relocs
  unfolding emit_pcrel count_pool_unresolved
  emit_pcrel-Relinks reg site pc st o k used a =
      elim (Option-cases (resolve_data s (reference pc site))) [
        | inl absent ↦ rw (absent, emit_pcrel) a
        | inr (d, found) ↦
            let denotes = resolve_data_sound s (reference pc site) d o (omega arith) found in
            rw (found, emit_pcrel)
              (push_pool_reloc-Relinks site pc RelocKind.rel32 d.symbol _ (reference pc site) st
                (λ above within. (
                  site.pool_addr,
                  site.value,
                  denotes.base,
                  d.source,
                  record { holds = k.holds; above = above; within = within; offset_lem = refl },
                  record { reg = reg; has_load = k.loaded; has_use = used; reaches = refl },
                  denotes.stands,
                  pool_field denotes.base site.pool_addr pc site.value d.addend k.addr_bound
                      k.value_bound denotes.reaches,
                ))
                a)
      ]

  count_interior-relocs :
      (d : DataResolution) (st : State) → (count_interior d st).out.relocs ≡ st.out.relocs
  unfolding count_interior
  count_interior-relocs d st = ground arith

  pub emit_got-Relinks :
      (reg : ℕ) (site : PoolLoad) (pc : ℕ) (st : State)
      → IsOrderedTable s
      → LocalsAreU64 s
      → in_got s (reference pc site) ≡ true
      → IsSite cs insns image reg site
      → Any (λ d. IndexesPc cs reg d × (pc ≡ d.address)) insns
      → AllRelink st.out.relocs
      → AllRelink (emit_got s site pc (reference pc site) fn_addr fn_size st).out.relocs
  unfolding emit_got count_pool_unresolved
  emit_got-Relinks reg site pc st o l g k used a =
      elim (Option-cases (resolve_got_slot s (reference pc site))) [
        | inl absent ↦ rw (absent, emit_got) a
        | inr (d, found) ↦
            rw (found, emit_got)
              (push_pool_reloc-Relinks site pc RelocKind.got_prel d.symbol _ (reference pc site)
                (count_interior d st)
                (λ above within. (
                  site.pool_addr,
                  site.value,
                  record { holds = k.holds; above = above; within = within; offset_lem = refl },
                  record { reg = reg; has_load = k.loaded; has_use = used; reaches = refl },
                  g,
                  resolve_got_slot-NamesSlot s (reference pc site) d o l found,
                  slot_field (reference pc site) site.pool_addr pc site.value k.addr_bound
                      k.value_bound refl,
                ))
                (rw (count_interior-relocs d st) a))
      ]
