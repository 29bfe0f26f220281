-- ===== src/Arm/Recover/Unique.antt =====
-- crates/delink-arm/src/recover.rs: a pool word is relocated once.
pub mod Run
use delink.Prelude.{
  append_assoc, append_nil, ℕ, ◌+◌, ◌-◌, ◌≡◌, ◌≢◌, refl, sym, ap, ◌∙◌, subst, inl, inr, Bool, true,
  false, not, ◌&&◌, ◌||◌, Option, none, some, List, [], ◌∷◌, ◌++◌, ◌==◌, ltb, leb, if◌then◌else◌,
  arith, All, All-imp, All-append, Bool-cases, Option-cases, is_some,
}
use delink.Prelude.Text.{Str}
use delink.Prelude.Eq.{nat_eq, str_eq, beq_refl}
use delink.Prelude.Int.{ℤ, pos}
use delink.Prelude.Words.{add_u64, sub_u64}
use delink.Prelude.Bytes.{slice}
use delink.Collections.HashMap
use delink.Collections.HashMap.{HashMap, get-insert}
use delink.Symbols.{GlobalSymbols, DataResolution, resolve_data, resolve_got_slot, in_got}
use delink.Arm.{
  RelocKind, RecoveredReloc, RecoveryOutput, CodeImage, word, Operand, Decoded, Capstone, PoolLoad,
  Insn, classify, written_registers,
}
use delink.Arm.Emit.{
  State, Claim, same_kind, same_int, branch_target, handle_branch, push_pool_reloc, pool_distance,
  emit_pcrel, count_interior, count_pool_unresolved, is_got_slot, emit_got,
}
use delink.Arm.Recover.{
  reference, use_pcrel, use_indexed, step_insn, count_instruction, count_decode_failure,
  step_decoded, run_decoded, run_all, Recovered, ok, initial, recover,
}

-- The kinds that relocate a word of a literal pool.
abbrev pub is_pool : RelocKind → Bool
is_pool RelocKind.call = false
is_pool RelocKind.jump24 = false
is_pool _ = true

-- The offsets of the relocated pool words.
abbrev pub pool_offsets : List RecoveredReloc → List ℕ
pool_offsets [] = []
pool_offsets (r ∷ relocs) =
    if is_pool r.kind then r.offset ∷ pool_offsets relocs else pool_offsets relocs

abbrev pub AreDistinct : List ℕ → Type 0
AreDistinct [] = Unit
AreDistinct (n ∷ ns) = All (λ m. n ≢ m) ns × AreDistinct ns

AreDistinct-append :
    (ns : List ℕ) (n : ℕ) → AreDistinct ns → All (λ m. m ≢ n) ns → AreDistinct (ns ++ (n ∷ []))
AreDistinct-append [] n d h = (tt, tt)
AreDistinct-append (m ∷ ns) n d h =
    (All-append (λ k. m ≢ k) ns (n ∷ []) d.0 (h.0, tt), AreDistinct-append ns n d.1 h.1)

pool_offsets-append :
    (rs : List RecoveredReloc) (r : RecoveredReloc)
    → pool_offsets (rs ++ (r ∷ []))
      ≡ pool_offsets rs ++ (if is_pool r.kind then r.offset ∷ [] else [])
pool_offsets-append [] r = elim (Bool-cases (is_pool r.kind)) [ inl t ↦ rw t | inr f ↦ rw f ]
pool_offsets-append (q ∷ rs) r = elim (Bool-cases (is_pool q.kind)) [
  | inl t ↦ rw t (ap (λ os. q.offset ∷ os) (pool_offsets-append rs r))
  | inr f ↦ rw f (pool_offsets-append rs r)
]

claims_more :
    (k p : ℕ) (entry : Claim) (claimed : HashMap ℕ Claim)
    → is_some (HashMap.get k claimed) ≡ true
    → is_some (HashMap.get k (HashMap.insert p entry claimed)) ≡ true
claims_more k p entry claimed h = elim (Bool-cases (k == p)) [
  | inl t ↦ rw (get-insert k p entry claimed, t)
  | inr f ↦ rw (get-insert k p entry claimed, f) h
]

module _ (fn_addr fn_size : ℕ) where
  fresh :
      (p m o : ℕ) (claimed : HashMap ℕ Claim)
      → is_some (HashMap.get (fn_addr + m) claimed) ≡ true
      → m ≡ o
      → fn_addr + o ≡ p
      → HashMap.get p claimed ≡ none
      → ⊥
  fresh p m o claimed h same back free =
      let at : is_some (HashMap.get p claimed) ≡ true =
        subst (λ k. is_some (HashMap.get k claimed) ≡ true) (ap (λ n. fn_addr + n) same ∙ back) h in
      cc

  -- Every relocated pool word is claimed, and none is relocated twice.
  abbrev pub IsUnique : State → Type 0
  IsUnique st =
      All (λ o. is_some (HashMap.get (fn_addr + o) st.claimed) ≡ true) (pool_offsets st.out.relocs)
      × AreDistinct (pool_offsets st.out.relocs)

  claim :
      (site : PoolLoad) (pc : ℕ) (kind : RelocKind) (name : Str) (addend : ℤ) (target : ℕ)
      (st : State)
      → is_pool kind ≡ true
      → fn_addr + (site.pool_addr - fn_addr) ≡ site.pool_addr
      → HashMap.get site.pool_addr st.claimed ≡ none
      → IsUnique st
      → let r : RecoveredReloc = record {
        offset = site.pool_addr - fn_addr;
        pc = pc;
        kind = kind;
        target = name;
        addend = addend;
        target_addr = target;
      } in
        let claimed = HashMap.insert site.pool_addr (kind, name, addend) st.claimed in
        All
          (λ o. is_some (HashMap.get (fn_addr + o) claimed) ≡ true)
          (pool_offsets (st.out.relocs ++ (r ∷ [])))
        × AreDistinct (pool_offsets (st.out.relocs ++ (r ∷ [])))
  claim site pc kind name addend target st pool back free (held, distinct) =
      let o = site.pool_addr - fn_addr in
      let r : RecoveredReloc = record {
        offset = o;
        pc = pc;
        kind = kind;
        target = name;
        addend = addend;
        target_addr = target;
      } in
      let entry : Claim = (kind, name, addend) in
      let offsets : pool_offsets (st.out.relocs ++ (r ∷ []))
          ≡ pool_offsets st.out.relocs ++ (o ∷ []) =
        pool_offsets-append st.out.relocs r
        ∙ ap (λ b. pool_offsets st.out.relocs ++ (if b then o ∷ [] else [])) pool in
      let here : is_some
            (HashMap.get (fn_addr + o) (HashMap.insert site.pool_addr entry st.claimed))
          ≡ true =
        rw back (
          rw
            (get-insert site.pool_addr site.pool_addr entry st.claimed, beq_refl site.pool_addr)) in
      rw offsets (
        All-append _ (pool_offsets st.out.relocs) (o ∷ [])
            (All-imp (λ m h. claims_more (fn_addr + m) site.pool_addr entry st.claimed h)
              (pool_offsets st.out.relocs) held)
            (here, tt),
        AreDistinct-append (pool_offsets st.out.relocs) o distinct (
            All-imp (λ m h same. fresh site.pool_addr m o st.claimed h same back free)
              (pool_offsets st.out.relocs) held),
      )

  push_pool_reloc-IsUnique :
      (site : PoolLoad) (pc : ℕ) (kind : RelocKind) (name : Str) (addend : ℤ) (target : ℕ)
      (st : State)
      → is_pool kind ≡ true
      → IsUnique st
      → IsUnique (push_pool_reloc site pc kind name addend target fn_addr fn_size st)
  unfolding push_pool_reloc
  push_pool_reloc-IsUnique site pc kind name addend target st pool h =
      elim (Bool-cases
        (ltb site.pool_addr fn_addr || ltb (add_u64 fn_addr fn_size) (add_u64 site.pool_addr 4))) [
          | inl out ↦ rw (out, push_pool_reloc) h
          | inr inside ↦ elim (Option-cases (HashMap.get site.pool_addr st.claimed)) [
            | inr (prev, found) ↦
                elim (Bool-cases (
                  not (same_kind prev.0 kind)
                  || not (str_eq prev.1 name)
                  || not (same_int prev.2 addend))) [
                    | inl differs ↦ rw (inside, found, differs, push_pool_reloc) h
                    | inr same ↦ rw (inside, found, same, push_pool_reloc) h
                  ]
            | inl free ↦
                let back : fn_addr + (site.pool_addr - fn_addr) ≡ site.pool_addr = ground arith in
                rw (inside, free, push_pool_reloc)
                  (claim site pc kind name addend target st pool back free h)
          ]
        ]

  pub emit_pcrel-IsUnique :
      (s : GlobalSymbols) (site : PoolLoad) (pc target : ℕ) (st : State)
      → IsUnique st
      → IsUnique (emit_pcrel s site pc target fn_addr fn_size st)
  unfolding emit_pcrel count_pool_unresolved
  emit_pcrel-IsUnique s site pc target st h = elim (Option-cases (resolve_data s target)) [
    | inl absent ↦ rw (absent, emit_pcrel) h
    | inr (d, found) ↦
        rw (found, emit_pcrel)
          (push_pool_reloc-IsUnique site pc RelocKind.rel32 d.symbol _ target st refl h)
  ]

  count_interior-IsUnique :
      (d : DataResolution) (st : State) → IsUnique st → IsUnique (count_interior d st)
  unfolding count_interior
  count_interior-IsUnique d st h =
      elim (Bool-cases (not (same_int d.addend (pos 0)) && not (is_got_slot d.source))) [
        | inl t ↦ rw (t, count_interior) h
        | inr f ↦ rw (f, count_interior) h
      ]

  pub emit_got-IsUnique :
      (s : GlobalSymbols) (site : PoolLoad) (pc slot : ℕ) (st : State)
      → IsUnique st
      → IsUnique (emit_got s site pc slot fn_addr fn_size st)
  unfolding emit_got count_pool_unresolved
  emit_got-IsUnique s site pc slot st h = elim (Option-cases (resolve_got_slot s slot)) [
    | inl absent ↦ rw (absent, emit_got) h
    | inr (d, found) ↦
        rw (found, emit_got)
          (push_pool_reloc-IsUnique site pc RelocKind.got_prel d.symbol _ slot (count_interior d st)
            refl (count_interior-IsUnique d st h))
  ]

  -- A branch is no pool word.
  pub handle_branch-pool_offsets :
      (s : GlobalSymbols) (offset pc target : ℕ) (kind : RelocKind) (out : RecoveryOutput)
      → is_pool kind ≡ false
      → pool_offsets (handle_branch s offset pc target kind out).relocs ≡ pool_offsets out.relocs
  unfolding handle_branch
  handle_branch-pool_offsets s offset pc target kind out branch =
      elim (Option-cases (branch_target s target)) [
        | inl absent ↦ rw (absent, handle_branch)
        | inr (r, found) ↦
            rw (found, handle_branch)
              (pool_offsets-append out.relocs (record {
                offset = offset;
                pc = pc;
                kind = kind;
                target = r.0;
                addend = r.1;
                target_addr = target;
              })
                ∙ rw branch (append_nil (pool_offsets out.relocs)))
      ]
