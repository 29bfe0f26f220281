-- ===== src/Arm/Recover/Relink/Keeps.antt =====
-- crates/delink-arm/src/recover.rs, `recover`: the invariant of the loop over the instructions, on the
-- tracked words and the relocations so far.
use delink.Prelude.{
  ℕ, ◌+◌, ◌-◌, ◌^◌, ◌<◌, ◌≡◌, sym, ◌∙◌, true, false, not, ◌&&◌, some, List, [], ◌∷◌, ◌==◌, ltb, leb,
  arith, Option-cases, Bool-cases, All, Any, Any-imp, refl, length, subst, inl, inr,
}
use delink.Prelude.Text.{Str}
use delink.Prelude.Eq.{nat_eq}
use delink.Prelude.Int.{ℤ}
use delink.Prelude.Bytes.{slice, from_le_bytes, from_le_bytes-lt, length-slice, All-slice}
use delink.Prelude.Words.{IsByte, IsU32, add_u64, sub_u64}
use delink.Collections.HashMap
use delink.Collections.HashMap.{HashMap, get-insert, get-remove}
use delink.Symbols.{GlobalSymbols, in_got, resolve_data, resolve_got_slot}
use delink.Symbols.Sound.{IsOrderedTable}
use delink.Arm.{
  RelocKind, CodeImage, word, Operand, PoolLoad, Insn, written_registers, Decoded, Capstone,
}
use delink.Arm.Classify.{IsBounded}
use delink.Arm.Recover.{
  reference, use_pcrel, use_indexed, untrack, remove_all, step_insn, count_instruction,
  count_decode_failure,
}
use delink.Arm.Emit.{
  State, push_pool_reloc, emit_pcrel, emit_got, count_interior, count_pool_unresolved,
}
use delink.Arm.Recover.Relink.{UsesPc}
use delink.Arm.Recover.Relink.Code.{BranchesTo, LoadsPool, AddsPc, IndexesPc, ClassMeans}
use delink.Arm.Recover.Relink.Steps.{
  LocalsAreU64, IsSite, AllRelink, handle_branch-Relinks, emit_pcrel-Relinks, emit_got-Relinks,
}

word-lt : (image : CodeImage) (a v : ℕ) → All IsByte image.bytes → word image a ≡ some v → IsU32 v
unfolding word
word-lt image a v bytes e = elim (Bool-cases (leb image.base a)) [
  | inr outside ↦ ground arith
  | inl inside ↦ elim (Option-cases (slice image.bytes (a - image.base) (a - image.base + 4))) [
    | inl absent ↦ ground arith
    | inr (bs, found) ↦
        let small = from_le_bytes-lt bs (All-slice image.bytes _ _ bs bytes found) in
        let four : length bs ≡ 4 = omega (arith, length-slice image.bytes _ _ bs found) in
        let value : from_le_bytes bs ≡ v = ground arith in
        subst IsU32 value (subst (λ n. from_le_bytes bs < 256 ^ n) four small)
  ]
]

module _ (cs : Capstone) (insns : List Decoded) (image : CodeImage) where
  -- Every tracked register holds a word of the image that an instruction loads to it.
  abbrev pub Tracks : HashMap ℕ PoolLoad → Type 0
  Tracks t = (r : ℕ) (site : PoolLoad) → HashMap.get r t ≡ some site → IsSite cs insns image r site

  pub Tracks-nil : Tracks []
  unfolding HashMap.get
  Tracks-nil r site h = cc

  Tracks-remove : (rd : ℕ) (t : HashMap ℕ PoolLoad) → Tracks t → Tracks (HashMap.remove rd t)
  Tracks-remove rd t k r site h = k r site (ground (arith, get-remove r rd t))

  Tracks-remove_all : (rs : List ℕ) (t : HashMap ℕ PoolLoad) → Tracks t → Tracks (remove_all rs t)
  unfolding remove_all
  Tracks-remove_all [] t k = k
  Tracks-remove_all (r ∷ rs) t k = Tracks-remove_all rs _ (Tracks-remove r t k)

  Tracks-insert :
      (rd : ℕ) (site : PoolLoad) (t : HashMap ℕ PoolLoad)
      → IsSite cs insns image rd site
      → Tracks t
      → Tracks (HashMap.insert rd site t)
  Tracks-insert rd site t new k r site' h = elim (Bool-cases (r == rd)) [
    | inl here ↦
        let same : site ≡ site' = ground (arith, get-insert r rd site t) in
        let at : rd ≡ r = ground arith in
        subst (IsSite cs insns image r) same (subst (λ q. IsSite cs insns image q site) at new)
    | inr there ↦ k r site' (ground (arith, get-insert r rd site t))
  ]

module _ (cs : Capstone) (insns : List Decoded) (s : GlobalSymbols) (image : CodeImage)
    (fn_addr fn_size : ℕ) where
  -- The loop invariant.
  pub record Keeps (st : State) : Type 0 where
    pub tracks : Tracks cs insns image st.tracker
    pub relinks : AllRelink cs insns s image fn_addr fn_size st.out.relocs

  push_pool_reloc-tracker :
      (site : PoolLoad) (pc : ℕ) (k : RelocKind) (n : Str) (a : ℤ) (t : ℕ) (st : State)
      → (push_pool_reloc site pc k n a t fn_addr fn_size st).tracker ≡ st.tracker
  unfolding push_pool_reloc
  push_pool_reloc-tracker site pc k n a t st = ground arith

  emit_pcrel-tracker :
      (site : PoolLoad) (pc t : ℕ) (st : State)
      → (emit_pcrel s site pc t fn_addr fn_size st).tracker ≡ st.tracker
  unfolding emit_pcrel count_pool_unresolved
  emit_pcrel-tracker site pc t st = elim (Option-cases (resolve_data s t)) [
    | inl absent ↦ rw (absent, emit_pcrel)
    | inr (d, found) ↦ rw (found, emit_pcrel) (push_pool_reloc-tracker site pc _ _ _ t st)
  ]

  emit_got-tracker :
      (site : PoolLoad) (pc t : ℕ) (st : State)
      → (emit_got s site pc t fn_addr fn_size st).tracker ≡ st.tracker
  unfolding emit_got count_pool_unresolved count_interior
  emit_got-tracker site pc t st = elim (Option-cases (resolve_got_slot s t)) [
    | inl absent ↦ rw (absent, emit_got)
    | inr (d, found) ↦
        rw (found, emit_got) (push_pool_reloc-tracker site pc _ _ _ t _ ∙ ground arith)
  ]

  emit_pcrel-Keeps :
      (reg : ℕ) (site : PoolLoad) (pc : ℕ) (st : State)
      → IsOrderedTable s
      → IsSite cs insns image reg site
      → Any (λ d. UsesPc cs reg d × (pc ≡ d.address)) insns
      → Keeps st
      → Keeps (emit_pcrel s site pc (reference pc site) fn_addr fn_size st)
  emit_pcrel-Keeps reg site pc st o i used k = record {
    tracks =
        subst (Tracks cs insns image) (sym (emit_pcrel-tracker site pc (reference pc site) st))
          k.tracks;
    relinks = emit_pcrel-Relinks cs insns s image fn_addr fn_size reg site pc st o i used k.relinks;
  }

  emit_got-Keeps :
      (reg : ℕ) (site : PoolLoad) (pc : ℕ) (st : State)
      → IsOrderedTable s
      → LocalsAreU64 s
      → in_got s (reference pc site) ≡ true
      → IsSite cs insns image reg site
      → Any (λ d. IndexesPc cs reg d × (pc ≡ d.address)) insns
      → Keeps st
      → Keeps (emit_got s site pc (reference pc site) fn_addr fn_size st)
  emit_got-Keeps reg site pc st o l g i used k = record {
    tracks =
        subst (Tracks cs insns image) (sym (emit_got-tracker site pc (reference pc site) st))
          k.tracks;
    relinks =
        emit_got-Relinks cs insns s image fn_addr fn_size reg site pc st o l g i used k.relinks;
  }

  pub use_pcrel-Keeps :
      (pc rn : ℕ) (st : State)
      → IsOrderedTable s
      → Any (λ d. AddsPc cs rn d × (pc ≡ d.address)) insns
      → Keeps st
      → Keeps (use_pcrel s fn_addr fn_size pc rn st)
  unfolding use_pcrel
  use_pcrel-Keeps pc rn st o used k = elim (Option-cases (HashMap.get rn st.tracker)) [
    | inl absent ↦ rw (absent, use_pcrel) k
    | inr (site, found) ↦
        rw (found, use_pcrel)
          (emit_pcrel-Keeps rn site pc st o (k.tracks rn site found)
            (Any-imp (λ d h. (inl h.0, h.1)) insns used) k)
  ]

  pub use_indexed-Keeps :
      (pc rn : ℕ) (st : State)
      → IsOrderedTable s
      → LocalsAreU64 s
      → Any (λ d. IndexesPc cs rn d × (pc ≡ d.address)) insns
      → Keeps st
      → Keeps (use_indexed s fn_addr fn_size pc rn st)
  unfolding use_indexed
  use_indexed-Keeps pc rn st o l used k = elim (Option-cases (HashMap.get rn st.tracker)) [
    | inl absent ↦ rw (absent, use_indexed) k
    | inr (site, found) ↦ elim (Bool-cases (in_got s (reference pc site))) [
      | inl slot ↦
          rw (found, use_indexed, slot)
            (emit_got-Keeps rn site pc st o l slot (k.tracks rn site found) used k)
      | inr data' ↦
          rw (found, use_indexed, data')
            (emit_pcrel-Keeps rn site pc st o (k.tracks rn site found)
              (Any-imp (λ d h. (inr h.0, h.1)) insns used) k)
    ]
  ]

  untrack-Keeps : (rd : ℕ) (st : State) → Keeps st → Keeps (untrack rd st)
  untrack-Keeps rd st k = record {
    tracks = Tracks-remove cs insns image rd st.tracker k.tracks;
    relinks = k.relinks;
  }

  -- What holds of an instruction of the code holds of one of its instructions.
  at : (d : Decoded) (P : Decoded → Type 0) → Any (λ e. e ≡ d) insns → P d → Any P insns
  at d P there h = Any-imp (λ e same. subst P (sym same) h) insns there

  -- Every arm of the match keeps the invariant.
  pub step_insn-Keeps :
      (d : Decoded) (m : Str) (ops : List Operand) (i : Insn) (st : State)
      → IsOrderedTable s
      → LocalsAreU64 s
      → All IsByte image.bytes
      → Any (λ e. e ≡ d) insns
      → ClassMeans cs d i
      → IsBounded i
      → Keeps st
      → Keeps (step_insn s image fn_addr fn_size d.address m ops i st)
  unfolding step_insn
  step_insn-Keeps d m ops (Insn.branch true target) st o l b there means h k = record {
    tracks = Tracks-nil cs insns image;
    relinks =
        handle_branch-Relinks cs insns s image fn_addr fn_size true _ d.address target
          RelocKind.call st.out (λ r x. x)
          (at d
            (λ e.
              BranchesTo true target e
              × (d.address ≡ e.address)
              × (sub_u64 d.address fn_addr ≡ sub_u64 e.address fn_addr))
            there (means, refl, refl))
          o h k.relinks;
  }
  step_insn-Keeps d m ops (Insn.branch false target) st o l b there means h k =
      elim (Bool-cases (not (leb fn_addr target && ltb target (add_u64 fn_addr fn_size)))) [
        | inl leaves ↦ rw leaves (record {
          tracks = k.tracks;
          relinks =
              handle_branch-Relinks cs insns s image fn_addr fn_size false _ d.address target
                RelocKind.jump24 st.out (λ r x. x)
                (at d
                  (λ e.
                    BranchesTo false target e
                    × (d.address ≡ e.address)
                    × (sub_u64 d.address fn_addr ≡ sub_u64 e.address fn_addr))
                  there (means, refl, refl))
                o h k.relinks;
        })
        | inr stays ↦ rw stays k
      ]
  step_insn-Keeps d m ops (Insn.pool_load rd pool) st o l b there means h k =
      elim (Option-cases (word image pool)) [
        | inl absent ↦ rw absent (record {
          tracks = Tracks-remove cs insns image rd st.tracker k.tracks;
          relinks = k.relinks;
        })
        | inr (v, found) ↦ rw found (record {
          tracks =
              Tracks-insert cs insns image rd _ st.tracker
                (record {
                  loaded = at d (LoadsPool cs rd pool) there means;
                  addr_bound = h;
                  value_bound = word-lt image pool v b found;
                  holds = found;
                })
                k.tracks;
          relinks = k.relinks;
        })
      ]
  step_insn-Keeps d m ops (Insn.add_pc rd rn) st o l b there means h k = untrack-Keeps rd _ (
      use_pcrel-Keeps d.address rn st o
        (at d (λ e. AddsPc cs rn e × (d.address ≡ e.address)) there (means, refl)) k)
  step_insn-Keeps d m ops (Insn.pc_indexed_load rd rn) st o l b there means h k =
      untrack-Keeps rd _ (
        use_indexed-Keeps d.address rn st o l
          (at d (λ e. IndexesPc cs rn e × (d.address ≡ e.address)) there (means, refl)) k)
  step_insn-Keeps d m ops Insn.other st o l b there means h k = record {
    tracks = Tracks-remove_all cs insns image (written_registers m ops) st.tracker k.tracks;
    relinks = k.relinks;
  }
  step_insn-Keeps d m ops Insn.barrier st o l b there means h k = record {
    tracks = Tracks-nil cs insns image;
    relinks = k.relinks;
  }

  pub counts-Keeps : (st : State) → Keeps st → Keeps (count_instruction st)
  unfolding count_instruction
  counts-Keeps st k = record { tracks = k.tracks; relinks = k.relinks }

  pub failure-Keeps :
      (st : State) → Keeps st → Keeps (record (count_decode_failure st) { tracker = [] })
  unfolding count_decode_failure
  failure-Keeps st k = record { tracks = Tracks-nil cs insns image; relinks = k.relinks }

  pub skip-Keeps : (st : State) → Keeps st → Keeps (count_decode_failure st)
  unfolding count_decode_failure
  skip-Keeps st k = record { tracks = k.tracks; relinks = k.relinks }
