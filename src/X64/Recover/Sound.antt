-- ===== src/X64/Recover/Sound.antt =====
-- crates/delink-x86_64/src/recover.rs: every relocation of `recover` comes from an instruction.
use delink.Prelude.{
  ℕ, ◌≡◌, inl, inr, refl, Bool, true, false, List, [], ◌∷◌, ◌++◌, if◌then◌else◌, arith, Bool-cases,
  Option-cases, All, All-append, All-imp, Any-append_left, Any-append_right, sym, subst,
}
use delink.X64.{
  RecoveredReloc, RecoveredJumpTable, RecoveryOutput, SymbolResolver, Instruction, is_branch, State,
  insn_offset_of,
}
use delink.X64.Recover.{
  note_rep_ret, invalidate, reads_tls_pointer, loads_immediate, tls_reloc, tls_candidate,
  emit_branch, emit_operands, count_instruction, count_decode_failure, step_valid, step, run,
  commit, initial, recover,
}
use delink.X64.Recover.Origin.{History, rev_onto, IsListed, From, IsFrom, ReadsTls}
use delink.X64.Recover.Base.{
  IsMarked, replicate-IsMarked, holds_base-IsBased, establish-IsMarked, invalidate-IsMarked,
  invalid-IsMarked,
}
use delink.X64.Recover.Adds.{
  IsSecrel, Adds, note_rep_ret-relocs, emit_branch-Adds, emit_operands-Adds,
}

module _ (resolver : SymbolResolver) (bytes : List ℕ) (fn_va fn_size : ℕ) where
  -- A relocation of code or data that the history accounts for.
  abbrev Traced : History → RecoveredReloc → Type 0
  Traced history r = IsFrom resolver bytes fn_va fn_size history r × (IsSecrel r.kind → ⊥)

  record IsSound (history : History) (st : State) : Type 0 where
    traced : All (Traced history) st.out.relocs
    candidates : All (IsFrom resolver bytes fn_va fn_size history) st.tls_candidates
    marked : IsMarked resolver st.imgbase history
    tls : st.tls_context ≡ true → ReadsTls history
    listed : All (IsListed st.out.relocs) st.out.jump_tables

  -- More relocations behind do no harm to a table.
  append-IsListed :
      (rs more : List RecoveredReloc) (t : RecoveredJumpTable)
      → IsListed rs t
      → IsListed (rs ++ more) t
  append-IsListed rs more t l = record {
    is_not_empty = l.is_not_empty;
    entries = λ k h. Any-append_left _ rs more (l.entries k h);
    reference = Any-append_left _ rs more l.reference;
  }

  behind-IsListed :
      (rs more : List RecoveredReloc) (t : RecoveredJumpTable)
      → IsListed more t
      → IsListed (rs ++ more) t
  behind-IsListed rs more t l = record {
    is_not_empty = l.is_not_empty;
    entries = λ k h. Any-append_right _ rs more (l.entries k h);
    reference = Any-append_right _ rs more l.reference;
  }

  module _ (history : History) (insn : Instruction) where
    later : (rs : List RecoveredReloc) → All (Traced history) rs → All (Traced (insn ∷ history)) rs
    later rs h = All-imp (λ r t. (inr t.0, t.1)) rs h

    Adds-Traced :
        (out out' : RecoveryOutput)
        → insn.is_invalid ≡ false
        → Adds resolver bytes fn_va fn_size insn history out out'
        → All (Traced history) out.relocs
        → All (Traced (insn ∷ history)) out'.relocs
    Adds-Traced out out' valid adds traced =
        subst (λ rs. All (Traced (insn ∷ history)) rs) (sym adds.is_behind)
          (All-append (Traced (insn ∷ history)) out.relocs adds.new (later out.relocs traced)
            (All-imp (λ r p. (inl (valid, p.0), p.1)) adds.new adds.placed))

    Adds-IsListed :
        (out out' : RecoveryOutput)
        → Adds resolver bytes fn_va fn_size insn history out out'
        → All (IsListed out.relocs) out.jump_tables
        → All (IsListed out'.relocs) out'.jump_tables
    Adds-IsListed out out' adds listed =
        subst (λ rs. All (IsListed rs) out'.jump_tables) (sym adds.is_behind)
          (subst (λ ts. All (IsListed (out.relocs ++ adds.new)) ts) (sym adds.tables_behind)
            (All-append (IsListed (out.relocs ++ adds.new)) out.jump_tables adds.tables
              (All-imp (append-IsListed out.relocs adds.new) out.jump_tables listed)
              (All-imp (behind-IsListed out.relocs adds.new) adds.tables adds.listed)))

    tls_candidate-IsFrom :
        (candidates : List RecoveredReloc)
        → insn.is_invalid ≡ false
        → All (IsFrom resolver bytes fn_va fn_size history) candidates
        → All
            (IsFrom resolver bytes fn_va fn_size (insn ∷ history))
            (tls_candidate resolver fn_va insn candidates)
    unfolding tls_candidate
    tls_candidate-IsFrom candidates valid before =
        let kept =
          All-imp {Q = IsFrom resolver bytes fn_va fn_size (insn ∷ history)} (λ r t. inr t)
            candidates before in
        elim (Bool-cases (loads_immediate insn)) [
          | inr other ↦ rw (other, tls_candidate) kept
          | inl loads ↦ elim (Option-cases (resolver.resolve_tls_offset insn.immediate32)) [
            | inl none' ↦ rw (loads, none', tls_candidate) kept
            | inr ((name, addend), found) ↦
                rw (loads, found, tls_candidate)
                  (All-append (IsFrom resolver bytes fn_va fn_size (insn ∷ history)) candidates
                    (tls_reloc fn_va insn name addend ∷ []) kept
                    (inl (valid, From.tls_offset name addend loads found refl), tt))
          ]
        ]

    ReadsTls-step :
        (context : Bool)
        → insn.is_invalid ≡ false
        → (context ≡ true → ReadsTls history)
        → (if reads_tls_pointer insn then true else context) ≡ true
        → ReadsTls (insn ∷ history)
    ReadsTls-step context valid before h = elim (Bool-cases (reads_tls_pointer insn)) [
      | inl reads ↦ inl (valid, reads)
      | inr other ↦ inr (before (rw other at h))
    ]

    step_valid-IsSound :
        (st : State)
        → insn.is_invalid ≡ false
        → IsSound history st
        → IsSound (insn ∷ history) (step_valid resolver bytes fn_va fn_size insn st)
    unfolding step_valid
    step_valid-IsSound st valid sound =
        let offset = insn_offset_of fn_va insn in
        let noted = note_rep_ret bytes offset insn st.out in
        let img = invalidate insn.used_registers st.imgbase in
        let same = note_rep_ret-relocs resolver bytes fn_va fn_size insn history offset st.out in
        let traced = subst (λ rs. All (Traced history) rs) (sym same.0) sound.traced in
        let listed =
          subst (λ ts. All (IsListed noted.relocs) ts) (sym same.1)
            (subst (λ rs. All (IsListed rs) st.out.jump_tables) (sym same.0) sound.listed) in
        elim (Bool-cases (is_branch insn.flow_control)) [
          | inl branch ↦ rw branch (record {
            traced =
                Adds-Traced noted (emit_branch resolver fn_va fn_size insn noted) valid
                  (emit_branch-Adds resolver bytes fn_va fn_size insn history noted branch) traced;
            candidates = tls_candidate-IsFrom st.tls_candidates valid sound.candidates;
            marked = invalidate-IsMarked resolver insn history st.imgbase sound.marked;
            tls = ReadsTls-step st.tls_context valid sound.tls;
            listed =
                Adds-IsListed noted (emit_branch resolver fn_va fn_size insn noted)
                  (emit_branch-Adds resolver bytes fn_va fn_size insn history noted branch) listed;
          })
          | inr straight ↦ rw straight (record {
            traced =
                Adds-Traced noted
                  (emit_operands resolver bytes fn_va fn_size insn img insn.op_kinds noted) valid
                  (emit_operands-Adds resolver bytes fn_va fn_size insn history img insn.op_kinds
                    noted (holds_base-IsBased resolver insn history st.imgbase sound.marked))
                  traced;
            candidates = tls_candidate-IsFrom st.tls_candidates valid sound.candidates;
            marked =
                establish-IsMarked resolver insn history st.imgbase sound.marked valid straight;
            tls = ReadsTls-step st.tls_context valid sound.tls;
            listed =
                Adds-IsListed noted
                  (emit_operands resolver bytes fn_va fn_size insn img insn.op_kinds noted)
                  (emit_operands-Adds resolver bytes fn_va fn_size insn history img insn.op_kinds
                    noted (holds_base-IsBased resolver insn history st.imgbase sound.marked))
                  listed;
          })
        ]

    abbrev counted : State → State
    counted st = record st { out = count_instruction st.out }

    step_invalid :
        (st : State)
        → insn.is_invalid ≡ true
        → step resolver bytes fn_va fn_size insn st
          ≡ record st { out = count_decode_failure (count_instruction st.out) }
    unfolding step
    step_invalid st invalid = ground arith

    step_as_valid :
        (st : State)
        → insn.is_invalid ≡ false
        → step resolver bytes fn_va fn_size insn st
          ≡ step_valid resolver bytes fn_va fn_size insn (counted st)
    unfolding step
    step_as_valid st valid = ground arith

    step-IsSound :
        (st : State)
        → IsSound history st
        → IsSound (insn ∷ history) (step resolver bytes fn_va fn_size insn st)
    step-IsSound st sound = elim (Bool-cases insn.is_invalid) [
      | inl invalid ↦
          subst (λ s. IsSound (insn ∷ history) s) (sym (step_invalid st invalid))
            (record {
              traced = later st.out.relocs sound.traced;
              candidates = All-imp (λ r t. inr t) st.tls_candidates sound.candidates;
              marked = invalid-IsMarked resolver insn history st.imgbase sound.marked invalid;
              tls = λ h. inr (sound.tls h);
              listed = sound.listed;
            })
      | inr valid ↦
          subst (λ s. IsSound (insn ∷ history) s) (sym (step_as_valid st valid))
            (step_valid-IsSound (counted st) valid (record {
              traced = sound.traced;
              candidates = sound.candidates;
              marked = sound.marked;
              tls = sound.tls;
              listed = sound.listed;
            }))
    ]

  run-IsSound :
      (insns : List Instruction) (history : History) (st : State)
      → IsSound history st
      → IsSound (rev_onto insns history) (run resolver bytes fn_va fn_size insns st)
  unfolding run
  run-IsSound [] history st sound = sound
  run-IsSound (insn ∷ insns) history st sound =
      run-IsSound insns (insn ∷ history) (step resolver bytes fn_va fn_size insn st)
        (step-IsSound history insn st sound)

initial-IsSound :
    (resolver : SymbolResolver) (bytes : List ℕ) (fn_va fn_size : ℕ)
    → IsSound resolver bytes fn_va fn_size [] initial
initial-IsSound resolver bytes fn_va fn_size = record {
  traced = tt;
  candidates = tt;
  marked = replicate-IsMarked resolver 16;
  tls = λ h. cc;
  listed = tt;
}

-- The relocation is what a valid instruction of the history asks for, and if it is a thread-local one
-- some instruction reads the pointer to the thread-local storage.
abbrev pub IsCaused :
    SymbolResolver → List ℕ → (fn_va fn_size : ℕ) → History → RecoveredReloc → Type 0
IsCaused resolver bytes fn_va fn_size history r =
    IsFrom resolver bytes fn_va fn_size history r × (IsSecrel r.kind → ReadsTls history)

-- Whatever iced-x86 decodes and the caller resolves, each relocation that the x86-64 recover returns
-- is what one of the instructions asks for: a branch that leaves the function, a rip operand, an
-- operand on a register that was loaded with the image base and not written since, the table or a
-- case of such an operand inside the function, or a thread-local offset where the function reads the
-- thread-local storage.
pub recover-IsCaused :
    (decode_all : List ℕ → ℕ → List Instruction) (bytes : List ℕ) (fn_va fn_size : ℕ)
    (resolver : SymbolResolver)
    → All
        (IsCaused resolver bytes fn_va fn_size (rev_onto (decode_all bytes fn_va) []))
        (recover decode_all bytes fn_va fn_size resolver).relocs
unfolding recover commit
recover-IsCaused decode_all bytes fn_va fn_size resolver =
    let insns = decode_all bytes fn_va in
    let st = run resolver bytes fn_va fn_size insns initial in
    let sound =
      run-IsSound resolver bytes fn_va fn_size insns [] initial
        (initial-IsSound resolver bytes fn_va fn_size) in
    let code =
      All-imp {Q = IsCaused resolver bytes fn_va fn_size (rev_onto insns [])}
        (λ r t. (t.0, λ k. absurd (t.1 k))) st.out.relocs sound.traced in
    elim (Bool-cases st.tls_context) [
      | inr none' ↦ rw (none', commit) code
      | inl context ↦
          rw (context, commit)
            (All-append (IsCaused resolver bytes fn_va fn_size (rev_onto insns [])) st.out.relocs
              st.tls_candidates code
              (All-imp (λ r t. (t, λ k. sound.tls context)) st.tls_candidates sound.candidates))
    ]

-- Each jump table that the x86-64 recover returns has an entry, every one of its words is relocated
-- against the image base, and so is a reference to the table by its name.
pub recover-IsListed :
    (decode_all : List ℕ → ℕ → List Instruction) (bytes : List ℕ) (fn_va fn_size : ℕ)
    (resolver : SymbolResolver)
    → let out = recover decode_all bytes fn_va fn_size resolver in
      All (IsListed out.relocs) out.jump_tables
unfolding recover commit
recover-IsListed decode_all bytes fn_va fn_size resolver =
    let st = run resolver bytes fn_va fn_size (decode_all bytes fn_va) initial in
    let sound =
      run-IsSound resolver bytes fn_va fn_size (decode_all bytes fn_va) [] initial
        (initial-IsSound resolver bytes fn_va fn_size) in
    elim (Bool-cases st.tls_context) [
      | inr none' ↦ rw (none', commit) sound.listed
      | inl context ↦
          rw (context, commit)
            (All-imp (append-IsListed resolver bytes fn_va fn_size st.out.relocs st.tls_candidates)
              st.out.jump_tables sound.listed)
    ]
