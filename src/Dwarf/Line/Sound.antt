-- ===== src/Dwarf/Line/Sound.antt =====
-- crates/delink-emit/src/dwarf_relocs.rs: the relocations of `scan_debug_line` restore their fields.
use delink.Prelude.{
  ℕ, zero, suc, ◌+◌, ◌≡◌, inl, inr, some, List, drop, length, ltb, ◌==◌, All, Bool-cases,
  Option-cases, subst, get_elem?, ◌-◌,
}
use delink.Prelude.Bytes.{All-drop}
use delink.Prelude.Words.{IsByte, add_u64}
use delink.Collections.BTreeMap.{IsOrdered}
use delink.Symbols.{GlobalSymbols}
use delink.Dwarf.{
  DwarfError, or_panic, tail_from, DwarfReloc, Output, empty_output, read_addr, resolve_addr,
}
use delink.Dwarf.Outcome.{done}
use delink.Dwarf.Leb.{read_uleb128}
use delink.Dwarf.Abbrevs.{read_at}
use delink.Dwarf.Abbrevs.Ends.{bind_done}
use delink.Dwarf.Restores.{AllRestore, push-AllRestore, read_addr-lt, resolve_addr_sound}
use delink.Dwarf.Info.Ends.{tail_from_lem, or_panic_done}
use delink.Dwarf.Line.{
  LineProgramHeader, parse_line_program_header, emit_set_address, step_extended, skip_operands,
  step_opcode, run_line, scan_debug_line,
}

module _ (s : GlobalSymbols) (ordered : IsOrdered s.functions) (header : LineProgramHeader)
    (slice : List ℕ) (all : All IsByte slice) where
  abbrev Good : Output → Type 0
  Good out = AllRestore s slice header.address_size 0 out

  emit_set_address-Good :
      (addr cursor : ℕ) (out : Output)
      → read_addr (drop cursor slice) header.address_size ≡ some addr
      → Good out
      → Good (emit_set_address s addr cursor out)
  unfolding emit_set_address
  emit_set_address-Good addr cursor out read good = elim (Bool-cases (addr == 0)) [
    | inl zero' ↦ rw zero' good
    | inr there ↦ elim (Option-cases (resolve_addr s addr)) [
      | inl none' ↦ rw (there, none') good
      | inr ((name, addend), found) ↦
          let fits =
            read_addr-lt (drop cursor slice) header.address_size addr
              (All-drop IsByte cursor slice all) read in
          rw (there, found)
            (push-AllRestore s slice header.address_size 0 (DwarfReloc.abs64 cursor name addend) out
              (addr, read, resolve_addr_sound s ordered addr fits name addend found) good)
    ]
  ]

  step_extended-Good :
      (cursor : ℕ) (out : Output) (p : Output × ℕ)
      → step_extended s header slice cursor out ≡ done p
      → Good out
      → Good p.0
  unfolding step_extended
  step_extended-Good cursor out p h good =
      let (len, first, h1) =
        bind_done (read_at read_uleb128 DwarfError.bad_extended_length slice cursor) _ p h in
      elim (Bool-cases (len.0 == 0)) [
        | inl empty ↦
            let h' = rw empty at h1 in
            let same : ◌≡◌ {A = Output × ℕ} (out, len.1) p = cc in subst (λ q. Good q.0) same good
        | inr operation ↦
            let (sub, second, h2) =
              bind_done (or_panic (get_elem? slice len.1)) _ p (rw operation at h1) in
            elim (Bool-cases (sub == 0x02)) [
              | inr other ↦
                  let h' = rw other at h2 in
                  let same : ◌≡◌ {A = Output × ℕ} (out, add_u64 len.1 len.0) p = cc in
                  subst (λ q. Good q.0) same good
              | inl set_address ↦
                  let (bytes, third, h3) =
                    bind_done (or_panic (tail_from (len.1 + 1) slice)) _ p (rw set_address at h2) in
                  let (within, same) = tail_from_lem (len.1 + 1) slice bytes third in
                  let (addr, fourth, h4) =
                    bind_done (or_panic (read_addr bytes header.address_size)) _ p h3 in
                  let read =
                    subst (λ b. read_addr b header.address_size ≡ some addr) same
                      (or_panic_done _ addr fourth) in
                  let emitted = emit_set_address s addr (len.1 + 1) out in
                  let result : ◌≡◌ {A = Output × ℕ} (emitted, add_u64 len.1 len.0) p = cc in
                  subst (λ q. Good q.0) result
                    (emit_set_address-Good addr (len.1 + 1) out read good)
            ]
      ]

  step_opcode-Good :
      (opcode cursor : ℕ) (out : Output) (p : Output × ℕ)
      → step_opcode s header slice opcode cursor out ≡ done p
      → Good out
      → Good p.0
  unfolding step_opcode
  step_opcode-Good opcode cursor out p h good = elim (Bool-cases (opcode == 0)) [
    | inl extended ↦ step_extended-Good cursor out p (rw extended at h) good
    | inr opcode' ↦ elim (Bool-cases (ltb opcode (length header.standard_opcode_lengths + 1))) [
      | inl standard ↦
          let (n, first, h1) =
            bind_done (or_panic (get_elem? header.standard_opcode_lengths (opcode - 1))) _ p
              (rw (opcode', standard) at h) in
          let (next, second, h2) = bind_done (skip_operands n slice cursor) _ p h1 in
          let same : ◌≡◌ {A = Output × ℕ} (out, next) p = cc in subst (λ q. Good q.0) same good
      | inr special ↦
          let h' = rw (opcode', special) at h in
          let same : ◌≡◌ {A = Output × ℕ} (out, cursor) p = cc in subst (λ q. Good q.0) same good
    ]
  ]

  run_line-Good :
      (fuel cursor : ℕ) (out out' : Output)
      → run_line fuel s header slice cursor out ≡ done out'
      → Good out
      → Good out'
  unfolding run_line
  run_line-Good zero cursor out out' h good = cc
  run_line-Good (suc fuel) cursor out out' h good = elim (Option-cases (get_elem? slice cursor)) [
    | inl end ↦
        let h' = rw (end, run_line) at h in let same : out ≡ out' = cc in subst Good (same) good
    | inr (opcode, there) ↦
        let (next, first, h1) =
          bind_done (step_opcode s header slice opcode (cursor + 1) out) _ out'
            (rw (there, run_line) at h) in
        run_line-Good fuel next.1 next.0 out' h1
          (step_opcode-Good opcode (cursor + 1) out next first good)
  ]

-- Every relocation that `scan_debug_line` returns restores its field: the operand of the
-- DW_LNE_set_address is the start of the function that the relocation names plus its addend.
pub scan_debug_line-AllRestore :
    (slice : List ℕ) (s : GlobalSymbols) (out : Output)
    → IsOrdered s.functions
    → All IsByte slice
    → scan_debug_line slice s ≡ done out
    → (header : LineProgramHeader) × (parse_line_program_header slice ≡ done header)
      × AllRestore s slice header.address_size 0 out
unfolding scan_debug_line
scan_debug_line-AllRestore slice s out ordered all h =
    let (header, first, h1) = bind_done (parse_line_program_header slice) _ out h in
    (
      header,
      first,
      run_line-Good s ordered header slice all (length slice + 1) header.program_start empty_output
          out h1 tt,
    )
