-- ===== src/Dwarf/Info/Sound.antt =====
-- crates/delink-emit/src/dwarf_relocs.rs: the relocations of `scan_debug_info` restore their fields.
use delink.Prelude.{
  ℕ, zero, suc, ◌+◌, ◌≡◌, refl, inl, inr, some, List, [], ◌∷◌, drop, length, ltb, ◌==◌, All,
  Bool-cases, Option-cases, subst, not, ◌&&◌,
}
use delink.Prelude.Eq.{nat_eq}
use delink.Prelude.Bytes.{All-drop}
use delink.Prelude.Words.{IsByte, add_u64, as_u64-as_i64}
use delink.Collections.BTreeMap.{IsOrdered}
use delink.Collections.HashMap
use delink.Symbols.{GlobalSymbols}
use delink.Dwarf.{
  DwarfError, or_fail, or_panic, tail_from, DwarfReloc, Output, empty_output, read_addr,
  read_offset, resolve_addr,
}
use delink.Dwarf.Outcome.{done}
use delink.Dwarf.Leb.{read_uleb128}
use delink.Dwarf.Forms.{form_size}
use delink.Dwarf.Abbrevs.{AbbrevAttr, AbbrevMap, read_at, parse_abbrev_table}
use delink.Dwarf.Abbrevs.Ends.{bind_done}
use delink.Dwarf.Restores.{
  AllRestore, push-AllRestore, read_addr-lt, read_offset-lt, resolve_addr_sound,
}
use delink.Dwarf.Info.{
  CuHeader, parse_cu_header, emit_low_pc, emit_strp, emit_attr, is_code_address, scan_attrs,
  count_die, scan_dies, scan_debug_info,
}
use delink.Dwarf.Info.Ends.{tail_from_lem, or_panic_done, or_fail_done}

module _ (s : GlobalSymbols) (ordered : IsOrdered s.functions) (header : CuHeader) (slice : List ℕ)
    (all : All IsByte slice) where
  abbrev Good : Output → Type 0
  Good out = AllRestore s slice header.addr_size header.offset_size out

  emit_low_pc-Good :
      (attr addr cursor : ℕ) (out : Output)
      → read_addr (drop cursor slice) header.addr_size ≡ some addr
      → Good out
      → Good (emit_low_pc s attr addr cursor out)
  unfolding emit_low_pc
  emit_low_pc-Good attr addr cursor out read good =
      elim (Bool-cases (is_code_address attr && not (addr == 0))) [
        | inr other ↦ rw other good
        | inl code ↦ elim (Option-cases (resolve_addr s addr)) [
          | inl none' ↦ rw (code, none') good
          | inr ((name, addend), found) ↦
              let fits =
                read_addr-lt (drop cursor slice) header.addr_size addr
                  (All-drop IsByte cursor slice all) read in
              rw (code, found)
                (push-AllRestore s slice header.addr_size header.offset_size
                  (DwarfReloc.abs64 cursor name addend) out
                  (addr, read, resolve_addr_sound s ordered addr fits name addend found) good)
        ]
      ]

  emit_strp-Good :
      (orig cursor : ℕ) (out : Output)
      → read_offset (drop cursor slice) header.offset_size ≡ some orig
      → Good out
      → Good (emit_strp orig cursor out)
  unfolding emit_strp
  emit_strp-Good orig cursor out read good =
      let fits =
        read_offset-lt (drop cursor slice) header.offset_size orig
          (All-drop IsByte cursor slice all) read in
      push-AllRestore s slice header.addr_size header.offset_size _ out
        (orig, read, refl, as_u64-as_i64 orig fits) good

  emit_attr-Good :
      (a : AbbrevAttr) (cursor : ℕ) (out out' : Output)
      → emit_attr s header a (drop cursor slice) cursor out ≡ done out'
      → Good out
      → Good out'
  unfolding emit_attr
  emit_attr-Good a cursor out out' h good = elim (Bool-cases (a.form == 0x01)) [
    | inl is_addr ↦
        let (addr, read, end) =
          bind_done (or_panic (read_addr (drop cursor slice) header.addr_size)) _ out'
            (rw (is_addr, emit_attr) at h) in
        let same : emit_low_pc s a.attr addr cursor out ≡ out' = cc in
        subst Good (same) (emit_low_pc-Good a.attr addr cursor out (or_panic_done _ addr read) good)
    | inr other ↦ elim (Bool-cases (a.form == 0x0e)) [
      | inl is_strp ↦
          let (orig, read, end) =
            bind_done (or_panic (read_offset (drop cursor slice) header.offset_size)) _ out'
              (rw (other, is_strp, emit_attr) at h) in
          let same : emit_strp orig cursor out ≡ out' = cc in
          subst Good (same) (emit_strp-Good orig cursor out (or_panic_done _ orig read) good)
      | inr rest ↦
          let h' = rw (other, rest, emit_attr) at h in
          let same : out ≡ out' = cc in subst Good (same) good
    ]
  ]

  scan_attrs-Good :
      (attrs : List AbbrevAttr) (cursor : ℕ) (out : Output) (p : Output × ℕ)
      → scan_attrs s header slice attrs cursor out ≡ done p
      → Good out
      → Good p.0
  unfolding scan_attrs
  scan_attrs-Good [] cursor out p h good =
      let same : ◌≡◌ {A = Output × ℕ} (out, cursor) p = cc in subst (λ q. Good q.0) same good
  scan_attrs-Good (a ∷ attrs) cursor out p h good =
      let (bytes, first, h1) = bind_done (or_panic (tail_from cursor slice)) _ p h in
      let (within, same) = tail_from_lem cursor slice bytes first in
      let sized = form_size a.form header.addr_size header.offset_size bytes in
      let (size, second, h2) = bind_done (or_fail DwarfError.unknown_form sized) _ p h1 in
      let (out', third, h3) = bind_done (emit_attr s header a bytes cursor out) _ p h2 in
      let emitted = subst (λ b. emit_attr s header a b cursor out ≡ done out') same third in
      scan_attrs-Good attrs (add_u64 cursor size) out' p h3
        (emit_attr-Good a cursor out out' emitted good)

  scan_dies-Good :
      (fuel : ℕ) (abbrevs : AbbrevMap) (cursor : ℕ) (out out' : Output)
      → scan_dies fuel s header abbrevs slice cursor out ≡ done out'
      → Good out
      → Good out'
  unfolding scan_dies
  scan_dies-Good zero abbrevs cursor out out' h good = cc
  scan_dies-Good (suc fuel) abbrevs cursor out out' h good =
      elim (Bool-cases (ltb cursor (length slice))) [
        | inr end ↦ let h' = rw end at h in let same : out ≡ out' = cc in subst Good (same) good
        | inl there ↦
            let (code, first, h1) =
              bind_done (read_at read_uleb128 DwarfError.bad_code slice cursor) _ out'
                (rw there at h) in
            elim (Bool-cases (code.0 == 0)) [
              | inl null ↦ scan_dies-Good fuel abbrevs code.1 out out' (rw null at h1) good
              | inr die ↦
                  let (entry, second, h2) =
                    bind_done (or_fail DwarfError.unknown_code (HashMap.get code.0 abbrevs)) _ out'
                      (rw die at h1) in
                  let (next, third, h3) =
                    bind_done (scan_attrs s header slice entry.attrs code.1 (count_die out)) _ out'
                      h2 in
                  scan_dies-Good fuel abbrevs next.1 next.0 out' h3
                    (scan_attrs-Good entry.attrs code.1 (count_die out) next third good)
            ]
      ]

-- Every relocation that `scan_debug_info` returns restores its field: an address field holds the
-- start of the function that the relocation names plus its addend, and a string field holds the
-- addend.
pub scan_debug_info-AllRestore :
    (slice abbrev_slice : List ℕ) (s : GlobalSymbols) (out : Output)
    → IsOrdered s.functions
    → All IsByte slice
    → scan_debug_info slice abbrev_slice s ≡ done out
    → (header : CuHeader) × (parse_cu_header slice ≡ some header)
      × AllRestore s slice header.addr_size header.offset_size out
unfolding scan_debug_info
scan_debug_info-AllRestore slice abbrev_slice s out ordered all h =
    let (header, first, h1) =
      bind_done (or_fail DwarfError.bad_cu_header (parse_cu_header slice)) _ out h in
    let (abbrevs, second, h2) = bind_done (parse_abbrev_table abbrev_slice) _ out h1 in
    (
      header,
      or_fail_done _ _ header first,
      scan_dies-Good s ordered header slice all (length slice + 1) abbrevs header.header_size
          empty_output out h2 tt,
    )
