-- ===== src/Dwarf/Info.antt =====
-- crates/delink-emit/src/dwarf_relocs.rs, `parse_cu_header` and `scan_debug_info`.
pub mod Ends
pub mod Sound
use delink.Prelude.{
  ℕ, zero, suc, ◌+◌, Bool, ◌&&◌, ◌||◌, not, Option, none, some, List, [], ◌∷◌, get_elem?, take,
  drop, length, ltb, leb, ◌==◌, if◌then◌else◌,
}
use delink.Prelude.Eq.{nat_eq}
use delink.Prelude.Text.{Str, codes}
use delink.Prelude.Bytes.{from_le_bytes}
use delink.Prelude.Int.{ℤ}
use delink.Prelude.Words.{add_u64, as_i64}
use delink.Collections.HashMap
use delink.Symbols.{GlobalSymbols}
use delink.Dwarf.{
  Outcome, DwarfError, ◌>>=◌, or_fail, or_panic, tail_from, DwarfReloc, DwarfRelocDiag, Output,
  empty_output, push, read_addr, read_offset, resolve_addr, sym_debug_str_start,
}
use delink.Dwarf.Outcome.{done, failed, out_of_fuel}
use delink.Dwarf.Leb.{read_uleb128}
use delink.Dwarf.Forms.{form_size}
use delink.Dwarf.Abbrevs.{AbbrevAttr, AbbrevMap, read_at, parse_abbrev_table}

pub record CuHeader : Type 0 where
  pub header_size : ℕ
  pub addr_size : ℕ
  pub offset_size : ℕ

-- `u16::from_le_bytes(slice[at..at + 2])`, where the slice is known to be long enough.
abbrev pub half_at : List ℕ → ℕ → ℕ
half_at slice at = from_le_bytes (take 2 (drop at slice))

-- `let asize = slice[at]`, which is inside the slice.
unfoldable pub sized_header : (header_size offset_size at : ℕ) → List ℕ → Option CuHeader
sized_header header_size offset_size at slice = elim (get_elem? slice at) [
  | none ↦ none
  | some asize ↦
      some (record { header_size = header_size; addr_size = asize; offset_size = offset_size })
]

-- The header behind the length field of either format.
unfoldable pub parse_cu_fields : (after_len offset_size : ℕ) → List ℕ → Option CuHeader
unfolding from_le_bytes sized_header
parse_cu_fields after_len offset_size slice =
    let after_version = after_len + 2 in
    let v5 = after_version + 2 + offset_size in
    let v4 = after_version + offset_size + 1 in
    if ltb (length slice) (after_len + 2)
    then none
    else if leb 5 (half_at slice after_len)
    then if ltb (length slice) v5
      then none
      else sized_header v5 offset_size (after_version + 1) slice
    else if ltb (length slice) v4
    then none
    else sized_header v4 offset_size (after_version + offset_size) slice

unfoldable pub parse_cu_header : List ℕ → Option CuHeader
unfolding parse_cu_fields from_le_bytes
parse_cu_header slice =
    if ltb (length slice) 4
    then none
    else if from_le_bytes (take 4 slice) == 0xffff_ffff
    then parse_cu_fields 12 8 slice
    else parse_cu_fields 4 4 slice

-- DW_AT_low_pc, DW_AT_high_pc and DW_AT_entry_pc.
abbrev pub is_code_address : ℕ → Bool
is_code_address attr = attr == 0x11 || attr == 0x12 || attr == 0x52

-- `DW_FORM_addr`, at `cursor`.
unfoldable pub emit_low_pc : GlobalSymbols → (attr addr cursor : ℕ) → Output → Output
emit_low_pc s attr addr cursor out =
    let diag = out.diag in
    if is_code_address attr && not (addr == 0)
    then elim (resolve_addr s addr) [
      | some (name, addend) ↦
          push (DwarfReloc.abs64 cursor name addend)
            (record out { diag = record diag { low_pc_resolved = diag.low_pc_resolved + 1 } })
      | none ↦ record out { diag = record diag { low_pc_missing = diag.low_pc_missing + 1 } }
    ]
    else out

-- `DW_FORM_strp`, at `cursor`.
unfoldable pub emit_strp : (orig cursor : ℕ) → Output → Output
unfolding as_i64
emit_strp orig cursor out =
    let diag = out.diag in
    push (DwarfReloc.abs32 cursor sym_debug_str_start (as_i64 orig))
      (record out { diag = record diag { strp_emitted = diag.strp_emitted + 1 } })

-- The `match` on the form of an attribute whose bytes start at `cursor`.
unfoldable pub emit_attr :
    GlobalSymbols → CuHeader → AbbrevAttr → List ℕ → ℕ → Output → Outcome Output
unfolding emit_low_pc emit_strp read_addr read_offset
emit_attr s header a bytes cursor out =
    if a.form == 0x01
    then (do
      addr ← or_panic (read_addr bytes header.addr_size)
      done (emit_low_pc s a.attr addr cursor out))
    else if a.form == 0x0e
    then (do
      orig ← or_panic (read_offset bytes header.offset_size)
      done (emit_strp orig cursor out))
    else done out

-- The attributes of a DIE. `cursor += size` may pass the end, and the next index panics then.
unfoldable pub scan_attrs :
    GlobalSymbols → CuHeader → List ℕ → List AbbrevAttr → ℕ → Output → Outcome (Output × ℕ)
unfolding emit_attr form_size
scan_attrs s header slice [] cursor out = done (out, cursor)
scan_attrs s header slice (a ∷ attrs) cursor out = do
  bytes ← or_panic (tail_from cursor slice)
  size ←
      or_fail DwarfError.unknown_form (form_size a.form header.addr_size header.offset_size bytes)
  out' ← emit_attr s header a bytes cursor out
  scan_attrs s header slice attrs (add_u64 cursor size) out'

abbrev pub count_die : Output → Output
count_die out =
    let diag = out.diag in record out { diag = record diag { dies_walked = diag.dies_walked + 1 } }

unfoldable pub scan_dies :
    ℕ → GlobalSymbols → CuHeader → AbbrevMap → List ℕ → ℕ → Output → Outcome Output
unfolding read_at scan_attrs HashMap.get
scan_dies zero s header abbrevs slice cursor out = out_of_fuel
scan_dies (suc fuel) s header abbrevs slice cursor out =
    let round = (do
      code ← read_at read_uleb128 DwarfError.bad_code slice cursor
      let null_die = scan_dies fuel s header abbrevs slice code.1 out
      let die = (do
        abbrev_of ← or_fail DwarfError.unknown_code (HashMap.get code.0 abbrevs)
        next ← scan_attrs s header slice abbrev_of.attrs code.1 (count_die out)
        scan_dies fuel s header abbrevs slice next.1 next.0)
      if code.0 == 0 then null_die else die) in
    if ltb cursor (length slice) then round else done out

-- One round of the loop reads a byte at least.
unfoldable pub scan_debug_info : List ℕ → List ℕ → GlobalSymbols → Outcome Output
unfolding parse_cu_header scan_dies parse_abbrev_table
scan_debug_info slice abbrev_slice s = do
  header ← or_fail DwarfError.bad_cu_header (parse_cu_header slice)
  abbrevs ← parse_abbrev_table abbrev_slice
  scan_dies (length slice + 1) s header abbrevs slice header.header_size empty_output
