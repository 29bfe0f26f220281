-- ===== src/Dwarf/Line.antt =====
-- crates/delink-emit/src/dwarf_relocs.rs, `parse_line_program_header` and `scan_debug_line`.
pub mod Sound
pub mod Header
pub mod Ends
pub mod Loops
use delink.Prelude.{
  ℕ, zero, suc, ◌+◌, ◌-◌, Bool, Option, none, some, List, [], ◌∷◌, get_elem?, take, drop, length,
  ltb, leb, ◌==◌, if◌then◌else◌,
}
use delink.Prelude.Bytes.{from_le_bytes}
use delink.Prelude.Words.{add_u64}
use delink.Symbols.{GlobalSymbols}
use delink.Dwarf.{
  Outcome, DwarfError, ◌>>=◌, or_fail, or_panic, tail_from, DwarfReloc, DwarfRelocDiag, Output,
  empty_output, push, read_addr, resolve_addr,
}
use delink.Dwarf.Outcome.{done, failed, out_of_fuel}
use delink.Dwarf.Leb.{read_uleb128}
use delink.Dwarf.Abbrevs.{read_at}

pub record LineProgramHeader : Type 0 where
  pub address_size : ℕ
  pub standard_opcode_lengths : List ℕ
  pub program_start : ℕ

abbrev pub bad_header {ℓ} : {A : Type ℓ} → Outcome A
bad_header = failed DwarfError.bad_line_header

-- From the default of `is_stmt` on: fixed fields, each an index into the slice, and the lengths of
-- the standard opcodes.
unfoldable pub parse_opcode_lengths :
    (address_size program_start at : ℕ) → List ℕ → Outcome LineProgramHeader
parse_opcode_lengths address_size program_start at slice = do
  _default_is_stmt ← or_panic (get_elem? slice at)
  _line_base ← or_panic (get_elem? slice (at + 1))
  _line_range ← or_panic (get_elem? slice (at + 2))
  opcode_base ← or_panic (get_elem? slice (at + 3))
  let count = opcode_base - 1
  let header : LineProgramHeader = record {
    address_size = address_size;
    standard_opcode_lengths = take count (drop (at + 4) slice);
    program_start = program_start;
  }
  if ltb (length slice) (at + 4 + count) then bad_header else done header

-- From the field behind the header length on. Version 4 has one field more.
unfoldable pub parse_line_fields :
    (version address_size program_start cursor : ℕ) → List ℕ → Outcome LineProgramHeader
unfolding parse_opcode_lengths
parse_line_fields version address_size program_start cursor slice =
    let v4 = (do
      _max_ops_per_inst ← or_panic (get_elem? slice (cursor + 1))
      parse_opcode_lengths address_size program_start (cursor + 2) slice) in
    let v3 = parse_opcode_lengths address_size program_start (cursor + 1) slice in
    let fields = (do
      _min_inst_length ← or_panic (get_elem? slice cursor)
      if leb 4 version then v4 else v3) in
    if ltb (length slice) (cursor + 4) then bad_header else fields

-- The header length at `cursor`, `width` bytes wide.
unfoldable pub parse_line_length :
    (version address_size width cursor : ℕ) → List ℕ → Outcome LineProgramHeader
unfolding parse_line_fields from_le_bytes
parse_line_length version address_size width cursor slice =
    if ltb (length slice) (cursor + width)
    then bad_header
    else parse_line_fields version address_size
        (add_u64 (cursor + width) (from_le_bytes (take width (drop cursor slice)))) (cursor + width)
        slice

-- From the version on.
unfoldable pub parse_line_version : (after_len width : ℕ) → List ℕ → Outcome LineProgramHeader
unfolding parse_line_length from_le_bytes
parse_line_version after_len width slice =
    let version = from_le_bytes (take 2 (drop after_len slice)) in
    let cursor = after_len + 2 in
    let with_sizes = (do
      asize ← or_panic (get_elem? slice cursor)
      parse_line_length version asize width (cursor + 2) slice) in
    if ltb (length slice) (after_len + 2)
    then bad_header
    else if leb 5 version
    then if ltb (length slice) (cursor + 2) then bad_header else with_sizes
    else parse_line_length version 8 width cursor slice

unfoldable pub parse_line_program_header : List ℕ → Outcome LineProgramHeader
unfolding parse_line_version from_le_bytes
parse_line_program_header slice =
    if ltb (length slice) 4
    then bad_header
    else if from_le_bytes (take 4 slice) == 0xffff_ffff
    then parse_line_version 12 8 slice
    else parse_line_version 4 4 slice

-- `DW_LNE_set_address`, whose operand is at `cursor`.
unfoldable pub emit_set_address : GlobalSymbols → (addr cursor : ℕ) → Output → Output
emit_set_address s addr cursor out =
    let diag = out.diag in
    if addr == 0 then out else elim (resolve_addr s addr) [
      | some (name, addend) ↦ push (DwarfReloc.abs64 cursor name addend) (record out {
        diag = record diag { set_address_resolved = diag.set_address_resolved + 1 };
      })
      | none ↦ record out {
        diag = record diag { set_address_missing = diag.set_address_missing + 1 };
      }
    ]

-- An extended opcode, from the byte behind its zero on: the cursor behind it, where
-- `ext_start + len` wraps.
unfoldable pub step_extended :
    GlobalSymbols → LineProgramHeader → List ℕ → ℕ → Output → Outcome (Output × ℕ)
unfolding read_at read_addr emit_set_address
step_extended s header slice cursor out = do
  len ← read_at read_uleb128 DwarfError.bad_extended_length slice cursor
  let operation = (do
    sub ← or_panic (get_elem? slice len.1)
    let set_address = (do
      bytes ← or_panic (tail_from (len.1 + 1) slice)
      addr ← or_panic (read_addr bytes header.address_size)
      done (emit_set_address s addr (len.1 + 1) out, add_u64 len.1 len.0))
    if sub == 0x02 then set_address else done (out, add_u64 len.1 len.0))
  if len.0 == 0 then done (out, len.1) else operation

-- `n` operands in LEB128.
unfoldable pub skip_operands : ℕ → List ℕ → ℕ → Outcome ℕ
unfolding read_at
skip_operands zero slice cursor = done cursor
skip_operands (suc n) slice cursor = do
  operand ← read_at read_uleb128 DwarfError.bad_operand slice cursor
  skip_operands n slice operand.1

-- One opcode, with the cursor behind it.
unfoldable pub step_opcode :
    GlobalSymbols → LineProgramHeader → List ℕ → (opcode cursor : ℕ) → Output → Outcome (Output × ℕ)
unfolding step_extended skip_operands
step_opcode s header slice opcode cursor out =
    let standard = (do
      n_operands ← or_panic (get_elem? header.standard_opcode_lengths (opcode - 1))
      next ← skip_operands n_operands slice cursor
      done (out, next)) in
    if opcode == 0
    then step_extended s header slice cursor out
    else if ltb opcode (length header.standard_opcode_lengths + 1)
    then standard
    else done (out, cursor)

unfoldable pub run_line :
    ℕ → GlobalSymbols → LineProgramHeader → List ℕ → ℕ → Output → Outcome Output
unfolding step_opcode
run_line zero s header slice cursor out = out_of_fuel
run_line (suc fuel) s header slice cursor out = elim (get_elem? slice cursor) [
  | none ↦ done out
  | some opcode ↦ do
    next ← step_opcode s header slice opcode (cursor + 1) out
    run_line fuel s header slice next.1 next.0
]

-- One round of the loop reads a byte at least.
unfoldable pub scan_debug_line : List ℕ → GlobalSymbols → Outcome Output
unfolding parse_line_program_header run_line
scan_debug_line slice s = do
  header ← parse_line_program_header slice
  run_line (length slice + 1) s header slice header.program_start empty_output
