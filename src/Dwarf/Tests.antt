-- ===== src/Dwarf/Tests.antt =====
-- A unit with one DIE, a line program with one address, and one pair of each list, scanned.
use delink.Prelude.{ℕ, ◌≡◌, ◌≢◌, refl, some, List, [], ◌∷◌, ◌++◌, ◌^◌, ◌-◌, length, arith, true}
use delink.Prelude.Text.{codes}
use delink.Prelude.Int.{pos, negsuc}
use delink.Prelude.Words.{as_i64}
use delink.Collections.BTreeMap
use delink.Symbols.Sample.{table, table_ordered}
use delink.Dwarf.{
  default_diag, Output, empty_output, resolve_addr, resolve_addr_including_end, read_word,
  sym_debug_str_start,
}
use delink.Dwarf.Outcome.{done, panicked, out_of_fuel}
use delink.Dwarf.DwarfReloc.{abs64, abs32}
use delink.Dwarf.Leb.{read_uleb128, read_sleb128}
use delink.Dwarf.Leb.RoundTrip.{encode_uleb128, read_uleb128-encode_uleb128}
use delink.Dwarf.Forms.Bounds.{has_short_numbers, has_short_numbers_lem}
use delink.Dwarf.Abbrevs.{parse_abbrev_table}
use delink.Dwarf.Abbrevs.Ends.{Answers, parse_abbrev_table-Answers}
use delink.Dwarf.Info.{CuHeader, scan_debug_info, parse_cu_header}
use delink.Dwarf.Restores.{AllRestore}
use delink.Dwarf.Info.Sound.{scan_debug_info-AllRestore}
use delink.Dwarf.Info.Ends.{scan_debug_info-ends}
use delink.Dwarf.Line.{LineProgramHeader, scan_debug_line, parse_line_program_header, run_line}
use delink.Dwarf.Line.Sound.{scan_debug_line-AllRestore}
use delink.Dwarf.Line.Ends.{scan_debug_line-ends}
use delink.Dwarf.Line.Loops.{run_line-loops}
use delink.Dwarf.Ranges.{scan_debug_ranges, scan_debug_loc}
use delink.Dwarf.Ranges.Sound.{Returns, scan_debug_ranges-Returns, scan_debug_loc-Returns}

read_uleb128-encode_uleb128_example :
    read_uleb128 (encode_uleb128 624485 ++ 7 ∷ []) ≡ some (624485, length (encode_uleb128 624485))
read_uleb128-encode_uleb128_example = read_uleb128-encode_uleb128 624485 (7 ∷ []) (omega arith)

largest : read_uleb128 (encode_uleb128 (2 ^ 64 - 1)) ≡ some (2 ^ 64 - 1, 10)
unfolding read_uleb128 encode_uleb128
largest = refl

minus_two : read_sleb128 (0x7e ∷ []) ≡ some (negsuc 1, 1)
unfolding read_sleb128
minus_two = refl

-- DW_AT_name as DW_FORM_strp and DW_AT_low_pc as DW_FORM_addr.
abbrev abbrev_slice : List ℕ
abbrev_slice = 0x01 ∷ 0x11 ∷ 0x00 ∷ 0x03 ∷ 0x0e ∷ 0x11 ∷ 0x01 ∷ 0x00 ∷ 0x00 ∷ 0x00 ∷ []

parse_abbrev_table-Answers_example : Answers (parse_abbrev_table abbrev_slice)
parse_abbrev_table-Answers_example = parse_abbrev_table-Answers abbrev_slice

-- A version 4 header, and a DIE of that abbreviation: the string at 0x20, the address 0x1010.
abbrev info_slice : List ℕ
info_slice =
    0x15 ∷ 0 ∷ 0 ∷ 0 ∷ 4 ∷ 0 ∷ 0 ∷ 0 ∷ 0 ∷ 0 ∷ 8 ∷ 0x01 ∷ 0x20 ∷ 0 ∷ 0 ∷ 0 ∷ 0x10 ∷ 0x10 ∷ 0 ∷ 0 ∷ 0
    ∷ 0 ∷ 0 ∷ 0 ∷ 0x00 ∷ []

abbrev info_output : Output
info_output = record {
  relocs = abs32 12 sym_debug_str_start (pos 0x20) ∷ abs64 16 (codes "main") (pos 16) ∷ [];
  diag = record default_diag { low_pc_resolved = 1; strp_emitted = 1; dies_walked = 1 };
}

info_scanned : scan_debug_info info_slice abbrev_slice table ≡ done info_output
unfolding scan_debug_info read_uleb128 read_word resolve_addr BTreeMap.get BTreeMap.floor
info_scanned = refl

scan_debug_info-AllRestore_example :
    (header : CuHeader) × (parse_cu_header info_slice ≡ some header)
    × AllRestore table info_slice header.addr_size header.offset_size info_output
scan_debug_info-AllRestore_example =
    scan_debug_info-AllRestore info_slice abbrev_slice table info_output
      table_ordered.functions_ordered (omega arith) info_scanned

info_is_short : has_short_numbers info_slice ≡ true
unfolding has_short_numbers
info_is_short = refl

scan_debug_info-ends_example : scan_debug_info info_slice abbrev_slice table ≢ out_of_fuel
scan_debug_info-ends_example =
    scan_debug_info-ends info_slice abbrev_slice table (omega arith) (omega arith)
      (has_short_numbers_lem info_slice info_is_short)

-- A version 3 header with three standard opcodes, and DW_LNE_set_address of 0x1010.
abbrev line_slice : List ℕ
line_slice =
    0x1b ∷ 0 ∷ 0 ∷ 0 ∷ 3 ∷ 0 ∷ 8 ∷ 0 ∷ 0 ∷ 0 ∷ 1 ∷ 1 ∷ 0xfb ∷ 14 ∷ 4 ∷ 0 ∷ 1 ∷ 1 ∷ 2 ∷ 0x85 ∷ 0x01
    ∷ 0 ∷ 9 ∷ 2 ∷ 0x10 ∷ 0x10 ∷ 0 ∷ 0 ∷ 0 ∷ 0 ∷ 0 ∷ 0 ∷ 0x20 ∷ []

abbrev line_output : Output
line_output = record {
  relocs = abs64 24 (codes "main") (pos 16) ∷ [];
  diag = record default_diag { set_address_resolved = 1 };
}

line_scanned : scan_debug_line line_slice table ≡ done line_output
unfolding scan_debug_line read_uleb128 read_word resolve_addr BTreeMap.get BTreeMap.floor as_i64
line_scanned = refl

scan_debug_line-AllRestore_example :
    (header : LineProgramHeader) × (parse_line_program_header line_slice ≡ done header)
    × AllRestore table line_slice header.address_size 0 line_output
scan_debug_line-AllRestore_example =
    scan_debug_line-AllRestore line_slice table line_output table_ordered.functions_ordered
      (omega arith) line_scanned

line_is_short : has_short_numbers line_slice ≡ true
unfolding has_short_numbers
line_is_short = refl

scan_debug_line-ends_example : scan_debug_line line_slice table ≢ out_of_fuel
scan_debug_line-ends_example =
    scan_debug_line-ends line_slice table (omega arith)
      (has_short_numbers_lem line_slice line_is_short)

-- A header of six bytes that promises more is an index out of bounds, not an error.
truncated_header :
    parse_line_program_header (4 ∷ 0 ∷ 0 ∷ 0 ∷ 4 ∷ 0 ∷ 0 ∷ 0 ∷ 0 ∷ 0 ∷ 1 ∷ 1 ∷ 1 ∷ 1 ∷ [])
    ≡ panicked
unfolding parse_line_program_header
truncated_header = refl

-- An extended opcode of length 2 ^ 64 - 11.
abbrev looping : List ℕ
looping = 0 ∷ 0xf5 ∷ 0xff ∷ 0xff ∷ 0xff ∷ 0xff ∷ 0xff ∷ 0xff ∷ 0xff ∷ 0xff ∷ 0x01 ∷ 1 ∷ []

abbrev line_header : LineProgramHeader
line_header = record { address_size = 8; standard_opcode_lengths = []; program_start = 0 }

looping_length :
    read_uleb128 (0xf5 ∷ 0xff ∷ 0xff ∷ 0xff ∷ 0xff ∷ 0xff ∷ 0xff ∷ 0xff ∷ 0xff ∷ 0x01 ∷ 1 ∷ [])
    ≡ some (2 ^ 64 - 11, 10)
unfolding read_uleb128
looping_length = refl

run_line-loops_example : run_line 1000 table line_header looping 0 empty_output ≡ out_of_fuel
run_line-loops_example =
    run_line-loops table line_header looping 0 (2 ^ 64 - 11) 10 1 refl looping_length refl
      (omega arith) (omega arith) refl 1000 empty_output

abbrev zeros : List ℕ
zeros = 0 ∷ 0 ∷ 0 ∷ 0 ∷ 0 ∷ 0 ∷ 0 ∷ 0 ∷ []

-- The start of main and its end, in eight bytes each.
abbrev wide_pair : List ℕ
wide_pair = 0 ∷ 0x10 ∷ 0 ∷ 0 ∷ 0 ∷ 0 ∷ 0 ∷ 0 ∷ 0x20 ∷ 0x10 ∷ 0 ∷ 0 ∷ 0 ∷ 0 ∷ 0 ∷ 0 ∷ []

abbrev ranges : List ℕ
ranges = wide_pair ++ (zeros ++ zeros)

ranges_scanned :
    scan_debug_ranges ranges 8 table
    ≡ done (record {
      relocs = abs64 0 (codes "main") (pos 0) ∷ abs64 8 (codes "main") (pos 32) ∷ [];
      diag = record default_diag { range_pairs_resolved = 1 };
    })
unfolding scan_debug_ranges read_word resolve_addr resolve_addr_including_end BTreeMap.get
    BTreeMap.floor as_i64
ranges_scanned = refl

scan_debug_ranges-Returns_example : Returns table ranges (scan_debug_ranges ranges 8 table)
scan_debug_ranges-Returns_example =
    scan_debug_ranges-Returns ranges table table_ordered.functions_ordered (omega arith)

abbrev locs : List ℕ
locs = wide_pair ++ (1 ∷ 0 ∷ 0x50 ∷ zeros ++ zeros)

locs_scanned :
    scan_debug_loc locs 8 table
    ≡ done (record {
      relocs = abs64 0 (codes "main") (pos 0) ∷ abs64 8 (codes "main") (pos 32) ∷ [];
      diag = record default_diag { loc_pairs_resolved = 1 };
    })
unfolding scan_debug_loc read_word resolve_addr resolve_addr_including_end BTreeMap.get
    BTreeMap.floor as_i64
locs_scanned = refl

scan_debug_loc-Returns_example : Returns table locs (scan_debug_loc locs 8 table)
scan_debug_loc-Returns_example =
    scan_debug_loc-Returns locs table table_ordered.functions_ordered (omega arith)
