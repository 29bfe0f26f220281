-- ===== src/Cu/Ranges/Tests.antt =====
-- crates/delink-core/src/cu.rs: the ranges of a unit on concrete sections.
use delink.Prelude.{
  false, none, take, drop, ◌-◌, ℕ, ◌≤◌, ◌≡◌, refl, some, true, List, [], ◌∷◌, ◌++◌, length, arith,
}
use delink.Dwarf.Outcome.{done}
use delink.Dwarf.Leb.{read_uleb128}
use delink.Dwarf.Abbrevs.{AbbrevMap, parse_abbrev_table}
use delink.Cu.Ranges.Table.{parse_abbrev_table-compute_debug_abbrev_range}
use delink.Cu.Ranges.{compute_debug_abbrev_range, compute_debug_line_range}
use delink.Cu.Ranges.Within.{Returns, compute_debug_abbrev_range-Returns}
use delink.Cu.Ranges.Line.{encode_program, compute_debug_line_range-encode_program}

-- Two bytes of another table, an abbreviation with one attribute, the zero, and what follows.
abbrev abbrevs : List ℕ
abbrevs = 9 ∷ 9 ∷ 1 ∷ 17 ∷ 0 ∷ 3 ∷ 8 ∷ 0 ∷ 0 ∷ 0 ∷ 7 ∷ []

one_table : compute_debug_abbrev_range 2 abbrevs ≡ done (record { start = 2; end = 10 })
unfolding compute_debug_abbrev_range read_uleb128
one_table = refl

compute_debug_abbrev_range-Returns_example :
    Returns
      (λ r. (r.start ≡ 2) × (2 ≤ r.end) × (r.end ≤ length abbrevs))
      (compute_debug_abbrev_range 2 abbrevs)
compute_debug_abbrev_range-Returns_example =
    compute_debug_abbrev_range-Returns 2 abbrevs (omega arith)

abbrev body : List ℕ
body = 4 ∷ 0 ∷ 1 ∷ []

compute_debug_line_range-encode_program_example :
    compute_debug_line_range 1 ((5 ∷ []) ++ (encode_program true body ++ (6 ∷ [])))
    ≡ some (record { start = 1; end = 16 })
unfolding encode_program
compute_debug_line_range-encode_program_example =
    compute_debug_line_range-encode_program true (5 ∷ []) body (6 ∷ []) (omega arith) (omega arith)

-- A length near 2 ^ 64 gives a range that ends before it starts.
inverted :
    compute_debug_line_range 1
      (0 ∷ 255 ∷ 255 ∷ 255 ∷ 255 ∷ 243 ∷ 255 ∷ 255 ∷ 255 ∷ 255 ∷ 255 ∷ 255 ∷ 255 ∷ [])
    ≡ some (record { start = 1; end = 0 })
unfolding compute_debug_line_range
inverted = refl

-- Bytes of another table before, and of a next one behind.
abbrev table : AbbrevMap
table =
    (
      1,
      record {
        tag = 17;
        has_children = false;
        attrs = record { attr = 3; form = 8; implicit_const = none } ∷ [];
      },
    )
    ∷ []

parsed : parse_abbrev_table (drop 2 abbrevs) ≡ done table
unfolding parse_abbrev_table read_uleb128
parsed = refl

parse_abbrev_table-compute_debug_abbrev_range_example :
    Returns
      (λ r. parse_abbrev_table (take (r.end - r.start) (drop r.start abbrevs)) ≡ done table)
      (compute_debug_abbrev_range 2 abbrevs)
parse_abbrev_table-compute_debug_abbrev_range_example =
    parse_abbrev_table-compute_debug_abbrev_range abbrevs 2 table (omega arith) parsed
