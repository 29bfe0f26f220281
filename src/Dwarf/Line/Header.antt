-- ===== src/Dwarf/Line/Header.antt =====
-- crates/delink-emit/src/dwarf_relocs.rs: `parse_line_program_header` has no loop that could go on.
use delink.Prelude.{
  ℕ, take, ◌+◌, ◌-◌, ◌≢◌, inl, inr, List, drop, length, get_elem?, ltb, ◌==◌, Bool-cases, leb,
}
use delink.Prelude.Bytes.{from_le_bytes}
use delink.Dwarf.{or_panic}
use delink.Dwarf.Outcome.{out_of_fuel}
use delink.Dwarf.Abbrevs.Ends.{bind-ends, or_panic-ends}
use delink.Dwarf.Line.{
  parse_opcode_lengths, parse_line_fields, parse_line_length, parse_line_version,
  parse_line_program_header,
}

parse_opcode_lengths-ends :
    (address_size program_start at : ℕ) (slice : List ℕ)
    → parse_opcode_lengths address_size program_start at slice ≢ out_of_fuel
unfolding parse_opcode_lengths
parse_opcode_lengths-ends asize start at slice =
    bind-ends (or_panic (get_elem? slice at)) _ (or_panic-ends _) λ stmt _.
      bind-ends (or_panic (get_elem? slice (at + 1))) _ (or_panic-ends _) λ base _.
        bind-ends (or_panic (get_elem? slice (at + 2))) _ (or_panic-ends _) λ range _.
          bind-ends (or_panic (get_elem? slice (at + 3))) _ (or_panic-ends _) λ opcode_base _.
            elim (Bool-cases (ltb (length slice) (at + 4 + (opcode_base - 1)))) [
              | inl short ↦ rw short (λ h. cc)
              | inr room ↦ rw room (λ h. cc)
            ]

parse_line_fields-ends :
    (version address_size program_start cursor : ℕ) (slice : List ℕ)
    → parse_line_fields version address_size program_start cursor slice ≢ out_of_fuel
unfolding parse_line_fields
parse_line_fields-ends version asize start cursor slice =
    elim (Bool-cases (ltb (length slice) (cursor + 4))) [
      | inl short ↦ rw short (λ h. cc)
      | inr room ↦ rw room (
          bind-ends (or_panic (get_elem? slice cursor)) _ (or_panic-ends _) λ min _.
            elim (Bool-cases (leb 4 version)) [
              | inr old ↦ rw old (parse_opcode_lengths-ends asize start (cursor + 1) slice)
              | inl new ↦ rw new (
                  bind-ends (or_panic (get_elem? slice (cursor + 1))) _ (or_panic-ends _)
                    λ max _. parse_opcode_lengths-ends asize start (cursor + 2) slice)
            ])
    ]

parse_line_length-ends :
    (version address_size width cursor : ℕ) (slice : List ℕ)
    → parse_line_length version address_size width cursor slice ≢ out_of_fuel
unfolding parse_line_length
parse_line_length-ends version asize width cursor slice =
    elim (Bool-cases (ltb (length slice) (cursor + width))) [
      | inl short ↦ rw short (λ h. cc)
      | inr room ↦ rw room (parse_line_fields-ends version asize _ (cursor + width) slice)
    ]

parse_line_version-ends :
    (after_len width : ℕ) (slice : List ℕ) → parse_line_version after_len width slice ≢ out_of_fuel
unfolding parse_line_version
parse_line_version-ends al width slice =
    let version = from_le_bytes (take 2 (drop al slice)) in
    elim (Bool-cases (ltb (length slice) (al + 2))) [
      | inl short ↦ rw short (λ h. cc)
      | inr room ↦ elim (Bool-cases (leb 5 version)) [
        | inr old ↦ rw (room, old) (parse_line_length-ends version 8 width (al + 2) slice)
        | inl new ↦ elim (Bool-cases (ltb (length slice) (al + 2 + 2))) [
          | inl short ↦ rw (room, new, short) (λ h. cc)
          | inr more ↦
              rw (room, new, more)
                (bind-ends (or_panic (get_elem? slice (al + 2))) _ (or_panic-ends _)
                  λ asize _. parse_line_length-ends version asize width (al + 2 + 2) slice)
        ]
      ]
    ]

pub parse_line_program_header-ends :
    (slice : List ℕ) → parse_line_program_header slice ≢ out_of_fuel
unfolding parse_line_program_header
parse_line_program_header-ends slice = elim (Bool-cases (ltb (length slice) 4)) [
  | inl short ↦ rw short (λ h. cc)
  | inr room ↦ elim (Bool-cases (from_le_bytes (take 4 slice) == 0xffff_ffff)) [
    | inl wide ↦ rw (room, wide) (parse_line_version-ends 12 8 slice)
    | inr narrow ↦ rw (room, narrow) (parse_line_version-ends 4 4 slice)
  ]
]
