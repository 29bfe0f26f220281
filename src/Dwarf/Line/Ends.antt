-- ===== src/Dwarf/Line/Ends.antt =====
-- crates/delink-emit/src/dwarf_relocs.rs: the loop of `scan_debug_line` ends unless a length wraps its
-- cursor.
use delink.Prelude.{
  ℕ, zero, suc, ◌+◌, ◌-◌, ◌^◌, ◌≤◌, ◌<◌, ◌≡◌, ◌≢◌, inl, inr, some, List, [], ◌∷◌, drop, length,
  get_elem?, ltb, ◌==◌, arith, Bool-cases, Option-cases, subst, subst,
}
use delink.Prelude.Words.{add_u64}
use delink.Symbols.{GlobalSymbols}
use delink.Dwarf.{DwarfError, or_fail, or_panic, tail_from, Output, empty_output, read_addr}
use delink.Dwarf.Outcome.{done, out_of_fuel}
use delink.Dwarf.Leb.{read_uleb128}
use delink.Dwarf.Leb.Bounds.{read_uleb128_bounds}
use delink.Dwarf.Forms.Bounds.{HasShortNumbers}
use delink.Dwarf.Abbrevs.{read_at}
use delink.Dwarf.Abbrevs.Ends.{bind-ends, bind_done, or_panic-ends, read_at-ends, read_at_bounds}
use delink.Dwarf.Info.Ends.{tail_from_lem, or_fail_done}
use delink.Dwarf.Line.{
  LineProgramHeader, step_extended, skip_operands, step_opcode, run_line, scan_debug_line,
}
use delink.Dwarf.Line.Header.{parse_line_program_header-ends}

pub get_elem?-lt {ℓ} :
    {A : Type ℓ} (xs : List A) (i : ℕ) (x : A) → get_elem? xs i ≡ some x → i < length xs
get_elem?-lt [] i x h = cc
get_elem?-lt (y ∷ xs) zero x h = omega arith
get_elem?-lt (y ∷ xs) (suc i) x h = omega (arith, get_elem?-lt xs i x h)

-- The number that a read returns stands in the slice.
read_at-uleb :
    (e : DwarfError) (slice : List ℕ) (cursor : ℕ) (p : ℕ × ℕ)
    → read_at read_uleb128 e slice cursor ≡ done p
    → (n : ℕ) × (read_uleb128 (drop cursor slice) ≡ some (p.0, n)) × (p.1 ≡ cursor + n)
unfolding read_at
read_at-uleb e slice cursor p h =
    let (bytes, first, h1) = bind_done (or_panic (tail_from cursor slice)) _ p h in
    let (within, same) = tail_from_lem cursor slice bytes first in
    let (found, second, h2) = bind_done (or_fail e (read_uleb128 bytes)) _ p h1 in
    let read = or_fail_done e (read_uleb128 bytes) found second in
    let result : ◌≡◌ {A = ℕ × ℕ} (found.0, cursor + found.1) p = cc in
    (
      found.1,
      subst (λ b. read_uleb128 b ≡ some (p.0, found.1)) same
          (subst (λ q. read_uleb128 bytes ≡ some (q.0, found.1)) result read),
      ground arith,
    )

module _ (s : GlobalSymbols) (header : LineProgramHeader) (slice : List ℕ) where
  skip_operands-ends : (n cursor : ℕ) → skip_operands n slice cursor ≢ out_of_fuel
  unfolding skip_operands
  skip_operands-ends zero cursor = λ h. cc
  skip_operands-ends (suc n) cursor =
      bind-ends _ _ (read_at-ends read_uleb128 _ slice cursor)
        λ operand _. skip_operands-ends n operand.1

  skip_operands-le : (n cursor next : ℕ) → skip_operands n slice cursor ≡ done next → cursor ≤ next
  unfolding skip_operands
  skip_operands-le zero cursor next h = ground arith
  skip_operands-le (suc n) cursor next h =
      let (operand, first, h1) =
        bind_done (read_at read_uleb128 DwarfError.bad_operand slice cursor) _ next h in
      omega (
        arith,
        read_at_bounds read_uleb128 _ read_uleb128_bounds slice cursor operand first,
        skip_operands-le n operand.1 next h1,
      )

  step_extended-ends :
      (cursor : ℕ) (out : Output) → step_extended s header slice cursor out ≢ out_of_fuel
  unfolding step_extended
  step_extended-ends cursor out = bind-ends _ _ (read_at-ends read_uleb128 _ slice cursor) λ len _.
      elim (Bool-cases (len.0 == 0)) [
        | inl empty ↦ rw empty (λ h. cc)
        | inr operation ↦ rw operation (
            bind-ends (or_panic (get_elem? slice len.1)) _ (or_panic-ends _) λ sub _.
              elim (Bool-cases (sub == 0x02)) [
                | inr other ↦ rw other (λ h. cc)
                | inl set_address ↦ rw set_address (
                    bind-ends (or_panic (tail_from (len.1 + 1) slice)) _ (or_panic-ends _)
                      λ bytes _.
                        bind-ends (or_panic (read_addr bytes header.address_size)) _
                          (or_panic-ends _) λ addr _. λ h. cc)
              ])
      ]

  step_opcode-ends :
      (opcode cursor : ℕ) (out : Output)
      → step_opcode s header slice opcode cursor out ≢ out_of_fuel
  unfolding step_opcode
  step_opcode-ends opcode cursor out = elim (Bool-cases (opcode == 0)) [
    | inl extended ↦ rw extended (step_extended-ends cursor out)
    | inr opcode' ↦ elim (Bool-cases (ltb opcode (length header.standard_opcode_lengths + 1))) [
      | inr special ↦ rw (opcode', special) (λ h. cc)
      | inl standard ↦
          rw (opcode', standard)
            (bind-ends (or_panic (get_elem? header.standard_opcode_lengths (opcode - 1))) _
              (or_panic-ends _)
              λ n _. bind-ends _ _ (skip_operands-ends n cursor) λ next _. λ h. cc)
    ]
  ]

  module _ (fits : length slice < 2 ^ 62) (short : HasShortNumbers slice) where
    step_extended-le :
        (cursor : ℕ) (out : Output) (p : Output × ℕ)
        → step_extended s header slice cursor out ≡ done p
        → cursor ≤ p.1
    unfolding step_extended
    step_extended-le cursor out p h =
        let (len, first, h1) =
          bind_done (read_at read_uleb128 DwarfError.bad_extended_length slice cursor) _ p h in
        let past = read_at_bounds read_uleb128 _ read_uleb128_bounds slice cursor len first in
        let (n, read, _) = read_at-uleb _ slice cursor len first in
        let small = short cursor len.0 n read in
        elim (Bool-cases (len.0 == 0)) [
          | inl empty ↦ let h' = rw empty at h1 in ground arith
          | inr operation ↦
              let (sub, second, h2) =
                bind_done (or_panic (get_elem? slice len.1)) _ p (rw operation at h1) in
              elim (Bool-cases (sub == 0x02)) [
                | inr other ↦ let h' = rw other at h2 in ground arith
                | inl set_address ↦
                    let (bytes, third, h3) =
                      bind_done (or_panic (tail_from (len.1 + 1) slice)) _ p
                        (rw set_address at h2) in
                    let (addr, fourth, h4) =
                      bind_done (or_panic (read_addr bytes header.address_size)) _ p h3 in
                    let end : ◌≡◌ {A = ℕ} (add_u64 len.1 len.0) p.1 = cc in omega arith
              ]
        ]

    step_opcode-le :
        (opcode cursor : ℕ) (out : Output) (p : Output × ℕ)
        → step_opcode s header slice opcode cursor out ≡ done p
        → cursor ≤ p.1
    unfolding step_opcode
    step_opcode-le opcode cursor out p h = elim (Bool-cases (opcode == 0)) [
      | inl extended ↦ step_extended-le cursor out p (rw extended at h)
      | inr opcode' ↦ elim (Bool-cases (ltb opcode (length header.standard_opcode_lengths + 1))) [
        | inr special ↦ let h' = rw (opcode', special) at h in ground arith
        | inl standard ↦
            let (n, first, h1) =
              bind_done (or_panic (get_elem? header.standard_opcode_lengths (opcode - 1))) _ p
                (rw (opcode', standard) at h) in
            let (next, second, h2) = bind_done (skip_operands n slice cursor) _ p h1 in
            ground (arith, skip_operands-le n cursor next second)
      ]
    ]

    run_line-ends :
        (fuel cursor : ℕ) (out : Output)
        → 0 < fuel
        → length slice < cursor + fuel
        → run_line fuel s header slice cursor out ≢ out_of_fuel
    unfolding run_line
    run_line-ends zero cursor out some_fuel enough = absurd (omega arith)
    run_line-ends (suc fuel) cursor out some_fuel enough =
        elim (Option-cases (get_elem? slice cursor)) [
          | inl end ↦ rw (end, run_line) (λ h. cc)
          | inr (opcode, there) ↦
              let room = get_elem?-lt slice cursor opcode there in
              rw (there, run_line)
                (bind-ends _ _ (step_opcode-ends opcode (cursor + 1) out) λ next first.
                  let le = step_opcode-le opcode (cursor + 1) out next first in
                  run_line-ends fuel next.1 next.0 (omega arith) (omega arith))
        ]

-- Unless the slice holds a LEB128 number so large that the cursor wraps, `scan_debug_line` ends
-- within one round for each byte and one more, whatever its bytes are.
pub scan_debug_line-ends :
    (slice : List ℕ) (s : GlobalSymbols)
    → length slice < 2 ^ 62
    → HasShortNumbers slice
    → scan_debug_line slice s ≢ out_of_fuel
unfolding scan_debug_line
scan_debug_line-ends slice s fits short =
    bind-ends _ _ (parse_line_program_header-ends slice) λ header _.
      run_line-ends s header slice fits short (length slice + 1) header.program_start empty_output
        (omega arith) (omega arith)
