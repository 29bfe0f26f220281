-- ===== src/Dwarf/Info/Ends.antt =====
-- crates/delink-emit/src/dwarf_relocs.rs: the loop of `scan_debug_info` ends.
use delink.Prelude.{
  ℕ, zero, suc, ◌+◌, ◌^◌, ◌≤◌, ◌<◌, ◌≡◌, ◌≢◌, inl, inr, Option, none, some, List, [], ◌∷◌, drop,
  length, get_elem?, ltb, leb, ◌==◌, arith, All, Bool-cases, Option-cases, subst,
}
use delink.Prelude.Eq.{nat_eq}
use delink.Prelude.Words.{IsByte, add_u64}
use delink.Collections.HashMap
use delink.Symbols.{GlobalSymbols}
use delink.Dwarf.{
  DwarfError, or_fail, or_panic, tail_from, Output, empty_output, read_addr, read_offset,
}
use delink.Dwarf.Outcome.{done, out_of_fuel}
use delink.Dwarf.Leb.{read_uleb128}
use delink.Dwarf.Leb.Bounds.{read_uleb128_bounds}
use delink.Dwarf.Forms.{form_size}
use delink.Dwarf.Forms.Bounds.{HasShortNumbers, form_size-le}
use delink.Dwarf.Abbrevs.{AbbrevAttr, AbbrevMap, parse_abbrev_table}
use delink.Dwarf.Abbrevs.Ends.{
  bind-ends, bind_done, or_fail-ends, or_panic-ends, read_at-ends, read_at_bounds, Answers-ends,
  parse_abbrev_table-Answers,
}
use delink.Dwarf.Info.{
  CuHeader, parse_cu_fields, sized_header, parse_cu_header, emit_attr, scan_attrs, count_die,
  scan_dies, scan_debug_info,
}

get_elem?-All {ℓ κ} :
    {A : Type ℓ} (P : A → Type κ) (xs : List A) (i : ℕ)
    → All P xs
    → (x : A) → get_elem? xs i ≡ some x
    → P x
get_elem?-All P [] i h x e = cc
get_elem?-All P (y ∷ xs) zero h x e = let same : y ≡ x = cc in subst P (same) h.0
get_elem?-All P (y ∷ xs) (suc i) h x e = get_elem?-All P xs i h.1 x e

-- The sizes that a header gives are a byte and a width of offsets.
pub record IsHeader (header : CuHeader) : Type 0 where
  pub addr_bound : header.addr_size < 256
  pub offset_bound : header.offset_size ≤ 8

sized_header-IsHeader :
    (header_size offset_size i : ℕ) (slice : List ℕ) (header : CuHeader)
    → All IsByte slice
    → offset_size ≤ 8
    → sized_header header_size offset_size i slice ≡ some header
    → IsHeader header
unfolding sized_header
sized_header-IsHeader hs os i slice header all le h = elim (Option-cases (get_elem? slice i)) [
  | inl none' ↦ let h' = rw (none', sized_header) at h in cc
  | inr (b, found) ↦
      let h' = rw (found, sized_header) at h in
      let byte = get_elem?-All IsByte slice i all b found in ground arith
]

parse_cu_fields-IsHeader :
    (after_len offset_size : ℕ) (slice : List ℕ) (header : CuHeader)
    → All IsByte slice
    → offset_size ≤ 8
    → parse_cu_fields after_len offset_size slice ≡ some header
    → IsHeader header
unfolding parse_cu_fields
parse_cu_fields-IsHeader al os slice header all le h = ground (
  arith,
  sized_header-IsHeader (al + 2 + 2 + os) os (al + 2 + 1) slice header all le,
  sized_header-IsHeader (al + 2 + os + 1) os (al + 2 + os) slice header all le,
)

parse_cu_header-IsHeader :
    (slice : List ℕ) (header : CuHeader)
    → All IsByte slice
    → parse_cu_header slice ≡ some header
    → IsHeader header
unfolding parse_cu_header
parse_cu_header-IsHeader slice header all h = ground (
  arith,
  parse_cu_fields-IsHeader 12 8 slice header all,
  parse_cu_fields-IsHeader 4 4 slice header all,
)

emit_attr-ends :
    (s : GlobalSymbols) (header : CuHeader) (a : AbbrevAttr) (bytes : List ℕ) (cursor : ℕ)
    (out : Output)
    → emit_attr s header a bytes cursor out ≢ out_of_fuel
unfolding emit_attr
emit_attr-ends s header a bytes cursor out = elim (Bool-cases (a.form == 0x01)) [
  | inl addr ↦
      rw addr
        (bind-ends (or_panic (read_addr bytes header.addr_size)) _ (or_panic-ends _) λ x _. λ h. cc)
  | inr other ↦ elim (Bool-cases (a.form == 0x0e)) [
    | inl strp ↦
        rw (other, strp)
          (bind-ends (or_panic (read_offset bytes header.offset_size)) _ (or_panic-ends _)
            λ x _. λ h. cc)
    | inr rest ↦ rw (other, rest) (λ h. cc)
  ]
]

scan_attrs-ends :
    (s : GlobalSymbols) (header : CuHeader) (slice : List ℕ) (attrs : List AbbrevAttr) (cursor : ℕ)
    (out : Output)
    → scan_attrs s header slice attrs cursor out ≢ out_of_fuel
unfolding scan_attrs
scan_attrs-ends s header slice [] cursor out = λ h. cc
scan_attrs-ends s header slice (a ∷ attrs) cursor out =
    bind-ends (or_panic (tail_from cursor slice)) _ (or_panic-ends _) λ bytes _.
      let sized = form_size a.form header.addr_size header.offset_size bytes in
      bind-ends (or_fail DwarfError.unknown_form sized) _ (or_fail-ends _ sized) λ size _.
        bind-ends _ _ (emit_attr-ends s header a bytes cursor out)
          λ out' _. scan_attrs-ends s header slice attrs (add_u64 cursor size) out'

pub tail_from_lem :
    (cursor : ℕ) (slice bytes : List ℕ)
    → or_panic (tail_from cursor slice) ≡ done bytes
    → (cursor ≤ length slice) × (bytes ≡ drop cursor slice)
tail_from_lem cursor slice bytes h = elim (Bool-cases (leb cursor (length slice))) [
  | inl within ↦ let h' = rw within at h in ground arith
  | inr beyond ↦ let h' = rw beyond at h in cc
]

pub or_panic_done {ℓ} : {A : Type ℓ} (o : Option A) (a : A) → or_panic o ≡ done a → o ≡ some a
or_panic_done none a h = cc
or_panic_done (some b) a h = cc

pub or_fail_done {ℓ} :
    {A : Type ℓ} (e : DwarfError) (o : Option A) (a : A) → or_fail e o ≡ done a → o ≡ some a
or_fail_done e none a h = cc
or_fail_done e (some b) a h = cc

module _ (s : GlobalSymbols) (header : CuHeader) (is_header : IsHeader header) (slice : List ℕ)
    (all : All IsByte slice) (short : HasShortNumbers slice) (fits : length slice < 2 ^ 62) where
  scan_attrs-le :
      (attrs : List AbbrevAttr) (cursor : ℕ) (out : Output) (p : Output × ℕ)
      → scan_attrs s header slice attrs cursor out ≡ done p
      → cursor ≤ p.1
  unfolding scan_attrs
  scan_attrs-le [] cursor out p h = ground arith
  scan_attrs-le (a ∷ attrs) cursor out p h =
      let (bytes, first, h1) = bind_done (or_panic (tail_from cursor slice)) _ p h in
      let (within, same) = tail_from_lem cursor slice bytes first in
      let (size, second, h2) =
        bind_done
          (or_fail DwarfError.unknown_form
            (form_size a.form header.addr_size header.offset_size bytes))
          _ p h1 in
      let (out', third, h3) = bind_done (emit_attr s header a bytes cursor out) _ p h2 in
      let sized = or_fail_done _ _ size second in
      let le =
        form_size-le slice all short a.form header.addr_size header.offset_size cursor size
          is_header.addr_bound is_header.offset_bound fits within
          (subst (λ b. form_size a.form header.addr_size header.offset_size b ≡ some size) same
            sized) in
      let rest = scan_attrs-le attrs (add_u64 cursor size) out' p h3 in omega arith

  scan_dies-ends :
      (fuel : ℕ) (abbrevs : AbbrevMap) (cursor : ℕ) (out : Output)
      → 0 < fuel
      → length slice < cursor + fuel
      → scan_dies fuel s header abbrevs slice cursor out ≢ out_of_fuel
  unfolding scan_dies
  scan_dies-ends zero abbrevs cursor out some_fuel enough = absurd (omega arith)
  scan_dies-ends (suc fuel) abbrevs cursor out some_fuel enough =
      elim (Bool-cases (ltb cursor (length slice))) [
        | inr end ↦ rw end (λ h. cc)
        | inl there ↦ rw there (
            bind-ends _ _ (read_at-ends read_uleb128 _ slice cursor) λ code first.
              let past =
                read_at_bounds read_uleb128 _ read_uleb128_bounds slice cursor code first in
              elim (Bool-cases (code.0 == 0)) [
                | inl null ↦
                    rw null (scan_dies-ends fuel abbrevs code.1 out (omega arith) (omega arith))
                | inr die ↦ rw die (
                    bind-ends (or_fail DwarfError.unknown_code (HashMap.get code.0 abbrevs)) _
                      (or_fail-ends _ _)
                      λ entry _.
                        bind-ends _ _
                          (scan_attrs-ends s header slice entry.attrs code.1 (count_die out))
                          λ next third.
                            let behind =
                              scan_attrs-le entry.attrs code.1 (count_die out) next third in
                            scan_dies-ends fuel abbrevs next.1 next.0 (omega arith) (omega arith))
              ])
      ]

-- Unless the slice holds a LEB128 number so large that the cursor wraps, `scan_debug_info` ends
-- within one round for each byte and one more, whatever its bytes and its abbreviations are.
pub scan_debug_info-ends :
    (slice abbrev_slice : List ℕ) (s : GlobalSymbols)
    → All IsByte slice
    → length slice < 2 ^ 62
    → HasShortNumbers slice
    → scan_debug_info slice abbrev_slice s ≢ out_of_fuel
unfolding scan_debug_info
scan_debug_info-ends slice abbrev_slice s all fits short =
    bind-ends (or_fail DwarfError.bad_cu_header (parse_cu_header slice)) _ (or_fail-ends _ _)
      λ header first.
        let is_header = parse_cu_header-IsHeader slice header all (or_fail_done _ _ header first) in
        bind-ends _ _
          (Answers-ends (parse_abbrev_table abbrev_slice) (parse_abbrev_table-Answers abbrev_slice))
          λ abbrevs _.
            scan_dies-ends s header is_header slice all short fits (length slice + 1) abbrevs
              header.header_size empty_output (omega arith) (omega arith)
