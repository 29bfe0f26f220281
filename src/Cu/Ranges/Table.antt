-- ===== src/Cu/Ranges/Table.antt =====
-- crates/delink-core/src/cu.rs and crates/delink-emit/src/dwarf_relocs.rs: the range of .debug_abbrev that is
-- cut out for a unit is all that `parse_abbrev_table` needs.
use delink.Prelude.{
  ℕ, zero, suc, ◌+◌, ◌-◌, ◌≤◌, ◌<◌, ◌≡◌, refl, ap, ◌∙◌, subst, inl, inr, true, false, Option, none,
  some, List, [], ◌∷◌, length, take, drop, get_elem?, not, length-drop, ltb, leb, ◌==◌,
  if◌then◌else◌, arith, Bool-cases,
}
use delink.Prelude.Eq.{nat_eq}
use delink.Collections.HashMap
use delink.Dwarf.{Outcome, DwarfError, ◌>>=◌, or_fail}
use delink.Dwarf.Outcome.{done}
use delink.Dwarf.Leb.{read_uleb128}
use delink.Dwarf.Leb.Bounds.{read_uleb128_bounds}
use delink.Dwarf.Abbrevs.{
  AbbrevAttr, AbbrevMap, read_at, parse_attrs, children_flag, parse_abbrevs, parse_abbrev_table,
}
use delink.Dwarf.Abbrevs.Ends.{bind_done, read_at_bounds}
use delink.Cu.Ranges.{read_or, skip_attrs, skip_abbrevs, compute_debug_abbrev_range}
use delink.Cu.Ranges.Within.{Returns}
use delink.Cu.Ranges.Local.{length-take_le, done-inj, positive, uleb_take}
use delink.Cu.Ranges.Attrs.{uleb_step, AttrsAt, parse_attrs-AttrsAt}

get_elem?-take : (i e : ℕ) (xs : List ℕ) → i < e → get_elem? (take e xs) i ≡ get_elem? xs i
get_elem?-take i zero xs h = absurd (omega arith)
get_elem?-take i (suc e) [] h = refl
get_elem?-take zero (suc e) (x ∷ xs) h = refl
get_elem?-take (suc i) (suc e) (x ∷ xs) h = get_elem?-take i e xs (omega arith)

get_elem?-some : (i : ℕ) (xs : List ℕ) (x : ℕ) → get_elem? xs i ≡ some x → i < length xs
get_elem?-some i [] x h = cc
get_elem?-some zero (y ∷ xs) x h = omega arith
get_elem?-some (suc i) (y ∷ xs) x h = omega (arith, get_elem?-some i xs x h)

or_fail-inv : (error : DwarfError) (o : Option ℕ) (x : ℕ) → or_fail error o ≡ done x → o ≡ some x
or_fail-inv error none x h = cc
or_fail-inv error (some y) x h = cc

module _ (section : List ℕ) (start : ℕ) (inside : start ≤ length section) where
  -- What the abbreviations that are parsed from a place on say of the range that the scan cuts out.
  abbrev TableAt : ℕ → AbbrevMap → AbbrevMap → Type 0
  TableAt c m out =
      (e : ℕ) × (c ≤ e)
      × (e ≤ length (drop start section))
      × ((fuel : ℕ)
          → e < c + fuel
          → parse_abbrevs fuel (take e (drop start section)) c m ≡ done out)
      × ((fuel : ℕ)
          → length (drop start section) < c + fuel
          → skip_abbrevs fuel section (start + c) ≡ done (start + e))

  -- The end of the section.
  table_end :
      (c : ℕ) (m : AbbrevMap)
      → c ≤ length (drop start section)
      → ltb c (length (drop start section)) ≡ false
      → TableAt c m m
  unfolding parse_abbrevs skip_abbrevs
  table_end c m within end =
      let bytes = drop start section in
      let size = length-drop start section in
      let at_end : c ≡ length bytes = ground arith in
      let full = length-take_le c bytes within in
      (
        c,
        omega arith,
        within,
        λ fuel enough.
            let (k, more) = positive fuel (omega arith) in
            let stop : ltb c (length (take c bytes)) ≡ false = ground (arith, full) in
            rw (more, parse_abbrevs, stop) refl,
        λ fuel enough.
            let (k, more) = positive fuel (omega arith) in
            let stop : leb (length section) (start + c) ≡ true = ground arith in
            rw (more, skip_abbrevs, stop) refl,
      )

  -- What the scan does behind a code.
  abbrev after_tag : ℕ → ℕ → ℕ → Outcome ℕ
  after_tag k tag flag =
      if leb (length section) flag
      then done flag
      else (skip_attrs k section (flag + 1) >>= λ pairs.
          if pairs.0 then skip_abbrevs k section pairs.1 else done pairs.1)

  abbrev after_code : ℕ → ℕ → ℕ → Outcome ℕ
  after_code k code behind =
      if code == 0 then done behind else read_or read_uleb128 section behind behind (after_tag k)

  -- A code that is read is the start of a round of the scan.
  code_step :
      (k c : ℕ) (code : ℕ × ℕ)
      → ltb c (length (drop start section)) ≡ true
      → read_at read_uleb128 DwarfError.bad_abbrev_code (drop start section) c ≡ done code
      → skip_abbrevs (suc k) section (start + c) ≡ after_code k code.0 (start + code.1)
  unfolding skip_abbrevs
  code_step k c code more at_code =
      let size = length-drop start section in
      let goes : leb (length section) (start + c) ≡ false = ground arith in
      rw goes (
        uleb_step section start inside DwarfError.bad_abbrev_code c code (start + c) (after_code k)
          at_code)

  -- The code zero.
  table_zero :
      (c : ℕ) (m : AbbrevMap) (code : ℕ × ℕ)
      → ltb c (length (drop start section)) ≡ true
      → read_at read_uleb128 DwarfError.bad_abbrev_code (drop start section) c ≡ done code
      → (code.0 == 0) ≡ true
      → TableAt c m m
  unfolding parse_abbrevs
  table_zero c m code more at_code last =
      let bytes = drop start section in
      let size = length-drop start section in
      let (a, a_le) = read_at_bounds read_uleb128 _ read_uleb128_bounds bytes c code at_code in
      let full = length-take_le code.1 bytes a_le in
      (
        code.1,
        omega arith,
        a_le,
        λ fuel enough.
            let (k, next) = positive fuel (omega arith) in
            let goes : ltb c (length (take code.1 bytes)) ≡ true = ground (arith, full) in
            rw
              (
                next,
                parse_abbrevs,
                goes,
                uleb_take DwarfError.bad_abbrev_code bytes c code.1 code at_code (omega arith) a_le,
                last,
              )
              refl,
        λ fuel enough.
            let (k, next) = positive fuel (omega arith) in
            ap (λ (n : ℕ). skip_abbrevs n section (start + c)) next
            ∙ code_step k c code more at_code
            ∙ rw last refl,
      )

  -- An abbreviation, and what follows it.
  table_more :
      (c : ℕ) (m out : AbbrevMap) (code tag : ℕ × ℕ) (flag : ℕ) (attrs : List AbbrevAttr × ℕ)
      → ltb c (length (drop start section)) ≡ true
      → read_at read_uleb128 DwarfError.bad_abbrev_code (drop start section) c ≡ done code
      → (code.0 == 0) ≡ false
      → read_at read_uleb128 DwarfError.bad_abbrev_tag (drop start section) code.1 ≡ done tag
      → get_elem? (drop start section) tag.1 ≡ some flag
      → AttrsAt section start inside (tag.1 + 1) attrs
      → TableAt attrs.1
          (HashMap.insert code.0
            (record { tag = tag.0; has_children = not (flag == 0); attrs = attrs.0 })
            m)
          out
      → TableAt c m out
  unfolding parse_abbrevs
  table_more c m out code tag flag attrs more at_code other at_tag at_flag
        (above, r_le, attrs_parsed, attrs_skipped) (e, low, e_le, parsed, skipped) =
      let bytes = drop start section in
      let size = length-drop start section in
      let (a, a_le) = read_at_bounds read_uleb128 _ read_uleb128_bounds bytes c code at_code in
      let (t, t_le) = read_at_bounds read_uleb128 _ read_uleb128_bounds bytes code.1 tag at_tag in
      let full = length-take_le e bytes e_le in
      let there = get_elem?-some tag.1 bytes flag at_flag in
      (
        e,
        omega arith,
        e_le,
        λ fuel enough.
            let (k, next) = positive fuel (omega arith) in
            let goes : ltb c (length (take e bytes)) ≡ true = ground (arith, full) in
            rw
              (
                next,
                parse_abbrevs,
                goes,
                uleb_take DwarfError.bad_abbrev_code bytes c e code at_code (omega arith) e_le,
                other,
                uleb_take DwarfError.bad_abbrev_tag bytes code.1 e tag at_tag (omega arith) e_le,
                get_elem?-take tag.1 e bytes (omega arith),
                at_flag,
                attrs_parsed e k low e_le (omega arith),
              )
              (parsed k (omega arith)),
        λ fuel enough.
            let (k, next) = positive fuel (omega arith) in
            let inner : leb (length section) (start + tag.1) ≡ false = ground arith in
            let moved : start + tag.1 + 1 ≡ start + (tag.1 + 1) = omega arith in
            let at_tag' : after_code k code.0 (start + code.1) ≡ after_tag k tag.0 (start + tag.1) =
              rw other (
                uleb_step section start inside DwarfError.bad_abbrev_tag code.1 tag (start + code.1)
                  (after_tag k) at_tag) in
            let at_end : after_tag k tag.0 (start + tag.1) ≡ done (start + e) =
              rw (inner, moved, attrs_skipped k (omega arith)) (skipped k (omega arith)) in
            ap (λ (n : ℕ). skip_abbrevs n section (start + c)) next
            ∙ code_step k c code more at_code
            ∙ at_tag'
            ∙ at_end,
      )

  parse_abbrevs-TableAt :
      (fuel c : ℕ) (m out : AbbrevMap)
      → c ≤ length (drop start section)
      → parse_abbrevs fuel (drop start section) c m ≡ done out
      → TableAt c m out
  unfolding parse_abbrevs
  parse_abbrevs-TableAt zero c m out within h = cc
  parse_abbrevs-TableAt (suc fuel) c m out within h =
      let bytes = drop start section in
      elim (Bool-cases (ltb c (length bytes))) [
        | inr end ↦ subst (TableAt c m) (done-inj (rw end at h)) (table_end c m within end)
        | inl more ↦
            let (code, at_code, h1) =
              bind_done (read_at read_uleb128 DwarfError.bad_abbrev_code bytes c) _ out
                (rw more at h) in
            elim (Bool-cases (code.0 == 0)) [
              | inl last ↦
                  subst (TableAt c m) (done-inj (rw last at h1))
                    (table_zero c m code more at_code last)
              | inr other ↦
                  let (tag, at_tag, h2) =
                    bind_done (read_at read_uleb128 DwarfError.bad_abbrev_tag bytes code.1) _ out
                      (rw other at h1) in
                  let (flag, at_flag, h3) = bind_done (children_flag bytes tag.1) _ out h2 in
                  let (attrs, at_attrs, h4) =
                    bind_done (parse_attrs fuel bytes (tag.1 + 1)) _ out h3 in
                  let found =
                    parse_attrs-AttrsAt section start inside fuel (tag.1 + 1) attrs at_attrs in
                  table_more c m out code tag flag attrs more at_code other at_tag
                    (or_fail-inv _ (get_elem? bytes tag.1) flag at_flag) found
                    (parse_abbrevs-TableAt fuel attrs.1 _ out found.1 h4)
            ]
      ]

-- Where parse_abbrev_table reads a table from the start of a unit on to the end of .debug_abbrev,
-- it reads the same table from the range that is cut out for the unit.
pub parse_abbrev_table-compute_debug_abbrev_range :
    (section : List ℕ) (start : ℕ) (m : AbbrevMap)
    → start ≤ length section
    → parse_abbrev_table (drop start section) ≡ done m
    → Returns
        (λ r. parse_abbrev_table (take (r.end - r.start) (drop r.start section)) ≡ done m)
        (compute_debug_abbrev_range start section)
unfolding parse_abbrev_table compute_debug_abbrev_range
parse_abbrev_table-compute_debug_abbrev_range section start m inside h =
    let size = length-drop start section in
    let (e, low, e_le, parsed, skipped) =
      parse_abbrevs-TableAt section start inside (length (drop start section) + 1) 0 [] m
        (omega arith) h in
    let bytes = drop start section in
    let full = length-take_le e bytes e_le in
    let cut : parse_abbrev_table (take e bytes) ≡ done m =
      parsed (length (take e bytes) + 1) (omega (arith, full)) in
    let there : skip_abbrevs (length section + 1) section start ≡ done (start + e) =
      ap (skip_abbrevs (length section + 1) section) (omega arith)
      ∙ skipped (length section + 1) (omega arith) in
    let width : start + e - start ≡ e = omega arith in
    elim (Bool-cases (leb (length section) start)) [
      | inl empty ↦ let none_left : start - start ≡ e = ground arith in rw (empty, none_left) cut
      | inr more ↦ rw (more, there, width) cut
    ]
