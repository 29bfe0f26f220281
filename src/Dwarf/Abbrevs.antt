-- ===== src/Dwarf/Abbrevs.antt =====
-- crates/delink-emit/src/dwarf_relocs.rs, `parse_abbrev_table`: the abbreviations of a unit.
--
-- The table is read at a cursor. `none` as a byte is an index beyond the end; every read before it
-- has found its bytes, so the cursor never passes the end. A round of either loop reads a byte at
-- least, and the fuel counts the rounds.
pub mod Ends
use delink.Prelude.{
  ℕ, zero, suc, ◌+◌, Bool, ◌&&◌, not, Option, none, some, List, [], ◌∷◌, get_elem?, drop, length,
  ltb, ◌==◌, if◌then◌else◌,
}
use delink.Prelude.Eq.{nat_eq}
use delink.Prelude.Int.{ℤ}
use delink.Collections.HashMap
use delink.Collections.HashMap.{HashMap}
use delink.Dwarf.{Outcome, DwarfError, ◌>>=◌, or_fail, or_panic, tail_from}
use delink.Dwarf.Outcome.{done, failed, out_of_fuel}
use delink.Dwarf.Leb.{read_uleb128, read_sleb128}

pub record AbbrevAttr : Type 0 where
  pub attr : ℕ
  pub form : ℕ
  pub implicit_const : Option ℤ

pub record Abbrev : Type 0 where
  pub tag : ℕ
  pub has_children : Bool
  pub attrs : List AbbrevAttr

abbrev pub AbbrevMap : Type 0
AbbrevMap = HashMap ℕ Abbrev

-- `read(&bytes[cursor..])` with an error for `None`, and the cursor behind what was read.
unfoldable pub read_at {ℓ} :
    {A : Type ℓ} → (List ℕ → Option (A × ℕ)) → DwarfError → List ℕ → ℕ → Outcome (A × ℕ)
read_at read error bytes cursor = do
  rest ← or_panic (tail_from cursor bytes)
  found ← or_fail error (read rest)
  done (found.0, cursor + found.1)

-- The constant that `DW_FORM_implicit_const` carries in the table.
unfoldable pub read_implicit_const : ℕ → List ℕ → ℕ → Outcome (Option ℤ × ℕ)
unfolding read_at
read_implicit_const form bytes cursor =
    if form == 0x21
    then (do
      v ← read_at read_sleb128 DwarfError.bad_implicit_const bytes cursor
      done (some v.0, v.1))
    else done (none, cursor)

-- The attributes up to the pair of zeros.
unfoldable pub parse_attrs : ℕ → List ℕ → ℕ → Outcome (List AbbrevAttr × ℕ)
unfolding read_at read_implicit_const
parse_attrs zero bytes cursor = out_of_fuel
parse_attrs (suc fuel) bytes cursor = do
  attr ← read_at read_uleb128 DwarfError.bad_abbrev_attr bytes cursor
  form ← read_at read_uleb128 DwarfError.bad_abbrev_form bytes attr.1
  let more = (do
    value ← read_implicit_const form.0 bytes form.1
    rest ← parse_attrs fuel bytes value.1
    done (record { attr = attr.0; form = form.0; implicit_const = value.0 } ∷ rest.0, rest.1))
  if attr.0 == 0 && form.0 == 0 then done ([], form.1) else more

-- `bytes[cursor]` under the check that it is there.
abbrev pub children_flag : List ℕ → ℕ → Outcome ℕ
children_flag bytes cursor = or_fail DwarfError.no_children_flag (get_elem? bytes cursor)

unfoldable pub parse_abbrevs : ℕ → List ℕ → ℕ → AbbrevMap → Outcome AbbrevMap
unfolding read_at parse_attrs HashMap.insert
parse_abbrevs zero bytes cursor m = out_of_fuel
parse_abbrevs (suc fuel) bytes cursor m =
    let round = (do
      code ← read_at read_uleb128 DwarfError.bad_abbrev_code bytes cursor
      let more = (do
        tag ← read_at read_uleb128 DwarfError.bad_abbrev_tag bytes code.1
        flag ← children_flag bytes tag.1
        attrs ← parse_attrs fuel bytes (tag.1 + 1)
        parse_abbrevs fuel bytes attrs.1 (
            HashMap.insert code.0
              (record { tag = tag.0; has_children = not (flag == 0); attrs = attrs.0 }) m))
      if code.0 == 0 then done m else more) in
    if ltb cursor (length bytes) then round else done m

unfoldable pub parse_abbrev_table : List ℕ → Outcome AbbrevMap
unfolding parse_abbrevs
parse_abbrev_table bytes = parse_abbrevs (length bytes + 1) bytes 0 []
