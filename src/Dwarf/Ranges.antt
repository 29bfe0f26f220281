-- ===== src/Dwarf/Ranges.antt =====
-- crates/delink-emit/src/dwarf_relocs.rs, `scan_debug_ranges` and `scan_debug_loc`.
pub mod Sound
use delink.Prelude.{
  ℕ, zero, suc, ◌+◌, ◌*◌, ◌-◌, ◌^◌, Bool, ◌&&◌, ◌||◌, Option, none, some, List, [], ◌∷◌, take, drop,
  length, ltb, leb, ◌==◌, if◌then◌else◌,
}
use delink.Prelude.Text.{Str}
use delink.Prelude.Int.{ℤ}
use delink.Prelude.Bytes.{from_le_bytes}
use delink.Symbols.{GlobalSymbols}
use delink.Dwarf.{
  Outcome, ◌>>=◌, or_panic, tail_from, DwarfReloc, DwarfRelocDiag, Output, empty_output, push,
  read_addr, resolve_addr, resolve_addr_including_end,
}
use delink.Dwarf.Outcome.{done, out_of_fuel}

-- The two section formats, which count their pairs apart.
pub data PairKind : Type 0 where
  range loc : PairKind

abbrev pub count_resolved : PairKind → Output → Output
count_resolved range out =
    let diag = out.diag in
    record out { diag = record diag { range_pairs_resolved = diag.range_pairs_resolved + 1 } }
count_resolved loc out =
    let diag = out.diag in
    record out { diag = record diag { loc_pairs_resolved = diag.loc_pairs_resolved + 1 } }

abbrev pub count_missing : PairKind → Output → Output
count_missing range out =
    let diag = out.diag in
    record out { diag = record diag { range_pairs_missing = diag.range_pairs_missing + 1 } }
count_missing loc out =
    let diag = out.diag in
    record out { diag = record diag { loc_pairs_missing = diag.loc_pairs_missing + 1 } }

-- The start of a pair, at `offset`.
unfoldable pub emit_start : PairKind → GlobalSymbols → (offset start : ℕ) → Output → Output
emit_start kind s offset start out = elim (resolve_addr s start) [
  | some (name, addend) ↦ count_resolved kind (push (DwarfReloc.abs64 offset name addend) out)
  | none ↦ count_missing kind out
]

-- The end of a pair, which is not counted where it resolves.
unfoldable pub emit_end : PairKind → GlobalSymbols → (offset end : ℕ) → Output → Output
emit_end kind s offset end out =
    if end == 0 then count_missing kind out else elim (resolve_addr_including_end s end) [
      | some (name, addend) ↦ push (DwarfReloc.abs64 offset name addend) out
      | none ↦ count_missing kind out
    ]

unfoldable pub emit_pair :
    PairKind → GlobalSymbols → (start_off end_off start end : ℕ) → Output → Output
unfolding emit_start emit_end
emit_pair kind s start_off end_off start end out =
    emit_end kind s end_off end (emit_start kind s start_off start out)

-- The first word of a base address selector.
abbrev pub top : ℕ → ℕ
top addr_size = if addr_size == 8 then 2 ^ 64 - 1 else 2 ^ 32 - 1

-- A terminator or a base address selector, which gets no relocation.
abbrev pub is_marker : (addr_size start end : ℕ) → Bool
is_marker addr_size start end = (start == 0 && end == 0) || start == top addr_size

-- `read_addr(&section[cursor..], addr_size)`
unfoldable pub addr_at : List ℕ → (addr_size cursor : ℕ) → Outcome ℕ
unfolding read_addr
addr_at section addr_size cursor = do
  bytes ← or_panic (tail_from cursor section)
  or_panic (read_addr bytes addr_size)

unfoldable pub ranges_from :
    ℕ → (addr_size : ℕ) → GlobalSymbols → List ℕ → ℕ → Output → Outcome Output
unfolding addr_at emit_pair
ranges_from zero addr_size s section cursor out = out_of_fuel
ranges_from (suc fuel) addr_size s section cursor out =
    let pair = addr_size * 2 in
    let round = (do
      start ← addr_at section addr_size cursor
      end ← addr_at section addr_size (cursor + addr_size)
      ranges_from fuel addr_size s section (cursor + pair) (
          if is_marker addr_size start end
          then out
          else emit_pair range s cursor (cursor + addr_size) start end out)) in
    if leb (cursor + pair) (length section) then round else done out

unfoldable pub scan_debug_ranges : List ℕ → ℕ → GlobalSymbols → Outcome Output
unfolding ranges_from
scan_debug_ranges section addr_size s =
    if addr_size == 0 || ltb (length section) (addr_size * 2)
    then done empty_output
    else ranges_from (length section + 1) addr_size s section 0 empty_output

-- The length of the expression behind a pair.
abbrev pub expression_length : List ℕ → ℕ → ℕ
expression_length section at = from_le_bytes (take 2 (drop at section))

unfoldable pub locs_from :
    ℕ → (addr_size : ℕ) → GlobalSymbols → List ℕ → ℕ → Output → Outcome Output
unfolding addr_at emit_pair from_le_bytes
locs_from zero addr_size s section cursor out = out_of_fuel
locs_from (suc fuel) addr_size s section cursor out =
    let pair = addr_size * 2 in
    let round = (do
      start ← addr_at section addr_size cursor
      end ← addr_at section addr_size (cursor + addr_size)
      let marker = locs_from fuel addr_size s section (cursor + pair) out
      let emitted = emit_pair loc s cursor (cursor + addr_size) start end out
      let behind = pair + 2 + expression_length section (cursor + pair)
      let entry = locs_from fuel addr_size s section (cursor + behind) emitted
      let last = if ltb (length section) (cursor + pair + 2) then done emitted else entry
      if is_marker addr_size start end then marker else last) in
    if leb (cursor + pair) (length section) then round else done out

unfoldable pub scan_debug_loc : List ℕ → ℕ → GlobalSymbols → Outcome Output
unfolding locs_from
scan_debug_loc section addr_size s =
    if addr_size == 0 || ltb (length section) (addr_size * 2)
    then done empty_output
    else locs_from (length section + 1) addr_size s section 0 empty_output
