-- ===== src/Cu/Ranges.antt =====
-- crates/delink-core/src/cu.rs, `compute_debug_abbrev_range` and `compute_debug_line_range`: the bytes of
-- a unit in .debug_abbrev and in .debug_line.
--
-- The LEB128 readers of cu.rs are those of Dwarf/Leb. The loops over the abbreviations read a byte
-- at least in a round, and the fuel counts the rounds; an index that panics is an outcome.
pub mod Within
pub mod Line
pub mod Local
pub mod Attrs
pub mod Table
mod Tests
use delink.Prelude.{
  ℕ, zero, suc, ◌+◌, Bool, true, false, ◌&&◌, Option, none, some, List, length, drop, take, Range,
  ltb, leb, ◌==◌, if◌then◌else◌,
}
use delink.Prelude.Bytes.{slice, from_le_bytes}
use delink.Prelude.Words.{add_u64}
use delink.Dwarf.{Outcome, ◌>>=◌, or_panic, tail_from}
use delink.Dwarf.Outcome.{done, out_of_fuel}
use delink.Dwarf.Leb.{read_uleb128, read_sleb128}

-- `match read(&section[cursor..])`: the number with the cursor behind it goes on, and where there is
-- no number the scan stops with what it has.
unfoldable pub read_or {ℓ κ} :
    {A : Type ℓ} {B : Type κ}
    → (List ℕ → Option (A × ℕ))
    → (section : List ℕ) (cursor : ℕ) → B
    → (A → ℕ → Outcome B)
    → Outcome B
read_or read section cursor stop go = do
  rest ← or_panic (tail_from cursor section)
  elim (read rest) [ none ↦ done stop | some (v, n) ↦ go v (cursor + n) ]

-- The constant of a form that has one. The flag says whether to go on: `false` is
-- `return start..cursor`.
unfoldable pub skip_const : (form cursor : ℕ) → List ℕ → Outcome (Bool × ℕ)
unfolding read_or
skip_const form cursor section =
    if form == 0x21
    then read_or read_sleb128 section cursor (false, cursor) (λ v next. done (true, next))
    else done (true, cursor)

-- The pairs of an attribute and a form, up to the pair of zeros.
unfoldable pub skip_attrs : ℕ → List ℕ → ℕ → Outcome (Bool × ℕ)
unfolding read_or skip_const
skip_attrs zero section cursor = out_of_fuel
skip_attrs (suc fuel) section cursor =
    read_or read_uleb128 section cursor (false, cursor)
      (λ attr behind.
        read_or read_uleb128 section behind (false, behind)
          (λ form next.
            let more = (do
              const ← skip_const form next section
              let again = skip_attrs fuel section const.1
              if const.0 then again else done const) in
            if attr == 0 && form == 0 then done (true, next) else more))

-- The abbreviations, up to the code zero: the cursor at which the range ends.
unfoldable pub skip_abbrevs : ℕ → List ℕ → ℕ → Outcome ℕ
unfolding read_or skip_attrs
skip_abbrevs zero section cursor = out_of_fuel
skip_abbrevs (suc fuel) section cursor =
    let round = read_or read_uleb128 section cursor cursor (λ code behind.
      let body = read_or read_uleb128 section behind behind (λ tag flag.
        let attrs = (do
          pairs ← skip_attrs fuel section (flag + 1)
          let again = skip_abbrevs fuel section pairs.1
          if pairs.0 then again else done pairs.1) in
        if leb (length section) flag then done flag else attrs) in
      if code == 0 then done behind else body) in
    if leb (length section) cursor then done cursor else round

unfoldable pub compute_debug_abbrev_range : ℕ → List ℕ → Outcome Range
unfolding skip_abbrevs
compute_debug_abbrev_range start section =
    if leb (length section) start then done (record { start = start; end = start }) else (do
      end ← skip_abbrevs (length section + 1) section start
      done (record { start = start; end = end }))

-- `total`: the length in its field and the field itself.
unfoldable pub line_total : ℕ → List ℕ → Option ℕ
unfolding slice from_le_bytes
line_total start section = elim (slice section start (start + 4)) [
  | none ↦ none
  | some word ↦
      let wide : Option ℕ = elim (slice section (start + 4) (start + 12)) [
        | none ↦ none
        | some ext ↦ some (add_u64 12 (from_le_bytes ext))
      ] in
      if from_le_bytes word == 0xffff_ffff then wide else some (4 + from_le_bytes word)
]

unfoldable pub compute_debug_line_range : ℕ → List ℕ → Option Range
unfolding line_total
compute_debug_line_range start section = elim (line_total start section) [
  | none ↦ none
  | some total ↦
      if ltb (length section) (add_u64 start total)
      then none
      else some (record { start = start; end = add_u64 start total })
]
