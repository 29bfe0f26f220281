-- ===== src/Dwarf/Ranges/Sound.antt =====
-- crates/delink-emit/src/dwarf_relocs.rs: `scan_debug_ranges` and `scan_debug_loc` return, and their
-- relocations restore their fields and lie apart.
use delink.Prelude.{
  ℕ, zero, suc, ◌+◌, ◌*◌, ◌^◌, ◌≤◌, ◌<◌, ◌≡◌, refl, inl, inr, some, List, [], ◌∷◌, ◌++◌, take, drop,
  length, length-drop, ltb, leb, ◌==◌, arith, All, All-append, All-imp, Bool-cases, Option-cases,
  true, tests,
}
use delink.Prelude.Text.{Str}
use delink.Prelude.Int.{ℤ}
use delink.Prelude.Bytes.{from_le_bytes, All-drop}
use delink.Prelude.Words.{IsByte}
use delink.Collections.BTreeMap.{IsOrdered}
use delink.Symbols.{GlobalSymbols}
use delink.Dwarf.{
  Outcome, DwarfReloc, Output, empty_output, push, read_word, read_addr, resolve_addr,
  resolve_addr_including_end,
}
use delink.Dwarf.DwarfReloc.{abs64, abs32}
use delink.Dwarf.Outcome.{done}
use delink.Dwarf.Restores.{
  Reaches, AllRestore, push-AllRestore, read_addr-lt, resolve_addr_sound,
  resolve_addr_including_end_sound,
}
use delink.Dwarf.Ranges.{
  PairKind, count_resolved, count_missing, emit_start, emit_end, emit_pair, is_marker, addr_at,
  ranges_from, scan_debug_ranges, expression_length, locs_from, scan_debug_loc,
}
use delink.Dwarf.Ranges.PairKind.{range, loc}

abbrev pub offset_of : DwarfReloc → ℕ
offset_of (abs64 offset name addend) = offset
offset_of (abs32 offset name addend) = offset

-- Fields of `width` bytes, one behind the other.
abbrev pub LieApart : ℕ → List DwarfReloc → Type 0
LieApart width [] = Unit
LieApart width (r ∷ rs) = All (λ q. offset_of r + width ≤ offset_of q) rs × LieApart width rs

append-LieApart :
    (width : ℕ) (rs : List DwarfReloc) (r : DwarfReloc)
    → LieApart width rs
    → All (λ q. offset_of q + width ≤ offset_of r) rs
    → LieApart width (rs ++ (r ∷ []))
append-LieApart width [] r apart before = (tt, tt)
append-LieApart width (q ∷ rs) r apart before = (
  All-append (λ p. offset_of q + width ≤ offset_of p) rs (r ∷ []) apart.0 (before.0, tt),
  append-LieApart width rs r apart.1 before.1,
)

-- What holds of the relocations when the cursor has come to `cursor`.
pub record IsSound (s : GlobalSymbols) (section : List ℕ) (size cursor : ℕ) (out : Output)
    : Type 0 where
  pub restored : AllRestore s section size 0 out
  pub apart : LieApart size out.relocs
  pub behind : All (λ q. offset_of q + size ≤ cursor) out.relocs

read_addr_total :
    (bytes : List ℕ) (size : ℕ)
    → size ≤ length bytes
    → (addr : ℕ) × (read_addr bytes size ≡ some addr)
unfolding read_addr read_word
read_addr_total bytes size le = elim (Bool-cases (size == 4)) [
  | inl four ↦ (from_le_bytes (take 4 bytes), ground arith)
  | inr not_four ↦ elim (Bool-cases (size == 8)) [
    | inl eight ↦ (from_le_bytes (take 8 bytes), ground arith)
    | inr not_eight ↦ (0, ground arith)
  ]
]

module _ (s : GlobalSymbols) (ordered : IsOrdered s.functions) (section : List ℕ)
    (all : All IsByte section) (size : ℕ) where
  move-IsSound :
      (out : Output) (cursor cursor' : ℕ)
      → cursor ≤ cursor'
      → IsSound s section size cursor out
      → IsSound s section size cursor' out
  move-IsSound out cursor cursor' le sound = record {
    restored = sound.restored;
    apart = sound.apart;
    behind = All-imp (λ q h. omega arith) out.relocs sound.behind;
  }

  push-IsSound :
      (cursor : ℕ) (name : Str) (addend : ℤ) (addr : ℕ) (out : Output)
      → read_addr (drop cursor section) size ≡ some addr
      → Reaches s name addend addr
      → IsSound s section size cursor out
      → IsSound s section size (cursor + size) (push (abs64 cursor name addend) out)
  push-IsSound cursor name addend addr out read reaches sound = record {
    restored =
        push-AllRestore s section size 0 (abs64 cursor name addend) out (addr, read, reaches)
          sound.restored;
    apart = append-LieApart size out.relocs (abs64 cursor name addend) sound.apart sound.behind;
    behind =
        All-append (λ q. offset_of q + size ≤ cursor + size) out.relocs
          (abs64 cursor name addend ∷ []) (All-imp (λ q h. omega arith) out.relocs sound.behind)
          (omega arith, tt);
  }

  count_resolved-IsSound :
      (kind : PairKind) (cursor : ℕ) (out : Output)
      → IsSound s section size cursor out
      → IsSound s section size cursor (count_resolved kind out)
  count_resolved-IsSound range cursor out sound = record {
    restored = sound.restored;
    apart = sound.apart;
    behind = sound.behind;
  }
  count_resolved-IsSound loc cursor out sound = record {
    restored = sound.restored;
    apart = sound.apart;
    behind = sound.behind;
  }

  count_missing-IsSound :
      (kind : PairKind) (cursor : ℕ) (out : Output)
      → IsSound s section size cursor out
      → IsSound s section size (cursor + size) (count_missing kind out)
  count_missing-IsSound range cursor out sound =
      let moved = move-IsSound out cursor (cursor + size) (omega arith) sound in
      record { restored = moved.restored; apart = moved.apart; behind = moved.behind }
  count_missing-IsSound loc cursor out sound =
      let moved = move-IsSound out cursor (cursor + size) (omega arith) sound in
      record { restored = moved.restored; apart = moved.apart; behind = moved.behind }

  module _ (kind : PairKind) (cursor addr : ℕ) (out : Output)
      (read : read_addr (drop cursor section) size ≡ some addr)
      (sound : IsSound s section size cursor out) where
    fits : addr < 2 ^ 64
    fits = read_addr-lt (drop cursor section) size addr (All-drop IsByte cursor section all) read

    emit_start-IsSound : IsSound s section size (cursor + size) (emit_start kind s cursor addr out)
    unfolding emit_start
    emit_start-IsSound = elim (Option-cases (resolve_addr s addr)) [
      | inl none' ↦ rw (none', emit_start) (count_missing-IsSound kind cursor out sound)
      | inr ((name, addend), found) ↦
          rw (found, emit_start)
            (count_resolved-IsSound kind (cursor + size) (push (abs64 cursor name addend) out) (
              push-IsSound cursor name addend addr out read
                (resolve_addr_sound s ordered addr fits name addend found) sound))
    ]

    emit_end-IsSound : IsSound s section size (cursor + size) (emit_end kind s cursor addr out)
    unfolding emit_end
    emit_end-IsSound = elim (Bool-cases (addr == 0)) [
      | inl zero' ↦ rw zero' (count_missing-IsSound kind cursor out sound)
      | inr there ↦ elim (Option-cases (resolve_addr_including_end s addr)) [
        | inl none' ↦ rw (there, none') (count_missing-IsSound kind cursor out sound)
        | inr ((name, addend), found) ↦
            rw (there, found)
              (push-IsSound cursor name addend addr out read
                (resolve_addr_including_end_sound s ordered addr fits name addend found) sound)
      ]
    ]

  emit_pair-IsSound :
      (kind : PairKind) (cursor start end : ℕ) (out : Output)
      → read_addr (drop cursor section) size ≡ some start
      → read_addr (drop (cursor + size) section) size ≡ some end
      → IsSound s section size cursor out
      → IsSound s section size
          (cursor + size * 2)
          (emit_pair kind s cursor (cursor + size) start end out)
  unfolding emit_pair
  emit_pair-IsSound kind cursor start end out read read' sound =
      move-IsSound _ (cursor + size + size) (cursor + size * 2) (omega arith) (
        emit_end-IsSound kind (cursor + size) end _ read'
          (emit_start-IsSound kind cursor start out read sound))

  -- Inside the section a read gives a number.
  addr_at_lem :
      (cursor : ℕ)
      → cursor + size ≤ length section
      → (addr : ℕ) × (addr_at section size cursor ≡ done addr)
        × (read_addr (drop cursor section) size ≡ some addr)
  unfolding addr_at
  addr_at_lem cursor room =
      let within : leb cursor (length section) ≡ true = ground arith in
      let (addr, read) =
        read_addr_total (drop cursor section) size (omega (arith, length-drop cursor section)) in
      (addr, rw (within, read) refl, read)

  -- Of the fuel: a round takes a pair of addresses at least.
  module _ (pos : 0 < size) where
    ranges_from_lem :
        (fuel cursor : ℕ) (out : Output)
        → 0 < fuel
        → length section < cursor + fuel
        → IsSound s section size cursor out
        → (out' : Output) × (ranges_from fuel size s section cursor out ≡ done out')
          × (end : ℕ) × IsSound s section size end out'
    unfolding ranges_from
    ranges_from_lem zero cursor out some_fuel enough sound = absurd (omega arith)
    ranges_from_lem (suc fuel) cursor out some_fuel enough sound =
        elim (Bool-cases (leb (cursor + size * 2) (length section))) [
          | inr end ↦ (out, rw end refl, cursor, sound)
          | inl room ↦
              let (start, first, read) = addr_at_lem cursor (omega tests) in
              let (stop, second, read') = addr_at_lem (cursor + size) (omega tests) in
              elim (Bool-cases (is_marker size start stop)) [
                | inl marker ↦
                    let (out', result, end, rest) =
                      ranges_from_lem fuel (cursor + size * 2) out (omega tests) (omega arith)
                        (move-IsSound out cursor (cursor + size * 2) (omega arith) sound) in
                    (out', rw (room, first, second, marker) result, end, rest)
                | inr entry ↦
                    let emitted = emit_pair range s cursor (cursor + size) start stop out in
                    let (out', result, end, rest) =
                      ranges_from_lem fuel (cursor + size * 2) emitted (omega tests) (omega arith)
                        (emit_pair-IsSound range cursor start stop out read read' sound) in
                    (out', rw (room, first, second, entry) result, end, rest)
              ]
        ]

    locs_from_lem :
        (fuel cursor : ℕ) (out : Output)
        → 0 < fuel
        → length section < cursor + fuel
        → IsSound s section size cursor out
        → (out' : Output) × (locs_from fuel size s section cursor out ≡ done out')
          × (end : ℕ) × IsSound s section size end out'
    unfolding locs_from
    locs_from_lem zero cursor out some_fuel enough sound = absurd (omega arith)
    locs_from_lem (suc fuel) cursor out some_fuel enough sound =
        elim (Bool-cases (leb (cursor + size * 2) (length section))) [
          | inr end ↦ (out, rw end refl, cursor, sound)
          | inl room ↦
              let (start, first, read) = addr_at_lem cursor (omega tests) in
              let (stop, second, read') = addr_at_lem (cursor + size) (omega tests) in
              let emitted = emit_pair loc s cursor (cursor + size) start stop out in
              let sound' = emit_pair-IsSound loc cursor start stop out read read' sound in
              elim (Bool-cases (is_marker size start stop)) [
                | inl marker ↦
                    let (out', result, end, rest) =
                      locs_from_lem fuel (cursor + size * 2) out (omega tests) (omega arith)
                        (move-IsSound out cursor (cursor + size * 2) (omega arith) sound) in
                    (out', rw (room, first, second, marker) result, end, rest)
                | inr entry ↦ elim (Bool-cases (ltb (length section) (cursor + size * 2 + 2))) [
                  | inl truncated ↦ (
                    emitted,
                    rw (room, first, second, entry, truncated) refl,
                    cursor + size * 2,
                    sound',
                  )
                  | inr whole ↦
                      let behind = size * 2 + 2 + expression_length section (cursor + size * 2) in
                      let (out', result, end, rest) =
                        locs_from_lem fuel (cursor + behind) emitted (omega tests) (omega arith) (
                          move-IsSound emitted (cursor + size * 2) (cursor + behind) (omega arith)
                            sound') in
                      (out', rw (room, first, second, entry, whole) result, end, rest)
                ]
              ]
        ]

-- A scan returns, and its relocations restore their fields and lie apart.
abbrev pub Returns : GlobalSymbols → List ℕ → Outcome Output → Type 0
Returns s section o =
    (out : Output) × (o ≡ done out) × AllRestore s section 8 0 out × LieApart 8 out.relocs

empty-IsSound :
    (s : GlobalSymbols) (section : List ℕ) (size : ℕ) → IsSound s section size 0 empty_output
empty-IsSound s section size = record { restored = tt; apart = tt; behind = tt }

-- With addresses of eight bytes, the size that a 64-bit relocation patches, scan_debug_ranges returns
-- without a panic whatever the bytes of .debug_ranges are, each of its relocations restores its field, and
-- no two of the eight-byte fields overlap.
pub scan_debug_ranges-Returns :
    (section : List ℕ) (s : GlobalSymbols)
    → IsOrdered s.functions
    → All IsByte section
    → Returns s section (scan_debug_ranges section 8 s)
unfolding scan_debug_ranges
scan_debug_ranges-Returns section s ordered all = elim (Bool-cases (ltb (length section) 16)) [
  | inl none' ↦ (empty_output, rw none' refl, tt, tt)
  | inr there ↦
      let (out, result, end, sound) =
        ranges_from_lem s ordered section all 8 (omega arith) (length section + 1) 0 empty_output
          (omega arith) (omega arith) (empty-IsSound s section 8) in
      (out, rw there result, sound.restored, sound.apart)
]

-- With addresses of eight bytes, the size that a 64-bit relocation patches, scan_debug_loc returns
-- without a panic whatever the bytes of .debug_loc are, each of its relocations restores its field, and
-- no two of the eight-byte fields overlap.
pub scan_debug_loc-Returns :
    (section : List ℕ) (s : GlobalSymbols)
    → IsOrdered s.functions
    → All IsByte section
    → Returns s section (scan_debug_loc section 8 s)
unfolding scan_debug_loc
scan_debug_loc-Returns section s ordered all = elim (Bool-cases (ltb (length section) 16)) [
  | inl none' ↦ (empty_output, rw none' refl, tt, tt)
  | inr there ↦
      let (out, result, end, sound) =
        locs_from_lem s ordered section all 8 (omega arith) (length section + 1) 0 empty_output
          (omega arith) (omega arith) (empty-IsSound s section 8) in
      (out, rw there result, sound.restored, sound.apart)
]
