-- ===== src/Dwarf/Leb.antt =====
-- crates/delink-emit/src/dwarf_relocs.rs, `read_uleb128` and `read_sleb128`: LEB128 numbers. The file
-- crates/delink-core/src/cu.rs has the same two functions, word for word.
--
-- The bits below `shift` hold what was read so far and a new group starts at `shift`, so `|` adds.
-- A left shift drops what passes bit 63.
pub mod RoundTrip
pub mod Bounds
pub mod Local
use delink.Prelude.{
  ℕ, suc, ◌+◌, ◌-◌, ◌*◌, ◌%◌, ◌^◌, Option, none, some, List, [], ◌∷◌, ◌&&◌, ltb, if◌then◌else◌,
}
use delink.Prelude.Int.{ℤ}
use delink.Prelude.Words.{as_i64}

-- `((b & 0x7f) as u64) << shift`
abbrev pub group_bits : ℕ → ℕ → ℕ
group_bits b shift = b % 0x80 * 2 ^ shift % 2 ^ 64

-- The loop over the bytes, with the number of those that are behind.
unfoldable pub read_uleb128_from : (result shift i : ℕ) → List ℕ → Option (ℕ × ℕ)
read_uleb128_from result shift i [] = none
read_uleb128_from result shift i (b ∷ bytes) =
    let more = read_uleb128_from (result + group_bits b shift) (shift + 7) (i + 1) bytes in
    if ltb b 0x80
    then some (result + group_bits b shift, i + 1)
    else if ltb 63 (shift + 7)
    then none
    else more

-- The number and the count of its bytes.
unfoldable pub read_uleb128 : List ℕ → Option (ℕ × ℕ)
unfolding read_uleb128_from
read_uleb128 bytes = read_uleb128_from 0 0 0 bytes

-- The pattern of the i64: `-1i64 << shift` sets every bit from `shift` on.
abbrev pub sign_fill : (result shift b : ℕ) → ℕ
sign_fill result shift b =
    if ltb shift 64 && ltb 0x3f (b % 0x80) then result + (2 ^ 64 - 2 ^ shift) else result

unfoldable pub read_sleb128_from : (result shift i : ℕ) → List ℕ → Option (ℤ × ℕ)
unfolding as_i64
read_sleb128_from result shift i [] = none
read_sleb128_from result shift i (b ∷ bytes) =
    let more = read_sleb128_from (result + group_bits b shift) (shift + 7) (i + 1) bytes in
    if ltb b 0x80
    then some (as_i64 (sign_fill (result + group_bits b shift) (shift + 7) b), i + 1)
    else if ltb 63 (shift + 7)
    then none
    else more

unfoldable pub read_sleb128 : List ℕ → Option (ℤ × ℕ)
unfolding read_sleb128_from
read_sleb128 bytes = read_sleb128_from 0 0 0 bytes
