-- ===== src/Dwarf/Leb/Bounds.antt =====
-- crates/delink-emit/src/dwarf_relocs.rs: a LEB128 read takes a byte at least, and none that is not there.
use delink.Prelude.{
  ℕ, ◌+◌, ◌≤◌, ◌<◌, ◌≡◌, some, List, [], ◌∷◌, length, ltb, arith, Bool-cases, inl, inr,
}
use delink.Prelude.Int.{ℤ}
use delink.Dwarf.Leb.{group_bits, read_uleb128_from, read_uleb128, read_sleb128_from, read_sleb128}

pub read_uleb128_from_bounds :
    (result shift i : ℕ) (bytes : List ℕ) (v n : ℕ)
    → read_uleb128_from result shift i bytes ≡ some (v, n)
    → (i < n) × (n ≤ i + length bytes)
unfolding read_uleb128_from
read_uleb128_from_bounds result shift i [] v n h = cc
read_uleb128_from_bounds result shift i (b ∷ bytes) v n h =
    ground
      (arith, read_uleb128_from_bounds (result + group_bits b shift) (shift + 7) (i + 1) bytes v n)

pub read_uleb128_bounds :
    (bytes : List ℕ) (v n : ℕ) → read_uleb128 bytes ≡ some (v, n) → (0 < n) × (n ≤ length bytes)
unfolding read_uleb128
read_uleb128_bounds bytes v n h = omega (arith, read_uleb128_from_bounds 0 0 0 bytes v n h)

pub read_sleb128_from_bounds :
    (result shift i : ℕ) (bytes : List ℕ) (v : ℤ) (n : ℕ)
    → read_sleb128_from result shift i bytes ≡ some (v, n)
    → (i < n) × (n ≤ i + length bytes)
unfolding read_sleb128_from
read_sleb128_from_bounds result shift i [] v n h = cc
read_sleb128_from_bounds result shift i (b ∷ bytes) v n h = elim (Bool-cases (ltb b 0x80)) [
  | inl last ↦ let found = rw last at h in ground arith
  | inr more ↦
      ground (
        arith,
        read_sleb128_from_bounds (result + group_bits b shift) (shift + 7) (i + 1) bytes v n,
      )
]

pub read_sleb128_bounds :
    (bytes : List ℕ) (v : ℤ) (n : ℕ)
    → read_sleb128 bytes ≡ some (v, n)
    → (0 < n) × (n ≤ length bytes)
unfolding read_sleb128
read_sleb128_bounds bytes v n h = omega (arith, read_sleb128_from_bounds 0 0 0 bytes v n h)
