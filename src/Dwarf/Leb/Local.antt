-- ===== src/Dwarf/Leb/Local.antt =====
-- crates/delink-emit/src/dwarf_relocs.rs: a number is read from its own bytes, whatever follows them.
use delink.Prelude.{
  ℕ, zero, suc, ◌+◌, ◌≤◌, ◌≡◌, inl, inr, some, List, [], ◌∷◌, take, ltb, arith, Bool-cases,
}
use delink.Prelude.Int.{ℤ}
use delink.Dwarf.Leb.{group_bits, read_uleb128_from, read_uleb128, read_sleb128_from, read_sleb128}
use delink.Dwarf.Leb.Bounds.{read_uleb128_from_bounds, read_sleb128_from_bounds}

read_uleb128_from-take :
    (result shift i : ℕ) (bytes : List ℕ) (v n j : ℕ)
    → read_uleb128_from result shift i bytes ≡ some (v, n)
    → n ≤ i + j
    → read_uleb128_from result shift i (take j bytes) ≡ some (v, n)
unfolding read_uleb128_from
read_uleb128_from-take result shift i [] v n j h le = cc
read_uleb128_from-take result shift i (b ∷ bytes) v n zero h le =
    absurd (omega (arith, read_uleb128_from_bounds result shift i (b ∷ bytes) v n h))
read_uleb128_from-take result shift i (b ∷ bytes) v n (suc j) h le =
    ground
      (arith, read_uleb128_from-take (result + group_bits b shift) (shift + 7) (i + 1) bytes v n j)

pub read_uleb128-take :
    (bytes : List ℕ) (v n j : ℕ)
    → read_uleb128 bytes ≡ some (v, n)
    → n ≤ j
    → read_uleb128 (take j bytes) ≡ some (v, n)
unfolding read_uleb128
read_uleb128-take bytes v n j h le = read_uleb128_from-take 0 0 0 bytes v n j h (omega arith)

read_sleb128_from-take :
    (result shift i : ℕ) (bytes : List ℕ) (v : ℤ) (n j : ℕ)
    → read_sleb128_from result shift i bytes ≡ some (v, n)
    → n ≤ i + j
    → read_sleb128_from result shift i (take j bytes) ≡ some (v, n)
unfolding read_sleb128_from
read_sleb128_from-take result shift i [] v n j h le = cc
read_sleb128_from-take result shift i (b ∷ bytes) v n zero h le =
    absurd (omega (arith, read_sleb128_from_bounds result shift i (b ∷ bytes) v n h))
read_sleb128_from-take result shift i (b ∷ bytes) v n (suc j) h le =
    elim (Bool-cases (ltb b 0x80)) [
      | inl last ↦ let found = rw last at h in rw last found
      | inr more ↦
          let rest =
            read_sleb128_from-take (result + group_bits b shift) (shift + 7) (i + 1) bytes v n j in
          elim (Bool-cases (ltb 63 (shift + 7))) [
            | inl long ↦ let found = rw (more, long) at h in cc
            | inr short ↦
                let found = rw (more, short) at h in rw (more, short) (rest found (omega arith))
          ]
    ]

pub read_sleb128-take :
    (bytes : List ℕ) (v : ℤ) (n j : ℕ)
    → read_sleb128 bytes ≡ some (v, n)
    → n ≤ j
    → read_sleb128 (take j bytes) ≡ some (v, n)
unfolding read_sleb128
read_sleb128-take bytes v n j h le = read_sleb128_from-take 0 0 0 bytes v n j h (omega arith)
