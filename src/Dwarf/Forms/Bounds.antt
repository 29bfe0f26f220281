-- ===== src/Dwarf/Forms/Bounds.antt =====
-- crates/delink-emit/src/dwarf_relocs.rs, `form_size`: how large a size can be.
use delink.Prelude.{
  ℕ, zero, Bool, ◌&&◌, true, ltb, none, suc, ◌+◌, ◌^◌, ◌≤◌, ◌<◌, ◌≡◌, inl, inr, some, List, [], ◌∷◌,
  take, drop, length, length-take, length-drop, drop-drop, ◌==◌, arith, All, Bool-cases,
  Option-cases, subst,
}
use delink.Prelude.Eq.{nat_eq}
use delink.Prelude.Bytes.{from_le_bytes, from_le_bytes-lt_width, All-take, All-drop}
use delink.Prelude.Words.{IsByte}
use delink.Collections.HashMap
use delink.Collections.HashMap.{HashMap}
use delink.Symtab.Read.{position_zero}
use delink.Dwarf.Leb.{read_uleb128, read_uleb128_from, read_sleb128}
use delink.Dwarf.Leb.Bounds.{read_uleb128_bounds, read_sleb128_bounds}
use delink.Dwarf.Forms.{
  Form, form_arms, form_of, direct_size, form_size_from, form_size, is_indirect,
}
use delink.Dwarf.Forms.Form.{
  addr, offset, fixed, block, block_uleb, string, uleb, sleb, indirect, unknown,
}

-- The sizes and counts that the arms name are small.
abbrev IsSmall : Form → Type 0
IsSmall (fixed n) = n ≤ 16
IsSmall (block n) = n ≤ 4
IsSmall _ = Unit

get-All {ℓ κ} :
    {V : Type ℓ} (P : V → Type κ) (k : ℕ) (m : HashMap ℕ V)
    → All (λ e. P e.1) m
    → (v : V) → HashMap.get k m ≡ some v
    → P v
unfolding HashMap.get
get-All P k [] h v e = cc
get-All P k ((j, w) ∷ m) h v e = elim (Bool-cases (k == j)) [
  | inl here ↦ let e' = rw here at e in let same : w ≡ v = cc in subst P (same) h.0
  | inr there ↦ get-All P k m h.1 v (rw there at e)
]

form_of-IsSmall : (form : ℕ) → IsSmall (form_of form)
unfolding form_of
form_of-IsSmall form = elim (Option-cases (HashMap.get form form_arms)) [
  | inl none' ↦ rw none' tt
  | inr (f, found) ↦ rw found (get-All IsSmall form form_arms (omega arith) f found)
]

position_zero-lt : (bytes : List ℕ) (i : ℕ) → position_zero bytes ≡ some i → i < length bytes
unfolding position_zero
position_zero-lt [] i h = cc
position_zero-lt (b ∷ bytes) i h = elim (Bool-cases (b == 0)) [
  | inl zero' ↦ let h' = rw zero' at h in ground arith
  | inr more ↦ elim (Option-cases (position_zero bytes)) [
    | inl none' ↦ let h' = rw (more, none') at h in cc
    | inr (j, found) ↦
        let h' = rw (more, found) at h in ground (arith, position_zero-lt bytes j found)
  ]
]

-- No LEB128 number of the slice is as large as a wrapped cursor takes.
abbrev pub HasShortNumbers : List ℕ → Type 0
HasShortNumbers slice = (k v n : ℕ) → read_uleb128 (drop k slice) ≡ some (v, n) → v < 2 ^ 62

-- The test for it: a look at every position.
unfoldable pub has_short_numbers : List ℕ → Bool
unfolding read_uleb128
has_short_numbers [] = true
has_short_numbers (b ∷ bytes) =
    elim (read_uleb128 (b ∷ bytes)) [ none ↦ true | some (v, n) ↦ ltb v (2 ^ 62) ]
    && has_short_numbers bytes

pub has_short_numbers_lem :
    (slice : List ℕ) → has_short_numbers slice ≡ true → HasShortNumbers slice
unfolding has_short_numbers
has_short_numbers_lem [] h zero v n e = unfold read_uleb128 read_uleb128_from in cc
has_short_numbers_lem [] h (suc k) v n e = unfold read_uleb128 read_uleb128_from in cc
has_short_numbers_lem (b ∷ bytes) h zero v n e =
    let h' = rw (e, has_short_numbers) at h in ground arith
has_short_numbers_lem (b ∷ bytes) h (suc k) v n e =
    has_short_numbers_lem bytes (ground arith) k v n e

module _ (slice : List ℕ) (all : All IsByte slice) (short : HasShortNumbers slice) where
  from_le_bytes-bound : (n k : ℕ) → n ≤ 4 → from_le_bytes (take n (drop k slice)) < 2 ^ 32
  from_le_bytes-bound n k h =
      from_le_bytes-lt_width 4 (take n (drop k slice))
        (All-take IsByte n (drop k slice) (All-drop IsByte k slice all))
        (omega (arith, length-take n (drop k slice)))

  direct_size-le :
      (addr_size offset_size k : ℕ) (f : Form) (size : ℕ)
      → IsSmall f
      → addr_size < 256
      → offset_size ≤ 8
      → k ≤ length slice
      → direct_size addr_size offset_size (drop k slice) f ≡ some size
      → size + k ≤ length slice + (2 ^ 62 + 2 ^ 33)
  unfolding direct_size
  direct_size-le a o k addr size small ha ho hk h = ground arith
  direct_size-le a o k offset size small ha ho hk h = ground arith
  direct_size-le a o k (fixed n) size small ha ho hk h = ground arith
  direct_size-le a o k (block n) size small ha ho hk h = ground (arith, from_le_bytes-bound n k)
  direct_size-le a o k block_uleb size small ha ho hk h =
      elim (Option-cases (read_uleb128 (drop k slice))) [
        | inl none' ↦ let h' = rw none' at h in cc
        | inr ((v, n), found) ↦
            let h' = rw found at h in
            let bound = read_uleb128_bounds (drop k slice) v n found in
            ground (arith, short k v n found, length-drop k slice)
      ]
  direct_size-le a o k string size small ha ho hk h =
      elim (Option-cases (position_zero (drop k slice))) [
        | inl none' ↦ let h' = rw (none', direct_size) at h in cc
        | inr (i, found) ↦
            let h' = rw (found, direct_size) at h in
            ground (arith, position_zero-lt (drop k slice) i found, length-drop k slice)
      ]
  direct_size-le a o k uleb size small ha ho hk h =
      elim (Option-cases (read_uleb128 (drop k slice))) [
        | inl none' ↦ let h' = rw none' at h in cc
        | inr ((v, n), found) ↦
            let h' = rw found at h in
            let bound = read_uleb128_bounds (drop k slice) v n found in
            ground (arith, length-drop k slice)
      ]
  direct_size-le a o k sleb size small ha ho hk h =
      elim (Option-cases (read_sleb128 (drop k slice))) [
        | inl none' ↦ let h' = rw none' at h in cc
        | inr ((v, n), found) ↦
            let h' = rw found at h in
            let bound = read_sleb128_bounds (drop k slice) v n found in
            ground (arith, length-drop k slice)
      ]
  direct_size-le a o k indirect size small ha ho hk h = cc
  direct_size-le a o k unknown size small ha ho hk h = cc

  form_size_from-le :
      (rounds form addr_size offset_size k size : ℕ)
      → addr_size < 256
      → offset_size ≤ 8
      → length slice < 2 ^ 62
      → k ≤ length slice
      → form_size_from rounds form addr_size offset_size (drop k slice) ≡ some size
      → size + k ≤ length slice + (2 ^ 62 + 2 ^ 33)
  unfolding form_size_from
  form_size_from-le zero form a o k size ha ho hl hk h = cc
  form_size_from-le (suc rounds) form a o k size ha ho hl hk h =
      elim (Bool-cases (is_indirect (form_of form))) [
        | inr direct ↦
            direct_size-le a o k (form_of form) size (form_of-IsSmall form) ha ho hk
              (rw (direct, form_size_from) at h)
        | inl through ↦ elim (Option-cases (read_uleb128 (drop k slice))) [
          | inl none' ↦ let h' = rw (through, none', form_size_from) at h in cc
          | inr ((inner, n), found) ↦
              let bound = read_uleb128_bounds (drop k slice) inner n found in
              let same = drop-drop k n slice in
              elim (Option-cases (form_size_from rounds inner a o (drop n (drop k slice)))) [
                | inl none' ↦ let h' = rw (through, found, none', form_size_from) at h in cc
                | inr (rest, more) ↦
                    let h' = rw (through, found, more, form_size_from) at h in
                    let within : k + n ≤ length slice = omega (arith, bound, length-drop k slice) in
                    let le =
                      form_size_from-le rounds inner a o (k + n) rest ha ho hl within
                        (rw same at more) in
                    ground arith
              ]
        ]
      ]

  -- An attribute ends before the cursor could wrap.
  pub form_size-le :
      (form addr_size offset_size k size : ℕ)
      → addr_size < 256
      → offset_size ≤ 8
      → length slice < 2 ^ 62
      → k ≤ length slice
      → form_size form addr_size offset_size (drop k slice) ≡ some size
      → size + k ≤ length slice + (2 ^ 62 + 2 ^ 33)
  unfolding form_size
  form_size-le form a o k size ha ho hl hk h =
      form_size_from-le (length (drop k slice) + 1) form a o k size ha ho hl hk h
