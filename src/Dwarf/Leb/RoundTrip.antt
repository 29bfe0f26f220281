-- ===== src/Dwarf/Leb/RoundTrip.antt =====
-- crates/delink-emit/src/dwarf_relocs.rs: what LEB128 encodes is read back, and a read stays within
-- its bytes.
use delink.Prelude.{
  ℕ, zero, suc, ◌+◌, ◌*◌, ◌/◌, ◌%◌, ◌^◌, ◌≤◌, ◌<◌, ◌≡◌, ap, ◌∙◌, some, List, [], ◌∷◌, ◌++◌, length,
  ltb, if◌then◌else◌, arith,
}
use delink.Prelude.Words.{IsU64}
use native.Mathlib.Nat.{div-add-mod}
use native.Mathlib.Numerals.{towards_suc}
use delink.Dwarf.Leb.{group_bits, read_uleb128_from, read_uleb128}

-- The shortest encoding in at most as many bytes as there are rounds.
unfoldable pub uleb_bytes : (rounds n : ℕ) → List ℕ
uleb_bytes zero n = []
uleb_bytes (suc rounds) n =
    let more = uleb_bytes rounds (n / 128) in if ltb n 128 then n ∷ [] else (n % 128 + 128) ∷ more

-- Ten bytes hold 64 bits.
unfoldable pub encode_uleb128 : ℕ → List ℕ
unfolding uleb_bytes
encode_uleb128 n = uleb_bytes 10 n

next_group : (shift : ℕ) → 2 ^ (shift + 7) ≡ 128 * 2 ^ shift
next_group shift = simp towards_suc (omega arith)

-- A number at a bit is its lowest group there and the others seven bits further on.
groups : (n shift : ℕ) → n * 2 ^ shift ≡ n % 128 * 2 ^ shift + n / 128 * 2 ^ (shift + 7)
groups n shift = omega (
  arith,
  ap (λ (t : ℕ). t * 2 ^ shift) (div-add-mod n 128),
  ap (λ (t : ℕ). n / 128 * t) (next_group shift),
)

-- The lowest group of a number that fits at its bit is not cut off.
lowest_group : (n shift : ℕ) → IsU64 (n * 2 ^ shift) → group_bits n shift ≡ n % 128 * 2 ^ shift
lowest_group n shift fits = omega (arith, groups n shift)

-- The round for a last byte, and for one that others follow.
read_last :
    (n result shift i : ℕ) (rest : List ℕ)
    → n < 128
    → IsU64 (result + n * 2 ^ shift)
    → read_uleb128_from result shift i (n ∷ rest) ≡ some (result + n * 2 ^ shift, i + 1)
unfolding read_uleb128_from
read_last n result shift i rest small fits =
    let whole : n % 128 ≡ n = omega arith in
    let bits : group_bits n shift ≡ n * 2 ^ shift =
      lowest_group n shift (omega arith) ∙ ap (λ (t : ℕ). t * 2 ^ shift) whole in
    rw bits (ground arith)

read_more :
    (n result shift i : ℕ) (rest : List ℕ)
    → shift + 7 ≤ 63
    → IsU64 (n * 2 ^ shift)
    → read_uleb128_from result shift i ((n % 128 + 128) ∷ rest)
      ≡ read_uleb128_from (result + n % 128 * 2 ^ shift) (shift + 7) (i + 1) rest
unfolding read_uleb128_from
read_more n result shift i rest room fits =
    let low : (n % 128 + 128) % 128 ≡ n % 128 = omega arith in
    let bits : group_bits (n % 128 + 128) shift ≡ n % 128 * 2 ^ shift =
      ap (λ (t : ℕ). t * 2 ^ shift % 2 ^ 64) low ∙ lowest_group n shift fits in
    rw bits (ground arith)

read_uleb128_from-uleb_bytes :
    (rounds n result shift i : ℕ) (rest : List ℕ)
    → n < 128 ^ suc rounds
    → shift + 7 * rounds ≤ 63
    → IsU64 (result + n * 2 ^ shift)
    → read_uleb128_from result shift i (uleb_bytes (suc rounds) n ++ rest)
      ≡ some (result + n * 2 ^ shift, i + length (uleb_bytes (suc rounds) n))
unfolding uleb_bytes
read_uleb128_from-uleb_bytes zero n result shift i rest small e fits =
    ground (arith, read_last n result shift i rest)
read_uleb128_from-uleb_bytes (suc rounds) n result shift i rest small e fits = ground (
  arith,
  groups n shift,
  read_last n result shift i rest,
  read_more n result shift i (uleb_bytes (suc rounds) (n / 128) ++ rest),
  read_uleb128_from-uleb_bytes rounds (n / 128) (result + n % 128 * 2 ^ shift) (shift + 7) (i + 1)
      rest,
)

-- A u64 that is laid out in LEB128 is read back with the length of its encoding, whatever follows.
pub read_uleb128-encode_uleb128 :
    (n : ℕ) (rest : List ℕ)
    → IsU64 n
    → read_uleb128 (encode_uleb128 n ++ rest) ≡ some (n, length (encode_uleb128 n))
unfolding read_uleb128 encode_uleb128
read_uleb128-encode_uleb128 n rest fits =
    ground (arith, read_uleb128_from-uleb_bytes 9 n 0 0 0 rest)
