-- ===== src/Arm/Addend.antt =====
-- crates/delink-arm/src/recover.rs, `apply_addend`: the addend of a relocation, written into its field.
pub mod RoundTrip
use delink.Prelude.{
  ℕ, ◌+◌, ◌-◌, ◌*◌, ◌/◌, ◌%◌, ◌^◌, Option, none, some, List, [], ◌∷◌, ◌++◌, take, drop, ltb,
  if◌then◌else◌,
}
use delink.Prelude.Int.{ℤ, pos, negsuc}
use delink.Prelude.Words.{as_u64, as_u32}
use delink.Prelude.Bytes.{slice, from_le_bytes, to_le_bytes}
use delink.Arm.{RelocKind}

-- The new word of the field. The masks take the low or the high bits, which are the remainder and
-- the multiple of a power of two; the two parts that `|` joins have no bit in common.
unfoldable pub patched : RelocKind → ℕ → ℤ → ℕ
unfolding as_u32 as_u64
patched RelocKind.rel32 old addend = as_u32 addend
patched RelocKind.abs32 old addend = as_u32 addend
patched RelocKind.got_prel old addend = as_u32 addend
patched RelocKind.prel31 old addend = old / 2 ^ 31 * 2 ^ 31 + as_u32 addend % 2 ^ 31
patched RelocKind.call old addend = old / 2 ^ 24 * 2 ^ 24 + as_u64 addend / 4 % 2 ^ 24
patched RelocKind.jump24 old addend = old / 2 ^ 24 * 2 ^ 24 + as_u64 addend / 4 % 2 ^ 24

-- A field past the end of the section is an error.
unfoldable pub apply_addend : RelocKind → List ℕ → ℕ → ℤ → Option (List ℕ)
unfolding slice patched from_le_bytes to_le_bytes
apply_addend kind buf offset addend = elim (slice buf offset (offset + 4)) [
  | none ↦ none
  | some field ↦ some (
      take offset buf
      ++ (to_le_bytes 4 (patched kind (from_le_bytes field) addend) ++ drop (offset + 4) buf))
]
