-- ===== src/Dwarf/Forms.antt =====
-- crates/delink-emit/src/dwarf_relocs.rs, `form_size`: how far an attribute reaches.
pub mod Bounds
use delink.Prelude.{
  ℕ, zero, suc, ◌+◌, Bool, Option, none, some, List, [], ◌∷◌, take, drop, length, leb, ◌==◌,
  if◌then◌else◌, unwrap_or, true, false,
}
use delink.Prelude.Eq.{nat_eq}
use delink.Prelude.Bytes.{from_le_bytes}
use delink.Prelude.Words.{add_u64}
use delink.Symtab.Read.{position_zero}
use delink.Collections.HashMap
use delink.Collections.HashMap.{HashMap}
use delink.Dwarf.Leb.{read_uleb128, read_sleb128}

-- How the size of a form is found. A block has a count of `n` bytes and as many bytes as it says.
pub data Form : Type 0 where
  addr : Form
  offset : Form
  fixed : ℕ → Form
  block : ℕ → Form
  block_uleb : Form
  string : Form
  uleb : Form
  sleb : Form
  indirect : Form
  unknown : Form

-- The arms of the `match`, by the code of the form.
abbrev pub form_arms : HashMap ℕ Form
form_arms =
    (0x01, addr)
    ∷ (0x03, block 2)
    ∷ (0x04, block 4)
    ∷ (0x05, fixed 2)
    ∷ (0x06, fixed 4)
    ∷ (0x07, fixed 8)
    ∷ (0x08, string)
    ∷ (0x09, block_uleb)
    ∷ (0x0a, block 1)
    ∷ (0x0b, fixed 1)
    ∷ (0x0c, fixed 1)
    ∷ (0x0d, sleb)
    ∷ (0x0e, offset)
    ∷ (0x0f, uleb)
    ∷ (0x10, offset)
    ∷ (0x11, fixed 1)
    ∷ (0x12, fixed 2)
    ∷ (0x13, fixed 4)
    ∷ (0x14, fixed 8)
    ∷ (0x15, uleb)
    ∷ (0x16, indirect)
    ∷ (0x17, offset)
    ∷ (0x18, block_uleb)
    ∷ (0x19, fixed 0)
    ∷ (0x1a, uleb)
    ∷ (0x1b, uleb)
    ∷ (0x1c, fixed 4)
    ∷ (0x1d, offset)
    ∷ (0x1e, fixed 16)
    ∷ (0x1f, offset)
    ∷ (0x20, fixed 8)
    ∷ (0x21, fixed 0)
    ∷ (0x22, uleb)
    ∷ (0x23, uleb)
    ∷ (0x24, fixed 8)
    ∷ (0x25, fixed 1)
    ∷ (0x26, fixed 2)
    ∷ (0x27, fixed 3)
    ∷ (0x28, fixed 4)
    ∷ (0x29, fixed 1)
    ∷ (0x2a, fixed 2)
    ∷ (0x2b, fixed 3)
    ∷ (0x2c, fixed 4)
    ∷ []

unfoldable pub form_of : ℕ → Form
unfolding HashMap.get
form_of form = unwrap_or (HashMap.get form form_arms) unknown

-- `n + l as usize` of a length that LEB128 gives.
abbrev pub block_size : Option (ℕ × ℕ) → Option ℕ
block_size none = none
block_size (some (l, n)) = some (add_u64 n l)

abbrev pub leb_size {ℓ} : {A : Type ℓ} → Option (A × ℕ) → Option ℕ
leb_size none = none
leb_size (some (v, n)) = some n

-- The size of a form other than `indirect`, which the caller follows.
unfoldable pub direct_size : ℕ → ℕ → List ℕ → Form → Option ℕ
unfolding from_le_bytes
direct_size addr_size offset_size bytes addr = some addr_size
direct_size addr_size offset_size bytes offset = some offset_size
direct_size addr_size offset_size bytes (fixed n) = some n
direct_size addr_size offset_size bytes (block n) =
    if leb n (length bytes) then some (n + from_le_bytes (take n bytes)) else none
direct_size addr_size offset_size bytes block_uleb = block_size (read_uleb128 bytes)
direct_size addr_size offset_size bytes string = elim (position_zero bytes) [
  | none ↦ none
  | some i ↦ some (i + 1)
]
direct_size addr_size offset_size bytes uleb = leb_size (read_uleb128 bytes)
direct_size addr_size offset_size bytes sleb = leb_size (read_sleb128 bytes)
direct_size addr_size offset_size bytes indirect = none
direct_size addr_size offset_size bytes unknown = none

abbrev pub is_indirect : Form → Bool
is_indirect indirect = true
is_indirect _ = false

-- Each round of `indirect` reads a byte at least.
unfoldable pub form_size_from : (rounds form addr_size offset_size : ℕ) → List ℕ → Option ℕ
unfolding direct_size form_of
form_size_from zero form addr_size offset_size bytes = none
form_size_from (suc rounds) form addr_size offset_size bytes = elim (is_indirect (form_of form)) [
  | false ↦ direct_size addr_size offset_size bytes (form_of form)
  | true ↦ elim (read_uleb128 bytes) [
    | none ↦ none
    | some (inner, n) ↦ elim (form_size_from rounds inner addr_size offset_size (drop n bytes)) [
      | none ↦ none
      | some size ↦ some (add_u64 n size)
    ]
  ]
]

unfoldable pub form_size : (form addr_size offset_size : ℕ) → List ℕ → Option ℕ
unfolding form_size_from
form_size form addr_size offset_size bytes =
    form_size_from (length bytes + 1) form addr_size offset_size bytes
