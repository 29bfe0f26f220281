-- ===== src/Dwarf/Restores.antt =====
-- crates/delink-emit/src/dwarf_relocs.rs: what a relocation of a DWARF section has to mean. At the
-- original layout its symbol and its addend give back the number that stands in the section.
use delink.Prelude.{
  ℕ, ◌-◌, ◌≤◌, ◌<◌, ◌^◌, ◌≡◌, inl, inr, Option, some, List, [], ◌∷◌, take, drop, length-take, ltb,
  leb, arith, All, All-append, Bool, Bool-cases, Option-cases,
}
use delink.Prelude.Text.{Str}
use delink.Prelude.Int.{ℤ, pos, ◌+ℤ◌}
use delink.Prelude.Bytes.{from_le_bytes-lt_width, All-take}
use delink.Prelude.Words.{IsByte, IsU64, add_u64, as_u64, as_i64}
use delink.Collections.BTreeMap
use delink.Collections.BTreeMap.{IsOrdered, floor_sound}
use delink.Symbols.{GlobalSymbols, FunctionRef, export_name}
use delink.Symbols.Sound.{reaches_offset, reaches_self}
use delink.Dwarf.{
  DwarfReloc, Output, push, read_word, read_addr, read_offset, interior, resolve_addr,
  resolve_addr_including_end, sym_debug_str_start,
}
use delink.Dwarf.DwarfReloc.{abs64, abs32}

-- The name is that of a function, and its start plus the addend is the address.
pub record Reaches (s : GlobalSymbols) (name : Str) (addend : ℤ) (addr : ℕ) : Type 0 where
  pub start : ℕ
  pub function : FunctionRef
  pub is_there : BTreeMap.get start s.functions ≡ some function
  pub is_named : name ≡ export_name function
  pub reaches : as_u64 (pos start +ℤ addend) ≡ addr

-- The field that the relocation patches holds what the relocation computes.
abbrev pub Restores : GlobalSymbols → List ℕ → (addr_size offset_size : ℕ) → DwarfReloc → Type 0
Restores s section addr_size offset_size (abs64 offset name addend) =
    (addr : ℕ) × (read_addr (drop offset section) addr_size ≡ some addr)
    × Reaches s name addend addr
Restores s section addr_size offset_size (abs32 offset name addend) =
    (orig : ℕ) × (read_offset (drop offset section) offset_size ≡ some orig)
    × (name ≡ sym_debug_str_start)
    × (as_u64 addend ≡ orig)

read_word-lt :
    (n : ℕ) (bytes : List ℕ) (v : ℕ)
    → n ≤ 8
    → All IsByte bytes
    → read_word n bytes ≡ some v
    → v < 2 ^ 64
unfolding read_word
read_word-lt n bytes v le all h = ground (
  arith,
  from_le_bytes-lt_width 8 (take n bytes) (All-take IsByte n bytes all),
  length-take n bytes,
)

pub read_addr-lt :
    (bytes : List ℕ) (size v : ℕ) → All IsByte bytes → read_addr bytes size ≡ some v → v < 2 ^ 64
unfolding read_addr
read_addr-lt bytes size v all h = ground (arith, read_word-lt 4 bytes v, read_word-lt 8 bytes v)

pub read_offset-lt :
    (bytes : List ℕ) (size v : ℕ) → All IsByte bytes → read_offset bytes size ≡ some v → v < 2 ^ 64
unfolding read_offset
read_offset-lt bytes size v all h = ground (arith, read_word-lt 4 bytes v, read_word-lt 8 bytes v)

module _ (s : GlobalSymbols) (ordered : IsOrdered s.functions) (addr : ℕ) (fits : IsU64 addr)
    (name : Str) (addend : ℤ) where
  -- The test on the end plays no part: the floor of the address is enough.
  interior_sound :
      (test : ℕ → ℕ → Bool)
      → interior test s addr ≡ some (name, addend)
      → Reaches s name addend addr
  unfolding interior
  interior_sound test h = elim (Option-cases (BTreeMap.floor addr s.functions)) [
    | inl none' ↦ let h' = rw (none', interior) at h in cc
    | inr ((start, f), found) ↦ elim (Bool-cases (test addr (add_u64 start f.size))) [
      | inr outside ↦ let h' = rw (found, outside, interior) at h in cc
      | inl inside ↦
          let h' = rw (found, inside, interior) at h in
          let (le, there) = floor_sound addr s.functions start f ordered found in
          let named : name ≡ export_name f = cc in
          let offset : as_i64 (addr - start) ≡ addend = cc in
          record {
            start = start;
            function = f;
            is_there = there;
            is_named = named;
            reaches = rw offset at (reaches_offset start addr fits le);
          }
    ]
  ]

  -- A function that starts at the address.
  at_start :
      (f : FunctionRef)
      → BTreeMap.get addr s.functions ≡ some f
      → ◌≡◌ {A = Option (Str × ℤ)} (some (export_name f, pos 0)) (some (name, addend))
      → Reaches s name addend addr
  at_start f there h =
      let zero' : pos 0 ≡ addend = cc in
      record {
        start = addr;
        function = f;
        is_there = there;
        is_named = cc;
        reaches = rw zero' at (reaches_self addr fits);
      }

  pub resolve_addr_sound : resolve_addr s addr ≡ some (name, addend) → Reaches s name addend addr
  unfolding resolve_addr
  resolve_addr_sound h = elim (Option-cases (BTreeMap.get addr s.functions)) [
    | inl none' ↦ interior_sound ltb (rw (none', resolve_addr) at h)
    | inr (f, found) ↦ at_start f found (rw (found, resolve_addr) at h)
  ]

  pub resolve_addr_including_end_sound :
      resolve_addr_including_end s addr ≡ some (name, addend) → Reaches s name addend addr
  unfolding resolve_addr_including_end
  resolve_addr_including_end_sound h = elim (Option-cases (BTreeMap.get addr s.functions)) [
    | inl none' ↦ interior_sound leb (rw (none', resolve_addr_including_end) at h)
    | inr (f, found) ↦ at_start f found (rw (found, resolve_addr_including_end) at h)
  ]

-- All relocations of an output restore their fields.
abbrev pub AllRestore : GlobalSymbols → List ℕ → (addr_size offset_size : ℕ) → Output → Type 0
AllRestore s section addr_size offset_size out =
    All (Restores s section addr_size offset_size) out.relocs

pub push-AllRestore :
    (s : GlobalSymbols) (section : List ℕ) (addr_size offset_size : ℕ) (r : DwarfReloc)
    (out : Output)
    → Restores s section addr_size offset_size r
    → AllRestore s section addr_size offset_size out
    → AllRestore s section addr_size offset_size (push r out)
push-AllRestore s section a o r out here before =
    All-append (Restores s section a o) out.relocs (r ∷ []) before (here, tt)
