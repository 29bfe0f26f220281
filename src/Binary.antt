-- ===== src/Binary.antt =====
-- crates/delink-core/src/binary.rs: which files are taken, and the word at an address of one.
--
-- The sections are what the object crate tells of a file.
pub mod Load
mod Tests
use delink.Prelude.{
  ℕ, ◌+◌, ◌-◌, Bool, true, false, ◌&&◌, Option, none, some, List, [], ◌∷◌, get_elem?, take, drop,
  length, ltb, leb, ◌==◌, if◌then◌else◌,
}
use delink.Prelude.Text.{Str}
use delink.Prelude.Bytes.{slice, from_le_bytes}
use delink.Prelude.Words.{add_u64, sub_u64}
use delink.Arch.{Arch, ElfClass}

-- A section: `section_data` is `none` where the object crate cannot read it.
pub record ElfSection : Type 0 where
  pub address : ℕ
  pub size : ℕ
  pub section_data : Option (List ℕ)

pub record Binary : Type 0 where
  pub sections : List ElfSection
  pub section_by_name : Str → Option ElfSection
  pub arch : Arch
  pub class : ElfClass

-- The first section that the address lies in, with its start.
unfoldable pub section_data_at : List ElfSection → ℕ → Option (ℕ × List ℕ)
section_data_at [] addr = none
section_data_at (s ∷ sections) addr =
    let rest = section_data_at sections addr in
    let here : Option (ℕ × List ℕ) = elim (s.section_data) [
      | none ↦ none
      | some bytes ↦ some (s.address, bytes)
    ] in
    if s.address == 0
    then rest
    else if leb s.address addr && ltb addr (add_u64 s.address s.size)
    then here
    else rest

-- `uN::from_le_bytes(data.get(off..off + n)?)`
unfoldable pub word_at_offset : ElfClass → List ℕ → ℕ → Option ℕ
unfolding slice from_le_bytes
word_at_offset ElfClass.elf32 bytes off = elim (slice bytes off (off + 4)) [
  | none ↦ none
  | some w ↦ some (from_le_bytes w)
]
word_at_offset ElfClass.elf64 bytes off = elim (slice bytes off (off + 8)) [
  | none ↦ none
  | some w ↦ some (from_le_bytes w)
]

unfoldable pub read_word_at : Binary → ℕ → Option ℕ
unfolding section_data_at word_at_offset
read_word_at binary addr = elim (section_data_at binary.sections addr) [
  | none ↦ none
  | some (start, bytes) ↦ word_at_offset binary.class bytes (addr - start)
]
