-- ===== src/Binary/Load.antt =====
-- crates/delink-core/src/binary.rs, `RawHeader::parse` and the checks of `Binary::load`.
use delink.Prelude.{
  ℕ, ◌+◌, ◌*◌, ◌≤◌, ◌≡◌, ◌⊎◌, inl, inr, refl, ap, ◌∙◌, ◌↔◌, Bool, true, false, ◌||◌, not, Option,
  none, some, List, [], ◌∷◌, take, length, get_or, ltb, ◌==◌, if◌then◌else◌, arith, Bool-cases,
  Option-cases,
}
use delink.Prelude.Eq.{str_eq, str_eq_iff}
use delink.Arch.{Arch, ElfClass, from_elf_machine}

pub data LoadError : Type 0 where
  not_elf big_endian unpaired : LoadError
  unknown_class not_dyn unsupported_machine : ℕ → LoadError

pub record RawHeader : Type 0 where
  pub class : ElfClass
  pub little_endian : Bool
  pub e_type : ℕ
  pub e_machine : ℕ

-- `[0x7f, b'E', b'L', b'F']`
abbrev pub elf_magic : List ℕ
elf_magic = 0x7f ∷ 0x45 ∷ 0x4c ∷ 0x46 ∷ []

unfoldable pub class_of : ℕ → Option ElfClass
class_of b = if b == 1 then some ElfClass.elf32 else if b == 2 then some ElfClass.elf64 else none

-- The closure `read_u16`, in the byte order of the file.
unfoldable pub read_u16 : Bool → List ℕ → ℕ → ℕ
read_u16 little_endian bytes off =
    let low = get_or bytes off 0 in
    let high = get_or bytes (off + 1) 0 in
    if little_endian then low + 256 * high else high + 256 * low

unfoldable pub parse_raw_header : List ℕ → LoadError ⊎ RawHeader
unfolding str_eq class_of read_u16
parse_raw_header bytes =
    let little_endian = get_or bytes 5 0 == 1 in
    let parsed : LoadError ⊎ RawHeader = elim (class_of (get_or bytes 4 0)) [
      | none ↦ inl (unknown_class (get_or bytes 4 0))
      | some class ↦ inr (record {
        class = class;
        little_endian = little_endian;
        e_type = read_u16 little_endian bytes 16;
        e_machine = read_u16 little_endian bytes 18;
      })
    ] in
    if ltb (length bytes) 24 || not (str_eq (take 4 bytes) elf_magic) then inl not_elf else parsed

-- `ET_DYN` of the ELF format.
abbrev pub et_dyn : ℕ
et_dyn = 3

-- AArch64 comes in ELF64 and ARM in ELF32.
unfoldable pub is_paired : Arch → ElfClass → Bool
is_paired Arch.aarch64 ElfClass.elf64 = true
is_paired Arch.arm ElfClass.elf32 = true
is_paired Arch.aarch64 ElfClass.elf32 = false
is_paired Arch.arm ElfClass.elf64 = false

-- The checks on the header, in their order.
unfoldable pub check_header : RawHeader → LoadError ⊎ (Arch × ElfClass)
unfolding from_elf_machine is_paired
check_header raw =
    let paired : LoadError ⊎ (Arch × ElfClass) = elim (from_elf_machine raw.e_machine) [
      | none ↦ inl (unsupported_machine raw.e_machine)
      | some arch ↦ if is_paired arch raw.class then inr (arch, raw.class) else inl unpaired
    ] in
    if not raw.little_endian
    then inl big_endian
    else if not (raw.e_type == et_dyn)
    then inl (not_dyn raw.e_type)
    else paired

-- The architecture and the class of a file that `Binary::load` goes on to parse.
unfoldable pub load_checks : List ℕ → LoadError ⊎ (Arch × ElfClass)
unfolding parse_raw_header check_header
load_checks bytes = elim (parse_raw_header bytes) [ inl e ↦ inl e | inr raw ↦ check_header raw ]

-- A little-endian ELF shared object of a class, for a machine.
pub record IsSharedObject (bytes : List ℕ) (class_byte machine : ℕ) : Type 0 where
  pub is_long : 24 ≤ length bytes
  pub has_magic : take 4 bytes ≡ elf_magic
  pub has_class : get_or bytes 4 0 ≡ class_byte
  pub is_little : get_or bytes 5 0 ≡ 1
  pub is_dyn : get_or bytes 16 0 + 256 * get_or bytes 17 0 ≡ et_dyn
  pub has_machine : get_or bytes 18 0 + 256 * get_or bytes 19 0 ≡ machine

parse_raw_header_lem :
    (bytes : List ℕ) (raw : RawHeader)
    → parse_raw_header bytes ≡ inr raw
    → (24 ≤ length bytes)
      × (take 4 bytes ≡ elf_magic)
      × (class_of (get_or bytes 4 0) ≡ some raw.class)
      × (raw.little_endian ≡ (get_or bytes 5 0 == 1))
      × (raw.e_type ≡ read_u16 (get_or bytes 5 0 == 1) bytes 16)
      × (raw.e_machine ≡ read_u16 (get_or bytes 5 0 == 1) bytes 18)
unfolding parse_raw_header
parse_raw_header_lem bytes raw h = ground (arith, str_eq_iff (take 4 bytes) elf_magic)

-- What the checks accept, by architecture.
abbrev pub IsAccepted : List ℕ → Arch → ElfClass → Type 0
IsAccepted bytes Arch.aarch64 class = (class ≡ ElfClass.elf64) × IsSharedObject bytes 2 0xb7
IsAccepted bytes Arch.arm class = (class ≡ ElfClass.elf32) × IsSharedObject bytes 1 0x28

from_elf_machine_lem :
    (m : ℕ) (arch : Arch)
    → from_elf_machine m ≡ some arch
    → ((arch ≡ Arch.aarch64) × (m ≡ 0xb7)) ⊎ ((arch ≡ Arch.arm) × (m ≡ 0x28))
unfolding from_elf_machine
from_elf_machine_lem m arch h = elim (Bool-cases (m == 0xb7)) [
  | inl a ↦ inl (ground arith, ground arith)
  | inr other ↦ inr (ground arith, ground arith)
]

class_of_lem :
    (b : ℕ) (class : ElfClass)
    → class_of b ≡ some class
    → ((class ≡ ElfClass.elf32) × (b ≡ 1)) ⊎ ((class ≡ ElfClass.elf64) × (b ≡ 2))
unfolding class_of
class_of_lem b class h = elim (Bool-cases (b == 1)) [
  | inl a ↦ inl (ground arith, ground arith)
  | inr other ↦ inr (ground arith, ground arith)
]

-- The two that go together.
pair_up :
    (bytes : List ℕ) (arch : Arch) (class : ElfClass) (b m : ℕ)
    → is_paired arch class ≡ true
    → from_elf_machine m ≡ some arch
    → class_of b ≡ some class
    → IsSharedObject bytes b m
    → IsAccepted bytes arch class
unfolding is_paired
pair_up bytes arch class b m paired machine byte object =
    elim (from_elf_machine_lem m arch machine) [
      | inl (a, am) ↦ elim (class_of_lem b class byte) [
        | inl (c, cb) ↦ let h = rw (a, c, is_paired) at paired in cc
        | inr (c, cb) ↦ rw a (c, rw (cb, am) at object)
      ]
      | inr (a, am) ↦ elim (class_of_lem b class byte) [
        | inl (c, cb) ↦ rw a (c, rw (cb, am) at object)
        | inr (c, cb) ↦ let h = rw (a, c, is_paired) at paired in cc
      ]
    ]

check_header_lem :
    (raw : RawHeader) (arch : Arch) (class : ElfClass)
    → check_header raw ≡ inr (arch, class)
    → (raw.little_endian ≡ true)
      × (raw.e_type ≡ et_dyn)
      × (from_elf_machine raw.e_machine ≡ some arch)
      × (is_paired arch class ≡ true)
      × (raw.class ≡ class)
unfolding check_header
check_header_lem raw arch class h = elim (Option-cases (from_elf_machine raw.e_machine)) [
  | inl none' ↦ let h' = rw (none', check_header) at h in ground arith
  | inr (a, found) ↦ let h' = rw (found, check_header) at h in ground arith
]

load_checks_sound :
    (bytes : List ℕ) (arch : Arch) (class : ElfClass)
    → load_checks bytes ≡ inr (arch, class)
    → IsAccepted bytes arch class
unfolding load_checks
load_checks_sound bytes arch class h = accepted (parse_raw_header bytes) refl
  where
    accepted :
        (p : LoadError ⊎ RawHeader) → parse_raw_header bytes ≡ p → IsAccepted bytes arch class
    accepted (inl e) parsed = let h' = rw (parsed, load_checks) at h in cc
    accepted (inr raw) parsed =
        let (long, magic, byte, little, type, machine) = parse_raw_header_lem bytes raw parsed in
        let (is_little, dyn, known, paired, same) =
          check_header_lem raw arch class (rw (parsed, load_checks) at h) in
        let object : IsSharedObject bytes (get_or bytes 4 0) raw.e_machine =
          unfold read_u16 in
          record {
            is_long = long;
            has_magic = magic;
            has_class = refl;
            is_little = ground arith;
            is_dyn = ground arith;
            has_machine = ground arith;
          } in
        pair_up bytes arch class (get_or bytes 4 0) raw.e_machine paired known (byte ∙ ap some same)
          object

load_checks_complete :
    (bytes : List ℕ) (arch : Arch) (class : ElfClass)
    → IsAccepted bytes arch class
    → load_checks bytes ≡ inr (arch, class)
unfolding load_checks check_header parse_raw_header is_paired from_elf_machine class_of read_u16
load_checks_complete bytes Arch.aarch64 class (c, o) =
    ground (arith, str_eq_iff (take 4 bytes) elf_magic)
load_checks_complete bytes Arch.arm class (c, o) =
    ground (arith, str_eq_iff (take 4 bytes) elf_magic)

-- Exactly the little-endian ELF shared objects that are ELF64 for AArch64 or ELF32 for ARM pass the
-- checks of `Binary::load`, with that architecture and class.
pub load_checks_iff :
    (bytes : List ℕ) (arch : Arch) (class : ElfClass)
    → (load_checks bytes ≡ inr (arch, class)) ↔ IsAccepted bytes arch class
load_checks_iff bytes arch class =
    (load_checks_sound bytes arch class, load_checks_complete bytes arch class)
