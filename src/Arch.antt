-- ===== src/Arch.antt =====
-- crates/delink-arch/src/lib.rs: the architectures and ELF classes, and the entry sizes that follow.
use delink.Prelude.{ℕ, Bool, true, false, Option, none, some, ◌==◌, if◌then◌else◌}

pub data Arch : Type 0 where
  aarch64 arm : Arch

pub data ElfClass : Type 0 where
  elf32 elf64 : ElfClass

unfoldable pub uses_rela : Arch → Bool
uses_rela aarch64 = true
uses_rela arm = false

unfoldable pub from_elf_machine : ℕ → Option Arch
from_elf_machine e_machine =
    if e_machine == 0xb7 then some aarch64 else if e_machine == 0x28 then some arm else none

-- Natural pointer width in bytes.
unfoldable pub arch_pointer_size : Arch → ℕ
arch_pointer_size aarch64 = 8
arch_pointer_size arm = 4

unfoldable pub class_pointer_size : ElfClass → ℕ
class_pointer_size elf32 = 4
class_pointer_size elf64 = 8

unfoldable pub rel_entsize : ElfClass → ℕ
rel_entsize elf32 = 8
rel_entsize elf64 = 16

unfoldable pub rela_entsize : ElfClass → ℕ
rela_entsize elf32 = 12
rela_entsize elf64 = 24

unfoldable pub sym_entsize : ElfClass → ℕ
sym_entsize elf32 = 16
sym_entsize elf64 = 24
