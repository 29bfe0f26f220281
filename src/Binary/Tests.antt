-- ===== src/Binary/Tests.antt =====
-- crates/delink-core/src/binary.rs: the checks of `Binary::load` on concrete headers.
use delink.Prelude.{ℕ, ◌≡◌, ◌↔◌, inl, inr, refl, List, [], ◌∷◌, ◌++◌}
use delink.Arch.{Arch, ElfClass}
use delink.Binary.Load.{LoadError, load_checks, load_checks_iff, IsAccepted}

-- The first 24 bytes of a file, with the class, the byte order, the type and the machine.
abbrev header : (class order type machine : ℕ) → List ℕ
header class order type machine =
    (0x7f ∷ 0x45 ∷ 0x4c ∷ 0x46 ∷ class ∷ order ∷ 1 ∷ 0 ∷ [])
    ++ (0 ∷ 0 ∷ 0 ∷ 0 ∷ 0 ∷ 0 ∷ 0 ∷ 0 ∷ type ∷ 0 ∷ machine ∷ 0 ∷ 1 ∷ 0 ∷ 0 ∷ 0 ∷ [])

aarch64_passes : load_checks (header 2 1 3 0xb7) ≡ inr (Arch.aarch64, ElfClass.elf64)
unfolding load_checks
aarch64_passes = refl

arm_in_elf64 : load_checks (header 2 1 3 0x28) ≡ inl LoadError.unpaired
unfolding load_checks
arm_in_elf64 = refl

executable : load_checks (header 2 1 2 0xb7) ≡ inl (LoadError.not_dyn 2)
unfolding load_checks
executable = refl

big_endian_first : load_checks (header 2 2 2 0xb7) ≡ inl LoadError.big_endian
unfolding load_checks
big_endian_first = refl

load_checks_iff_example :
    (load_checks (header 2 1 3 0xb7) ≡ inr (Arch.aarch64, ElfClass.elf64))
    ↔ IsAccepted (header 2 1 3 0xb7) Arch.aarch64 ElfClass.elf64
load_checks_iff_example = load_checks_iff (header 2 1 3 0xb7) Arch.aarch64 ElfClass.elf64
