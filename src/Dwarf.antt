-- ===== src/Dwarf.antt =====
-- crates/delink-emit/src/dwarf_relocs.rs: the data of the DWARF pass, and what it reads and resolves.
pub mod Leb
pub mod Forms
pub mod Abbrevs
pub mod Info
pub mod Line
pub mod Ranges
pub mod Restores
mod Tests
use delink.Prelude.{
  ℕ, ◌+◌, ◌-◌, Bool, Option, none, some, List, [], ◌∷◌, ◌++◌, take, drop, length, ltb, leb, ◌==◌,
  if◌then◌else◌,
}
use delink.Prelude.Text.{Str, codes}
use delink.Prelude.Bytes.{from_le_bytes}
use delink.Prelude.Int.{ℤ, pos}
use delink.Prelude.Words.{add_u64, as_i64}
use delink.Collections.BTreeMap
use delink.Symbols.{GlobalSymbols, FunctionRef, export_name}

-- The errors that the scanners return, one for each message.
pub data DwarfError : Type 0 where
  bad_cu_header bad_line_header bad_code unknown_code unknown_form : DwarfError
  bad_abbrev_code bad_abbrev_tag no_children_flag bad_abbrev_attr bad_abbrev_form : DwarfError
  bad_implicit_const bad_extended_length bad_operand : DwarfError

-- `Ok`, `Err`, a panic of an index that is out of bounds, or no end within the fuel.
pub data Outcome {ℓ} (A : Type ℓ) : Type ℓ where
  done : A → Outcome A
  failed : DwarfError → Outcome A
  panicked : Outcome A
  out_of_fuel : Outcome A

infixl 5 ◌>>=◌
abbrev pub ◌>>=◌ {ℓ κ} : {A : Type ℓ} {B : Type κ} → Outcome A → (A → Outcome B) → Outcome B
done a >>= f = f a
failed e >>= f = failed e
panicked >>= f = panicked
out_of_fuel >>= f = out_of_fuel

-- `ok_or_else(|| anyhow!(..))?`
abbrev pub or_fail {ℓ} : {A : Type ℓ} → DwarfError → Option A → Outcome A
or_fail e (some a) = done a
or_fail e none = failed e

-- What an index gives, or its panic.
abbrev pub or_panic {ℓ} : {A : Type ℓ} → Option A → Outcome A
or_panic (some a) = done a
or_panic none = panicked

pub data DwarfReloc : Type 0 where
  abs64 : (offset : ℕ) (symbol : Str) (addend : ℤ) → DwarfReloc
  abs32 : (offset : ℕ) (symbol : Str) (addend : ℤ) → DwarfReloc

-- The start of `.debug_str` in the object that shares it.
abbrev pub sym_debug_str_start : Str
sym_debug_str_start = codes "__delink_debug_str_start"

pub record DwarfRelocDiag : Type 0 where
  pub low_pc_resolved : ℕ
  pub low_pc_missing : ℕ
  pub strp_emitted : ℕ
  pub set_address_resolved : ℕ
  pub set_address_missing : ℕ
  pub dies_walked : ℕ
  pub unknown_forms : ℕ
  pub range_pairs_resolved : ℕ
  pub range_pairs_missing : ℕ
  pub loc_pairs_resolved : ℕ
  pub loc_pairs_missing : ℕ

abbrev pub default_diag : DwarfRelocDiag
default_diag = record {
  low_pc_resolved = 0;
  low_pc_missing = 0;
  strp_emitted = 0;
  set_address_resolved = 0;
  set_address_missing = 0;
  dies_walked = 0;
  unknown_forms = 0;
  range_pairs_resolved = 0;
  range_pairs_missing = 0;
  loc_pairs_resolved = 0;
  loc_pairs_missing = 0;
}

-- The vector of relocations and the counters, as the loops pass them on.
pub record Output : Type 0 where
  pub relocs : List DwarfReloc
  pub diag : DwarfRelocDiag

abbrev pub empty_output : Output
empty_output = record { relocs = []; diag = default_diag }

abbrev pub push : DwarfReloc → Output → Output
push r out = record out { relocs = out.relocs ++ (r ∷ []) }

-- `&slice[cursor..]`, which panics beyond the end.
abbrev pub tail_from : ℕ → List ℕ → Option (List ℕ)
tail_from cursor slice = if leb cursor (length slice) then some (drop cursor slice) else none

-- `uN::from_le_bytes(bytes[0..n])`, which panics on too few bytes.
unfoldable pub read_word : ℕ → List ℕ → Option ℕ
unfolding from_le_bytes
read_word n bytes = if leb n (length bytes) then some (from_le_bytes (take n bytes)) else none

unfoldable pub read_addr : List ℕ → ℕ → Option ℕ
read_addr bytes size =
    if size == 4 then read_word 4 bytes else if size == 8 then read_word 8 bytes else some 0

unfoldable pub read_offset : List ℕ → ℕ → Option ℕ
read_offset bytes size =
    if size == 4 then read_word 4 bytes else if size == 8 then read_word 8 bytes else some 0

-- The function whose start is the greatest at or below `addr`, if `addr` passes the test on its end.
interior : (ℕ → ℕ → Bool) → GlobalSymbols → ℕ → Option (Str × ℤ)
interior test s addr = elim (BTreeMap.floor addr s.functions) [
  | none ↦ none
  | some (start, f) ↦
      if test addr (add_u64 start f.size) then some (export_name f, as_i64 (addr - start)) else none
]

unfoldable pub resolve_addr : GlobalSymbols → ℕ → Option (Str × ℤ)
unfolding interior
resolve_addr s addr = elim (BTreeMap.get addr s.functions) [
  | some f ↦ some (export_name f, pos 0)
  | none ↦ interior ltb s addr
]

-- An end of a range may be one past the last byte of its function.
unfoldable pub resolve_addr_including_end : GlobalSymbols → ℕ → Option (Str × ℤ)
unfolding interior
resolve_addr_including_end s addr = elim (BTreeMap.get addr s.functions) [
  | some f ↦ some (export_name f, pos 0)
  | none ↦ interior leb s addr
]
