-- ===== src/Symbols/Dynamic/Slots.antt =====
-- crates/delink-core/src/symbols.rs, `build_got_maps`: what is known of a slot of the GOT.
use delink.Prelude.{
  ℕ, ◌≡◌, refl, ◌∙◌, Option, none, some, List, [], ◌∷◌, ◌==◌, if◌then◌else◌, or_else, arith,
}
use delink.Prelude.Text.{Str}
use delink.Prelude.Eq.{nat_eq}
use delink.Prelude.Words.{as_u64}
use delink.Collections.HashMap
use delink.Collections.HashMap.{HashMap, get-insert}
use delink.Arch.{Arch}
use delink.Symbols.Dynamic.{
  DynReloc, is_empty, is_relative_reloc, add_name, add_local, build_got_maps_from, build_got_maps,
}

-- The answer of the last relocation that has one.
abbrev pub last_of {ℓ} : {V : Type ℓ} → (DynReloc → Option V) → List DynReloc → Option V
last_of f [] = none
last_of f (r ∷ rels) = or_else (last_of f rels) (f r)

-- The name that a relocation gives a slot.
abbrev pub name_for : ℕ → DynReloc → Option Str
name_for slot r =
    if is_empty r.sym_name then none else if slot == r.r_offset then some r.sym_name else none

-- The address that a relative relocation puts into a slot.
abbrev pub local_for : Arch → ℕ → DynReloc → Option ℕ
local_for arch slot r =
    if is_empty r.sym_name
    then if is_relative_reloc arch r.r_type
      then if slot == r.r_offset then some (as_u64 r.r_addend) else none
      else none
    else none

pub or_else_assoc {ℓ} :
    {V : Type ℓ} (a b c : Option V) → or_else (or_else a b) c ≡ or_else a (or_else b c)
or_else_assoc none b c = refl
or_else_assoc (some a) b c = refl

pub get-add_name :
    (slot : ℕ) (r : DynReloc) (named : HashMap ℕ Str)
    → HashMap.get slot (add_name r named) ≡ or_else (name_for slot r) (HashMap.get slot named)
unfolding add_name
get-add_name slot r named = ground (arith, get-insert slot r.r_offset r.sym_name named)

get-add_local :
    (arch : Arch) (slot : ℕ) (r : DynReloc) (local : HashMap ℕ ℕ)
    → HashMap.get slot (add_local arch r local)
      ≡ or_else (local_for arch slot r) (HashMap.get slot local)
unfolding add_local
get-add_local arch slot r local =
    ground (arith, get-insert slot r.r_offset (as_u64 r.r_addend) local)

named_from :
    (arch : Arch) (slot : ℕ) (rels : List DynReloc) (named : HashMap ℕ Str) (local : HashMap ℕ ℕ)
    → HashMap.get slot (build_got_maps_from arch rels named local).0
      ≡ or_else (last_of (name_for slot) rels) (HashMap.get slot named)
unfolding build_got_maps_from
named_from arch slot [] named local = refl
named_from arch slot (r ∷ rels) named local =
    named_from arch slot rels (add_name r named) (add_local arch r local)
    ∙ rw (
      get-add_name slot r named,
      or_else_assoc (last_of (name_for slot) rels) (name_for slot r) (HashMap.get slot named),
    )

local_from :
    (arch : Arch) (slot : ℕ) (rels : List DynReloc) (named : HashMap ℕ Str) (local : HashMap ℕ ℕ)
    → HashMap.get slot (build_got_maps_from arch rels named local).1
      ≡ or_else (last_of (local_for arch slot) rels) (HashMap.get slot local)
unfolding build_got_maps_from
local_from arch slot [] named local = refl
local_from arch slot (r ∷ rels) named local =
    local_from arch slot rels (add_name r named) (add_local arch r local)
    ∙ rw (
      get-add_local arch slot r local,
      or_else_assoc (last_of (local_for arch slot) rels) (local_for arch slot r)
          (HashMap.get slot local),
    )

pub or_else-none {ℓ} : {V : Type ℓ} (a : Option V) → or_else a none ≡ a
or_else-none none = refl
or_else-none (some a) = refl

-- What the table knows of a slot: its name is that of the last dynamic relocation of the slot that
-- has a name, and its module-local address is the addend of the last relative relocation of the slot
-- without a name. It knows nothing of the slots of no such relocation.
pub build_got_maps_lem :
    (arch : Arch) (rels : List DynReloc) (slot : ℕ)
    → (HashMap.get slot (build_got_maps arch rels).0 ≡ last_of (name_for slot) rels)
      × (HashMap.get slot (build_got_maps arch rels).1 ≡ last_of (local_for arch slot) rels)
unfolding build_got_maps HashMap.get
build_got_maps_lem arch rels slot = (
  named_from arch slot rels [] [] ∙ or_else-none (last_of (name_for slot) rels),
  local_from arch slot rels [] [] ∙ or_else-none (last_of (local_for arch slot) rels),
)
