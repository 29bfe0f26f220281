-- ===== src/Symbols/Sound.antt =====
-- What a resolution means: the symbol that it names stands at a base address, and base and addend
-- give back the address that was asked for.
use delink.Prelude.{
  ap, ◌∙◌, ℕ, ◌-◌, ◌≤◌, ◌≡◌, refl, ◌⊎◌, inl, inr, Option, none, some, arith, ltb, Range, contains,
  Option-cases, Bool-cases, subst, or_else,
}
use delink.Prelude.Text.{Str}
use delink.Prelude.Eq.{nat_eq}
use delink.Prelude.Int.{pos, ◌+ℤ◌}
use delink.Prelude.Words.{IsU64, as_i64, as_u64, as_u64-as_i64, as_u64-add, add_u64}
use delink.Collections.BTreeMap
use delink.Collections.BTreeMap.{IsOrdered, floor_sound}
use delink.Collections.HashMap
use delink.Symbols.{
  GlobalSymbols, FunctionRef, VariableRef, export_name, variable_export_name, DataResolution,
  DataSource, section_hit, section_relative, resolve_slot_or_section, resolve_interior,
  resolve_data, resolve_got_slot, sym_rodata_start, sym_data_start, sym_bss_start,
  sym_data_rel_ro_start, sym_data_rel_ro_local_start,
}

-- The section-start symbols stand at the start of their sections.
pub data SectionStart (s : GlobalSymbols) (name : Str) (r : Range) : Type 0 where
  rodata : s.rodata_range ≡ some r → name ≡ sym_rodata_start → SectionStart s name r
  data_section : s.data_range ≡ some r → name ≡ sym_data_start → SectionStart s name r
  bss : s.bss_range ≡ some r → name ≡ sym_bss_start → SectionStart s name r
  data_rel_ro : s.data_rel_ro_range ≡ some r → name ≡ sym_data_rel_ro_start → SectionStart s name r
  data_rel_ro_local :
      s.data_rel_ro_local_range ≡ some r
      → name ≡ sym_data_rel_ro_local_start
      → SectionStart s name r

-- `name` stands for the address `base`: as a definition, as the slot that holds its address, or
-- as the start of a section.
abbrev pub StandsAt : GlobalSymbols → DataSource → Str → ℕ → Type 0
StandsAt s DataSource.function name base =
    (f : FunctionRef) × (BTreeMap.get base s.functions ≡ some f) × (name ≡ export_name f)
StandsAt s DataSource.variable name base =
    (v : VariableRef) × (BTreeMap.get base s.variables ≡ some v) × (name ≡ variable_export_name v)
StandsAt s DataSource.got_slot name base = HashMap.get base s.got ≡ some name
StandsAt s DataSource.section_relative name base =
    (r : Range) × SectionStart s name r × (base ≡ r.start)

-- Symbol plus addend, as the linker adds them, is the address.
pub record Denotes (s : GlobalSymbols) (r : DataResolution) (addr : ℕ) : Type 0 where
  pub base : ℕ
  pub stands : StandsAt s r.source r.symbol base
  pub reaches : as_u64 (pos base +ℤ r.addend) ≡ addr

pub record IsOrderedTable (s : GlobalSymbols) : Type 0 where
  pub functions_ordered : IsOrdered s.functions
  pub variables_ordered : IsOrdered s.variables

-- An offset that is carried as an i64 leads back.
pub reaches_offset :
    (base addr : ℕ) → IsU64 addr → base ≤ addr → as_u64 (pos base +ℤ as_i64 (addr - base)) ≡ addr
reaches_offset base addr h le =
    rw (as_u64-add, as_u64-as_i64 (addr - base) (omega arith)) (unfold as_u64 in omega arith)

pub reaches_self : (addr : ℕ) → IsU64 addr → as_u64 (pos addr +ℤ pos 0) ≡ addr
reaches_self addr h = rw as_u64-add (unfold as_u64 in omega arith)

-- A hit in one section.
section_hit_sound :
    (s : GlobalSymbols) (addr : ℕ) (o : Option Range) (name : Str) (d : DataResolution)
    → IsU64 addr
    → ((r : Range) → o ≡ some r → SectionStart s name r)
    → section_hit addr o name ≡ some d
    → Denotes s d addr
unfolding section_hit
section_hit_sound s addr none name d h start e = cc
section_hit_sound s addr (some r) name d h start e = elim (Bool-cases (contains r addr)) [
  | inl inside ↦
      let e' : DataResolution = record {
        symbol = name;
        addend = as_i64 (addr - r.start);
        source = DataSource.section_relative;
      } in
      let le : r.start ≤ addr = ground arith in
      let same : e' ≡ d = ground arith in
      subst (λ x. Denotes s x addr) same
        (record {
          base = r.start;
          stands = (r, start r refl, refl);
          reaches = reaches_offset r.start addr h le;
        })
  | inr outside ↦ ground arith
]

or_else_cases :
    (a b : Option DataResolution) (d : DataResolution)
    → or_else a b ≡ some d
    → (a ≡ some d) ⊎ (b ≡ some d)
or_else_cases (some a) b d e = inl e
or_else_cases none b d e = inr e

section_relative_sound :
    (s : GlobalSymbols) (addr : ℕ) (d : DataResolution)
    → IsU64 addr
    → section_relative s addr ≡ some d
    → Denotes s d addr
unfolding section_relative
section_relative_sound s addr d h e = elim (or_else_cases _ _ d e) [
  | inl a ↦ section_hit_sound s addr _ _ d h (λ r q. rodata q refl) a
  | inr e ↦ elim (or_else_cases _ _ d e) [
    | inl a ↦ section_hit_sound s addr _ _ d h (λ r q. data_section q refl) a
    | inr e ↦ elim (or_else_cases _ _ d e) [
      | inl a ↦ section_hit_sound s addr _ _ d h (λ r q. bss q refl) a
      | inr e ↦ elim (or_else_cases _ _ d e) [
        | inl a ↦ section_hit_sound s addr _ _ d h (λ r q. data_rel_ro q refl) a
        | inr b ↦ section_hit_sound s addr _ _ d h (λ r q. data_rel_ro_local q refl) b
      ]
    ]
  ]
]

slot_sound :
    (s : GlobalSymbols) (addr : ℕ) (name : Str)
    → IsU64 addr
    → HashMap.get addr s.got ≡ some name
    → Denotes s (record { symbol = name; addend = pos 0; source = DataSource.got_slot }) addr
slot_sound s addr name h e = record { base = addr; stands = e; reaches = reaches_self addr h }

resolve_slot_or_section_sound :
    (s : GlobalSymbols) (addr : ℕ) (d : DataResolution)
    → IsU64 addr
    → resolve_slot_or_section s addr ≡ some d
    → Denotes s d addr
unfolding resolve_slot_or_section
resolve_slot_or_section_sound s addr d h e = elim (Option-cases (HashMap.get addr s.got)) [
  | inl absent ↦ section_relative_sound s addr d h (ground arith)
  | inr (name, found) ↦
      subst (λ x. Denotes s x addr) (ground arith) (slot_sound s addr name h found)
]

resolve_interior_sound :
    (s : GlobalSymbols) (addr : ℕ) (d : DataResolution)
    → IsOrdered s.functions
    → IsU64 addr
    → resolve_interior s addr ≡ some d
    → Denotes s d addr
unfolding resolve_interior
resolve_interior_sound s addr d o h e = elim (Option-cases (BTreeMap.floor addr s.functions)) [
  | inl absent ↦ resolve_slot_or_section_sound s addr d h (ground arith)
  | inr ((start, f), found) ↦
      let (le, there) = floor_sound addr s.functions start f o found in
      elim (Bool-cases (ltb addr (add_u64 start f.size))) [
        | inl inside ↦
            let here : Denotes s
                (record {
                  symbol = export_name f;
                  addend = as_i64 (addr - start);
                  source = DataSource.function;
                })
                addr =
              record {
                base = start;
                stands = (f, there, refl);
                reaches = reaches_offset start addr h le;
              } in
            subst (λ x. Denotes s x addr) (ground arith) here
        | inr outside ↦ resolve_slot_or_section_sound s addr d h (ground arith)
      ]
]

-- Whatever `resolve_data` returns for an address, the symbol stands at some base of the kind that
-- it says, and base plus addend is the address.
pub resolve_data_sound :
    (s : GlobalSymbols) (addr : ℕ) (d : DataResolution)
    → IsOrderedTable s
    → IsU64 addr
    → resolve_data s addr ≡ some d
    → Denotes s d addr
unfolding resolve_data
resolve_data_sound s addr d o h e = elim (Option-cases (BTreeMap.get addr s.variables)) [
  | inr (v, found) ↦
      let here : Denotes s
          (record { symbol = variable_export_name v; addend = pos 0; source = DataSource.variable })
          addr =
        record { base = addr; stands = (v, found, refl); reaches = reaches_self addr h } in
      subst (λ x. Denotes s x addr) (ground arith) here
  | inl absent ↦ elim (Option-cases (BTreeMap.get addr s.functions)) [
    | inr (f, found) ↦
        let here : Denotes s
            (record { symbol = export_name f; addend = pos 0; source = DataSource.function }) addr =
          record { base = addr; stands = (f, found, refl); reaches = reaches_self addr h } in
        subst (λ x. Denotes s x addr) (ground arith) here
    | inl missing ↦ resolve_interior_sound s addr d o.functions_ordered h (ground arith)
  ]
]

pub resolve_got_slot_sound :
    (s : GlobalSymbols) (slot : ℕ) (d : DataResolution)
    → IsOrderedTable s
    → ((target : ℕ) → HashMap.get slot s.got_local ≡ some target → IsU64 target)
    → resolve_got_slot s slot ≡ some d
    → ((HashMap.get slot s.got ≡ some d.symbol)
        × (d.addend ≡ pos 0)
        × (d.source ≡ DataSource.got_slot))
      ⊎ ((target : ℕ) × (HashMap.get slot s.got ≡ none)
          × (HashMap.get slot s.got_local ≡ some target)
          × Denotes s d target)
unfolding resolve_got_slot
resolve_got_slot_sound s slot d o hl e = elim (Option-cases (HashMap.get slot s.got)) [
  | inr (name, found) ↦
      let same : name ≡ d.symbol = ground arith in
      inl (found ∙ ap some same, ground arith, ground arith)
  | inl absent ↦ elim (Option-cases (HashMap.get slot s.got_local)) [
    | inl missing ↦ ground arith
    | inr (target, found) ↦
        inr
          (target, absent, found, resolve_data_sound s target d o (hl target found) (ground arith))
  ]
]
