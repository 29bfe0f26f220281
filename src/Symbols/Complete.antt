-- ===== src/Symbols/Complete.antt =====
-- Which addresses resolve: every address in a function body, in a data section, at a variable or
-- at a named slot.
use delink.Prelude.{
  ℕ, ◌+◌, ◌-◌, ◌<◌, ◌≤◌, ◌≡◌, refl, inl, inr, Option, none, some, true, false, arith, ◌^◌, [], ◌∷◌,
  ◌==◌, or_else, Range, in_range, Option-cases, Bool-cases, All,
}
use delink.Prelude.Text.{Str}
use delink.Prelude.Eq.{nat_eq}
use delink.Prelude.Words.{IsU64}
use delink.Collections.BTreeMap
use delink.Collections.BTreeMap.{BTreeMap, IsOrdered, floor}
use delink.Collections.HashMap
use delink.Symbols.{
  GlobalSymbols, FunctionRef, VariableRef, DataResolution, resolve_into, section_hit,
  section_relative, resolve_slot_or_section, resolve_interior, resolve_data,
}
use delink.Symbols.Sound.{IsOrderedTable, Denotes, resolve_data_sound}

-- Function bodies follow one another without overlap, and end inside the address space.
abbrev pub IsLaidOut : BTreeMap FunctionRef → Type 0
IsLaidOut [] = Unit
IsLaidOut ((start, f) ∷ m) =
    All (λ e. start + f.size ≤ e.0) m × (start + f.size < 2 ^ 64) × IsLaidOut m

floor_below :
    (t : ℕ) (b : ℕ) (m : BTreeMap FunctionRef) → All (λ e. b ≤ e.0) m → t < b → floor t m ≡ none
unfolding floor
floor_below t b [] a h = refl
floor_below t b ((j, v) ∷ m) a h = ground arith

key_above :
    (b j : ℕ) (m : BTreeMap FunctionRef) {v : FunctionRef}
    → All (λ e. b < e.0) m
    → BTreeMap.get j m ≡ some v
    → b < j
unfolding BTreeMap.get
key_above b j [] a h = cc
key_above b j ((i, w) ∷ m) {v} a h = ground (arith, key_above b j m {v = v} a.1)

-- `floor` finds the function whose body holds the address, and its end does not wrap.
floor_inside :
    (m : BTreeMap FunctionRef) (base t : ℕ) (f : FunctionRef)
    → IsOrdered m
    → IsLaidOut m
    → BTreeMap.get base m ≡ some f
    → base ≤ t
    → t < base + f.size
    → (floor t m ≡ some (base, f)) × (base + f.size < 2 ^ 64)
unfolding floor BTreeMap.get
floor_inside [] base t f o l h lo hi = cc
floor_inside ((j, g) ∷ m) base t f o l h lo hi = elim (Bool-cases (base == j)) [
  | inl here ↦
      let same : g ≡ f = ground arith in
      let none' : floor t m ≡ none = floor_below t (j + g.size) m l.0 (ground arith) in
      (ground arith, ground arith)
  | inr there ↦
      let later : BTreeMap.get base m ≡ some f = ground arith in
      let (found, fits) = floor_inside m base t f o.1 l.2 later lo hi in
      (ground (arith, key_above j base m {v = f} o.0 later), fits)
]

-- Every address in the body of a function resolves to that function, at its offset in the body.
pub resolve_into_complete :
    (s : GlobalSymbols) (base t : ℕ) (f : FunctionRef)
    → IsOrdered s.functions
    → IsLaidOut s.functions
    → BTreeMap.get base s.functions ≡ some f
    → base ≤ t
    → t < base + f.size
    → resolve_into s t ≡ some (f, t - base)
unfolding resolve_into
resolve_into_complete s base t f o l h lo hi =
    let (found, fits) = floor_inside s.functions base t f o l h lo hi in ground (arith, found, fits)

-- An address that the table knows something about.
pub data IsKnown (s : GlobalSymbols) (addr : ℕ) : Type 0 where
  at_variable : (v : VariableRef) → BTreeMap.get addr s.variables ≡ some v → IsKnown s addr
  at_slot : (name : Str) → HashMap.get addr s.got ≡ some name → IsKnown s addr
  in_function :
      (base : ℕ) (f : FunctionRef)
      → BTreeMap.get base s.functions ≡ some f
      → base ≤ addr
      → addr < base + f.size
      → IsKnown s addr
  in_rodata : in_range s.rodata_range addr ≡ true → IsKnown s addr
  in_data : in_range s.data_range addr ≡ true → IsKnown s addr
  in_bss : in_range s.bss_range addr ≡ true → IsKnown s addr
  in_data_rel_ro : in_range s.data_rel_ro_range addr ≡ true → IsKnown s addr
  in_data_rel_ro_local : in_range s.data_rel_ro_local_range addr ≡ true → IsKnown s addr

section_hit-none :
    (addr : ℕ) (o : Option Range) (name : Str)
    → section_hit addr o name ≡ none
    → in_range o addr ≡ false
unfolding section_hit
section_hit-none addr none name h = refl
section_hit-none addr (some r) name h = ground arith

or_else-none : (a b : Option DataResolution) → or_else a b ≡ none → (a ≡ none) × (b ≡ none)
or_else-none (some a) b h = cc
or_else-none none b h = (refl, h)

-- What does not resolve lies in no section.
section_relative-none :
    (s : GlobalSymbols) (addr : ℕ)
    → section_relative s addr ≡ none
    → (in_range s.rodata_range addr ≡ false)
      × (in_range s.data_range addr ≡ false)
      × (in_range s.bss_range addr ≡ false)
      × (in_range s.data_rel_ro_range addr ≡ false)
      × (in_range s.data_rel_ro_local_range addr ≡ false)
unfolding section_relative
section_relative-none s addr h =
    let (a, h1) = or_else-none _ _ h in
    let (b, h2) = or_else-none _ _ h1 in
    let (c, h3) = or_else-none _ _ h2 in
    let (d, e) = or_else-none _ _ h3 in
    (
      section_hit-none addr _ _ a,
      section_hit-none addr _ _ b,
      section_hit-none addr _ _ c,
      section_hit-none addr _ _ d,
      section_hit-none addr _ _ e,
    )

-- The parts of `resolve_data` that came up empty.
resolve_data-none :
    (s : GlobalSymbols) (addr : ℕ)
    → resolve_data s addr ≡ none
    → (BTreeMap.get addr s.variables ≡ none)
      × (resolve_into s addr ≡ none)
      × (HashMap.get addr s.got ≡ none)
      × (section_relative s addr ≡ none)
unfolding resolve_data resolve_interior resolve_slot_or_section resolve_into
resolve_data-none s addr h = ground arith

not-IsKnown :
    (s : GlobalSymbols) (addr : ℕ)
    → IsOrderedTable s
    → IsLaidOut s.functions
    → resolve_data s addr ≡ none
    → ¬ IsKnown s addr
not-IsKnown s addr o l h (at_variable v e) = cc ((resolve_data-none s addr h).0)
not-IsKnown s addr o l h (at_slot name e) = cc ((resolve_data-none s addr h).2)
not-IsKnown s addr o l h (in_function base f e lo hi) = cc (
  (resolve_data-none s addr h).1,
  resolve_into_complete s base addr f o.functions_ordered l e lo hi,
)
not-IsKnown s addr o l h (in_rodata e) =
    cc ((section_relative-none s addr (resolve_data-none s addr h).3).0)
not-IsKnown s addr o l h (in_data e) =
    cc ((section_relative-none s addr (resolve_data-none s addr h).3).1)
not-IsKnown s addr o l h (in_bss e) =
    cc ((section_relative-none s addr (resolve_data-none s addr h).3).2)
not-IsKnown s addr o l h (in_data_rel_ro e) =
    cc ((section_relative-none s addr (resolve_data-none s addr h).3).3)
not-IsKnown s addr o l h (in_data_rel_ro_local e) =
    cc ((section_relative-none s addr (resolve_data-none s addr h).3).4)

-- Where the functions do not overlap and end below 2 ^ 64, every address that the tables know, at or
-- inside a function, at a variable, at a slot or in a data section, resolves, and the resolution leads
-- back to it.
pub resolve_data_complete :
    (s : GlobalSymbols) (addr : ℕ)
    → IsOrderedTable s
    → IsLaidOut s.functions
    → IsU64 addr
    → IsKnown s addr
    → (d : DataResolution) × (resolve_data s addr ≡ some d) × Denotes s d addr
resolve_data_complete s addr o l h k = elim (Option-cases (resolve_data s addr)) [
  | inl absent ↦ absurd (not-IsKnown s addr o l absent k)
  | inr (d, found) ↦ (d, found, resolve_data_sound s addr d o h found)
]
