-- ===== src/Symbols/Names/Unique.antt =====
-- `disambiguate_names`, where no name holds a dot: definitions at different addresses.
use delink.Prelude.{
  ℕ, ◌+◌, ◌≤◌, ◌≡◌, refl, sym, ◌∙◌, ◌≢◌, true, false, some, List, [], ◌∷◌, ◌==◌, if◌then◌else◌,
  arith, Bool-cases, inl, inr, subst,
}
use delink.Prelude.Text.{Str, hex, HasNoDot, hex_injective, dotted_injective, ne-dotted}
use delink.Prelude.Words.{IsU64}
use delink.Collections.BTreeMap
use delink.Collections.BTreeMap.{BTreeMap}
use delink.Symbols.{FunctionRef, VariableRef, export_name, variable_export_name}
use delink.Symbols.Names.{
  count_names, colliding_names, has_name, suffixed, rename_colliding, set_linkage_name,
  set_variable_linkage_name, rename_all, disambiguate_names,
}
use delink.Symbols.Names.Counts.{
  occurrences, count_names_lem, occurrences-pos, occurrences_two, colliding_names_lem,
}

-- The name that a definition ends up with.
abbrev final_name : List Str → Str → ℕ → Str
final_name colliding name addr = if has_name name colliding then suffixed name addr else name

-- Equal names only if they collide, and no dots: then the final names differ at different addresses.
final_name-ne :
    (colliding : List Str) (m n : Str) (a b : ℕ)
    → HasNoDot m
    → HasNoDot n
    → IsU64 a
    → IsU64 b
    → a ≢ b
    → (m ≡ n → has_name m colliding ≡ true)
    → final_name colliding m a ≢ final_name colliding n b
final_name-ne c m n a b hm hn ha hb ne clash e = elim (Bool-cases (has_name m c)) [
  | inl p ↦ elim (Bool-cases (has_name n c)) [
    | inl q ↦
        let e' : suffixed m a ≡ suffixed n b = ground arith in
        let (same, tails) = dotted_injective m n (hex a) (hex b) hm hn e' in
        ne (hex_injective a b ha hb tails)
    | inr q ↦ let e' : n ≡ suffixed m a = ground arith in ne-dotted n m (hex a) hn e'
  ]
  | inr p ↦ elim (Bool-cases (has_name n c)) [
    | inl q ↦ let e' : m ≡ suffixed n b = ground arith in ne-dotted m n (hex b) hm e'
    | inr q ↦ let e' : m ≡ n = ground arith in cc (clash e')
  ]
]

module _ {ℓ} {V : Type ℓ} (name : V → Str) (rename : V → Str → V) where
  rename_colliding-nil : (m : BTreeMap V) → rename_colliding name rename [] m ≡ m
  unfolding rename_colliding has_name
  rename_colliding-nil [] = refl
  rename_colliding-nil ((a, v) ∷ m) = cc (rename_colliding-nil m)

  -- Where an entry of the renamed map comes from, and its name.
  get-rename_colliding :
      ((v : V) (s : Str) → name (rename v s) ≡ s)
      → (c : List Str) (m : BTreeMap V) (a : ℕ) (w : V)
      → BTreeMap.get a (rename_colliding name rename c m) ≡ some w
      → (v : V) × (BTreeMap.get a m ≡ some v) × (name w ≡ final_name c (name v) a)
  unfolding rename_colliding BTreeMap.get
  get-rename_colliding law c [] a w h = cc
  get-rename_colliding law c ((b, u) ∷ m) a w h = elim (Bool-cases (a == b)) [
    | inl here ↦ (u, ground arith, ground (arith, law u (suffixed (name u) b)))
    | inr there ↦
        let later : BTreeMap.get a (rename_colliding name rename c m) ≡ some w = ground arith in
        let (v, found, named) = get-rename_colliding law c m a w later in (v, ground arith, named)
  ]

-- No two entries share a name, within a map and across the two, at different addresses.
pub record HasUniqueNames (functions : BTreeMap FunctionRef) (variables : BTreeMap VariableRef)
    : Type 0 where
  pub among_functions :
      (a b : ℕ) (f g : FunctionRef)
      → a ≢ b
      → BTreeMap.get a functions ≡ some f
      → BTreeMap.get b functions ≡ some g
      → export_name f ≢ export_name g
  pub among_variables :
      (a b : ℕ) (v w : VariableRef)
      → a ≢ b
      → BTreeMap.get a variables ≡ some v
      → BTreeMap.get b variables ≡ some w
      → variable_export_name v ≢ variable_export_name w
  pub across :
      (a b : ℕ) (f : FunctionRef) (v : VariableRef)
      → a ≢ b
      → BTreeMap.get a functions ≡ some f
      → BTreeMap.get b variables ≡ some v
      → export_name f ≢ variable_export_name v

-- Addresses are u64s, and the names hold no dot.
pub record IsPlain {ℓ} {V : Type ℓ} (name : V → Str) (m : BTreeMap V) : Type ℓ where
  pub bounded : (a : ℕ) (v : V) → BTreeMap.get a m ≡ some v → IsU64 a
  pub undotted : (a : ℕ) (v : V) → BTreeMap.get a m ≡ some v → HasNoDot (name v)

module _ (functions : BTreeMap FunctionRef) (variables : BTreeMap VariableRef) where
  abbrev clashes : List Str
  clashes =
      colliding_names
        (count_names variable_export_name variables (count_names export_name functions []))

  occurrences_total :
      (n : Str)
      → has_name n clashes ≡ false
      → occurrences export_name n functions + occurrences variable_export_name n variables ≤ 1
  occurrences_total n h = omega (
    arith,
    colliding_names_lem n _ h,
    count_names_lem variable_export_name n variables (count_names export_name functions []),
    count_names_lem export_name n functions [],
  )

  rename_all_lem :
      (c : List Str)
      → rename_all c functions variables ≡ (
        rename_colliding export_name set_linkage_name c functions,
        rename_colliding variable_export_name set_variable_linkage_name c variables,
      )
  unfolding rename_all
  rename_all_lem [] = rw (
    rename_colliding-nil export_name set_linkage_name functions,
    rename_colliding-nil variable_export_name set_variable_linkage_name variables,
  )
  rename_all_lem (c ∷ cs) = refl

  -- A name that stands at two places collides.
  clash_of_two :
      (n : Str)
      → 2 ≤ occurrences export_name n functions + occurrences variable_export_name n variables
      → has_name n clashes ≡ true
  clash_of_two n h = elim (Bool-cases (has_name n clashes)) [
    | inl p ↦ p
    | inr q ↦ absurd (omega (arith, occurrences_total n q))
  ]

  -- If no name holds a dot, the names are unique after `disambiguate_names`: different addresses
  -- have different names, among the functions, among the variables and across.
  pub disambiguate_names-HasUniqueNames :
      IsPlain export_name functions
      → IsPlain variable_export_name variables
      → HasUniqueNames
          (disambiguate_names functions variables).0
          (disambiguate_names functions variables).1
  unfolding disambiguate_names
  disambiguate_names-HasUniqueNames pf pv = rw (rename_all_lem clashes) (record {
    among_functions = λ a b f g ne ha hb.
        let (f', ga, na) =
          get-rename_colliding export_name set_linkage_name (λ _ _. refl) clashes functions a f
            ha in
        let (g', gb, nb) =
          get-rename_colliding export_name set_linkage_name (λ _ _. refl) clashes functions b g
            hb in
        λ e.
          final_name-ne clashes (export_name f') (export_name g') a b (pf.undotted a f' ga)
            (pf.undotted b g' gb) (pf.bounded a f' ga) (pf.bounded b g' gb) ne
            (λ same.
              clash_of_two (export_name f')
                (omega (arith, occurrences_two export_name functions a b f' g' ne ga gb same)))
            (sym na ∙ e ∙ nb);
    among_variables = λ a b v w ne ha hb.
        let (v', ga, na) =
          get-rename_colliding variable_export_name set_variable_linkage_name (λ _ _. refl) clashes
            variables a v ha in
        let (w', gb, nb) =
          get-rename_colliding variable_export_name set_variable_linkage_name (λ _ _. refl) clashes
            variables b w hb in
        λ e.
          final_name-ne clashes (variable_export_name v') (variable_export_name w') a b
            (pv.undotted a v' ga) (pv.undotted b w' gb) (pv.bounded a v' ga) (pv.bounded b w' gb) ne
            (λ same. clash_of_two (variable_export_name v') (
              omega
                (arith, occurrences_two variable_export_name variables a b v' w' ne ga gb same)))
            (sym na ∙ e ∙ nb);
    across = λ a b f v ne ha hb.
        let (f', ga, na) =
          get-rename_colliding export_name set_linkage_name (λ _ _. refl) clashes functions a f
            ha in
        let (v', gb, nb) =
          get-rename_colliding variable_export_name set_variable_linkage_name (λ _ _. refl) clashes
            variables b v hb in
        λ e.
          final_name-ne clashes (export_name f') (variable_export_name v') a b (pf.undotted a f' ga)
            (pv.undotted b v' gb) (pf.bounded a f' ga) (pv.bounded b v' gb) ne
            (λ same. clash_of_two (export_name f') (
              omega (
                arith,
                occurrences-pos export_name functions a ga,
                subst (λ n. 1 ≤ occurrences variable_export_name n variables) (sym same)
                    (occurrences-pos variable_export_name variables b gb),
              )))
            (sym na ∙ e ∙ nb);
  })
