-- ===== src/Symbols/Build/Units.antt =====
-- crates/delink-core/src/symbols.rs: the entries that the compilation units give.
use delink.Prelude.{
  ℕ, ◌<◌, ◌≡◌, refl, inl, inr, List, [], ◌∷◌, ◌++◌, ◌==◌, if◌then◌else◌, arith, All, Any,
  All-append, All-imp, Any-imp, Bool-cases,
}
use delink.Collections.BTreeMap
use delink.Collections.BTreeMap.{BTreeMap, IsOrdered}
use delink.Cu.{Function, Variable, CompilationUnit}
use delink.Symbols.{FunctionRef, VariableRef, add_functions, add_variables, maps_of_units}
use delink.Symbols.Build.Entries.{insert_all, insert_all-append}

-- What the loops insert for one unit.
abbrev pub function_ref : ℕ → Function → FunctionRef
function_ref id f = record {
  cu_id = id;
  name = f.name;
  linkage_name = f.linkage_name;
  size = f.size;
  external = f.external;
}

abbrev pub variable_ref : ℕ → Variable → VariableRef
variable_ref id v = record {
  cu_id = id;
  name = v.name;
  linkage_name = v.linkage_name;
  external = v.external;
}

abbrev pub function_entries : ℕ → List Function → List (ℕ × FunctionRef)
function_entries id [] = []
function_entries id (f ∷ fs) =
    let rest = function_entries id fs in
    if f.size == 0 then rest else (f.addr, function_ref id f) ∷ rest

abbrev pub variable_entries : ℕ → List Variable → List (ℕ × VariableRef)
variable_entries id [] = []
variable_entries id (v ∷ vs) =
    let rest = variable_entries id vs in
    if v.addr == 0 then rest else (v.addr, variable_ref id v) ∷ rest

abbrev pub all_functions : List CompilationUnit → List (ℕ × FunctionRef)
all_functions [] = []
all_functions (u ∷ us) = function_entries u.id u.functions ++ all_functions us

abbrev pub all_variables : List CompilationUnit → List (ℕ × VariableRef)
all_variables [] = []
all_variables (u ∷ us) = variable_entries u.id u.variables ++ all_variables us

add_functions-insert_all :
    (id : ℕ) (fs : List Function) (m : BTreeMap FunctionRef)
    → add_functions id fs m ≡ insert_all (function_entries id fs) m
unfolding add_functions
add_functions-insert_all id [] m = refl
add_functions-insert_all id (f ∷ fs) m = elim (Bool-cases (f.size == 0)) [
  | inl hit ↦ rw hit (add_functions-insert_all id fs m)
  | inr miss ↦
      rw miss (add_functions-insert_all id fs (BTreeMap.insert f.addr (function_ref id f) m))
]

add_variables-insert_all :
    (id : ℕ) (vs : List Variable) (m : BTreeMap VariableRef)
    → add_variables id vs m ≡ insert_all (variable_entries id vs) m
unfolding add_variables
add_variables-insert_all id [] m = refl
add_variables-insert_all id (v ∷ vs) m = elim (Bool-cases (v.addr == 0)) [
  | inl hit ↦ rw hit (add_variables-insert_all id vs m)
  | inr miss ↦
      rw miss (add_variables-insert_all id vs (BTreeMap.insert v.addr (variable_ref id v) m))
]

pub maps_of_units-insert_all :
    (us : List CompilationUnit) (fs : BTreeMap FunctionRef) (vs : BTreeMap VariableRef)
    → maps_of_units us fs vs ≡ (insert_all (all_functions us) fs, insert_all (all_variables us) vs)
unfolding maps_of_units
maps_of_units-insert_all [] fs vs = refl
maps_of_units-insert_all (u ∷ us) fs vs =
    rw
      (
        insert_all-append (function_entries u.id u.functions) (all_functions us) fs,
        insert_all-append (variable_entries u.id u.variables) (all_variables us) vs,
        ← add_functions-insert_all u.id u.functions fs,
        ← add_variables-insert_all u.id u.variables vs,
      )
      (maps_of_units-insert_all us (add_functions u.id u.functions fs)
        (add_variables u.id u.variables vs))

-- A function of the units, but for the linkage name, which the renaming sets.
abbrev pub IsFunctionOf : List CompilationUnit → ℕ × FunctionRef → Type 0
IsFunctionOf us (addr, f) =
    Any
      (λ u.
        (f.cu_id ≡ u.id)
        × Any
            (λ g.
              (g.addr ≡ addr)
              × (g.size ≡ f.size)
              × (g.name ≡ f.name)
              × (g.external ≡ f.external)
              × (0 < g.size))
            u.functions)
      us

abbrev pub IsVariableOf : List CompilationUnit → ℕ × VariableRef → Type 0
IsVariableOf us (addr, v) =
    Any
      (λ u.
        (v.cu_id ≡ u.id)
        × Any (λ g. (g.addr ≡ addr) × (g.name ≡ v.name) × (g.external ≡ v.external) × (0 < g.addr))
            u.variables)
      us

function_entries-All :
    (P : ℕ × FunctionRef → Type 0) (id : ℕ) (fs : List Function)
    → ((g : Function) → Any (λ h. h ≡ g) fs → 0 < g.size → P (g.addr, function_ref id g))
    → All P (function_entries id fs)
function_entries-All P id [] h = tt
function_entries-All P id (f ∷ fs) h =
    let rest = function_entries-All P id fs (λ g there. h g (inr there)) in
    elim (Bool-cases (f.size == 0)) [
      | inl hit ↦ rw hit rest
      | inr miss ↦ rw miss (h f (inl refl) (ground arith), rest)
    ]

variable_entries-All :
    (P : ℕ × VariableRef → Type 0) (id : ℕ) (vs : List Variable)
    → ((g : Variable) → Any (λ h. h ≡ g) vs → 0 < g.addr → P (g.addr, variable_ref id g))
    → All P (variable_entries id vs)
variable_entries-All P id [] h = tt
variable_entries-All P id (v ∷ vs) h =
    let rest = variable_entries-All P id vs (λ g there. h g (inr there)) in
    elim (Bool-cases (v.addr == 0)) [
      | inl hit ↦ rw hit rest
      | inr miss ↦ rw miss (h v (inl refl) (ground arith), rest)
    ]

pub all_functions-IsFunctionOf :
    (us : List CompilationUnit) → All (IsFunctionOf us) (all_functions us)
all_functions-IsFunctionOf [] = tt
all_functions-IsFunctionOf (u ∷ us) =
    All-append (IsFunctionOf (u ∷ us)) (function_entries u.id u.functions) (all_functions us)
      (function_entries-All (IsFunctionOf (u ∷ us)) u.id u.functions (λ g there positive.
        inl (refl, Any-imp (λ h e. rw e (refl, refl, refl, refl, positive)) u.functions there)))
      (All-imp (λ e h. inr h) (all_functions us) (all_functions-IsFunctionOf us))

pub all_variables-IsVariableOf :
    (us : List CompilationUnit) → All (IsVariableOf us) (all_variables us)
all_variables-IsVariableOf [] = tt
all_variables-IsVariableOf (u ∷ us) =
    All-append (IsVariableOf (u ∷ us)) (variable_entries u.id u.variables) (all_variables us)
      (variable_entries-All (IsVariableOf (u ∷ us)) u.id u.variables (λ g there positive.
        inl (refl, Any-imp (λ h e. rw e (refl, refl, refl, positive)) u.variables there)))
      (All-imp (λ e h. inr h) (all_variables us) (all_variables-IsVariableOf us))
