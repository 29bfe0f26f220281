-- ===== src/Symtab/Index/Units/Partition.antt =====
-- crates/delink-core/src/symtab.rs, `to_cu_index`: every function lies in exactly one unit.
use delink.Prelude.{
  append_assoc, append_nil, ℕ, suc, ◌≡◌, ◌≢◌, refl, inl, inr, true, false, Option, List, [], ◌∷◌,
  ◌++◌, map, if◌then◌else◌, is_some, All, Any, All-imp, All-both, All-append, Any-append_left,
  Any-append_right, Bool-cases, ap, sym, subst, ◌∙◌,
}
use delink.Prelude.Text.{Str}
use delink.Prelude.Eq.{str_eq, str_eq_iff, str_eq_inst, beq_refl, beq_false}
use delink.Collections.HashMap
use delink.Collections.HashMap.{HashMap, get-insert, get-remove}
use delink.Symtab.{StaticSymbol, SymtabIndex}
use delink.Symtab.Index.{attribute_functions}
use delink.Symtab.Index.Units.{
  unit_of, entry_or_default, push_entry, group_by_file, variables_by_file, function_of, units_of,
  to_cu_index,
}

-- The functions that are attributed to the file, in their order.
unfoldable pub functions_in : Str → List (StaticSymbol × Option Str) → List StaticSymbol
functions_in file [] = []
functions_in file (e ∷ attributed) =
    let rest = functions_in file attributed in if str_eq file (unit_of e) then e.0 ∷ rest else rest

abbrev pub AreDistinct : List Str → Type 0
AreDistinct [] = Unit
AreDistinct (n ∷ names) = All (λ m. n ≢ m) names × AreDistinct names

entry-push :
    (file key : Str) (f : StaticSymbol) (m : HashMap Str (List StaticSymbol))
    → entry_or_default file (push_entry key f m)
      ≡ (if str_eq file key then entry_or_default file m ++ (f ∷ []) else entry_or_default file m)
entry-push file key f m = elim (Bool-cases (str_eq file key)) [
  | inl t ↦
      let same : file ≡ key = (str_eq_iff file key).0 t in
      rw (get-insert file key (entry_or_default key m ++ (f ∷ [])) m, t, same)
  | inr n ↦ rw (get-insert file key (entry_or_default key m ++ (f ∷ [])) m, n)
]

-- What the first loop leaves at a file: what was there, then the functions of that file.
group_by_file-entry :
    (file : Str) (attributed : List (StaticSymbol × Option Str))
    (m : HashMap Str (List StaticSymbol)) (order : List Str)
    → entry_or_default file (group_by_file attributed m order).0
      ≡ entry_or_default file m ++ functions_in file attributed
unfolding group_by_file functions_in
group_by_file-entry file [] m order = sym (append_nil (entry_or_default file m))
group_by_file-entry file (e ∷ attributed) m order =
    let step =
      group_by_file-entry file attributed (push_entry (unit_of e) e.0 m)
        (if is_some (HashMap.get (unit_of e) m) then order else order ++ (unit_of e ∷ [])) in
    let pushed = entry-push file (unit_of e) e.0 m in
    step
    ∙ (ap (λ old. old ++ functions_in file attributed) pushed
        ∙ (elim (Bool-cases (str_eq file (unit_of e))) [
          | inl t ↦
              rw t
                (append_assoc (entry_or_default file m) (e.0 ∷ []) (functions_in file attributed))
          | inr n ↦ rw n refl
        ]))

-- The order lists exactly the keys of the map, each once.
abbrev IsKeyed : HashMap Str (List StaticSymbol) → List Str → Type 0
IsKeyed m order =
    AreDistinct order
    × ((key : Str) → is_some (HashMap.get key m) ≡ true → Any (λ k. k ≡ key) order)
    × All (λ k. is_some (HashMap.get k m) ≡ true) order

AreDistinct-append :
    (order : List Str) (key : Str)
    → AreDistinct order
    → All (λ k. k ≢ key) order
    → AreDistinct (order ++ (key ∷ []))
AreDistinct-append [] key d h = (tt, tt)
AreDistinct-append (k ∷ order) key d h =
    (All-append (λ m. k ≢ m) order (key ∷ []) d.0 (h.0, tt), AreDistinct-append order key d.1 h.1)

push_entry-get_self :
    (key : Str) (f : StaticSymbol) (m : HashMap Str (List StaticSymbol))
    → is_some (HashMap.get key (push_entry key f m)) ≡ true
push_entry-get_self key f m =
    rw (get-insert key key (entry_or_default key m ++ (f ∷ [])) m, beq_refl key)

push_entry-get_ne :
    (k key : Str) (f : StaticSymbol) (m : HashMap Str (List StaticSymbol))
    → str_eq k key ≡ false
    → is_some (HashMap.get k (push_entry key f m)) ≡ is_some (HashMap.get k m)
push_entry-get_ne k key f m n = rw (get-insert k key (entry_or_default key m ++ (f ∷ [])) m, n)

push_entry-held :
    (k key : Str) (f : StaticSymbol) (m : HashMap Str (List StaticSymbol))
    → is_some (HashMap.get k m) ≡ true
    → is_some (HashMap.get k (push_entry key f m)) ≡ true
push_entry-held k key f m h = elim (Bool-cases (str_eq k key)) [
  | inl t ↦
      let same : k ≡ key = (str_eq_iff k key).0 t in
      subst (λ c. is_some (HashMap.get c (push_entry key f m)) ≡ true) (sym same)
        (push_entry-get_self key f m)
  | inr n ↦ push_entry-get_ne k key f m n ∙ h
]

-- Whatever lists the old keys and the new one lists the keys after a push.
push_entry-listed :
    (key : Str) (f : StaticSymbol) (m : HashMap Str (List StaticSymbol)) (order : List Str)
    → ((k : Str) → is_some (HashMap.get k m) ≡ true → Any (λ j. j ≡ k) order)
    → Any (λ j. j ≡ key) order
    → (k : Str) → is_some (HashMap.get k (push_entry key f m)) ≡ true
    → Any (λ j. j ≡ k) order
push_entry-listed key f m order listed here k h = elim (Bool-cases (str_eq k key)) [
  | inl t ↦ subst (λ c. Any (λ j. j ≡ c) order) (sym ((str_eq_iff k key).0 t)) here
  | inr n ↦ listed k (sym (push_entry-get_ne k key f m n) ∙ h)
]

push_entry-IsKeyed :
    (key : Str) (f : StaticSymbol) (m : HashMap Str (List StaticSymbol)) (order : List Str)
    → IsKeyed m order
    → IsKeyed
        (push_entry key f m)
        (if is_some (HashMap.get key m) then order else order ++ (key ∷ []))
push_entry-IsKeyed key f m order (distinct, listed, held) =
    let keep = All-imp (λ k h. push_entry-held k key f m h) order held in
    elim (Bool-cases (is_some (HashMap.get key m))) [
      | inl old ↦ rw old (distinct, push_entry-listed key f m order listed (listed key old), keep)
      | inr new ↦ rw new (
        AreDistinct-append order key distinct (All-imp (λ k h e. new_key k h e new) order held),
        push_entry-listed key f m (order ++ (key ∷ []))
            (λ k h. Any-append_left (λ j. j ≡ k) order (key ∷ []) (listed k h))
            (Any-append_right (λ j. j ≡ key) order (key ∷ []) (inl refl)),
        All-append (λ k. is_some (HashMap.get k (push_entry key f m)) ≡ true) order (key ∷ []) keep
            (push_entry-get_self key f m, tt),
      )
    ]
  where
    new_key :
        (k : Str)
        → is_some (HashMap.get k m) ≡ true
        → k ≡ key
        → is_some (HashMap.get key m) ≡ false
        → ⊥
    new_key k h same new = cc

group_by_file-IsKeyed :
    (attributed : List (StaticSymbol × Option Str)) (m : HashMap Str (List StaticSymbol))
    (order : List Str)
    → IsKeyed m order
    → IsKeyed (group_by_file attributed m order).0 (group_by_file attributed m order).1
unfolding group_by_file
group_by_file-IsKeyed [] m order h = h
group_by_file-IsKeyed (e ∷ attributed) m order h =
    group_by_file-IsKeyed attributed (push_entry (unit_of e) e.0 m)
      (if is_some (HashMap.get (unit_of e) m) then order else order ++ (unit_of e ∷ []))
      (push_entry-IsKeyed (unit_of e) e.0 m order h)

-- A key that is held stays held to the end of the loop, and each function's file is held after it.
group_by_file-held :
    (k : Str) (attributed : List (StaticSymbol × Option Str)) (m : HashMap Str (List StaticSymbol))
    (order : List Str)
    → is_some (HashMap.get k m) ≡ true
    → is_some (HashMap.get k (group_by_file attributed m order).0) ≡ true
unfolding group_by_file
group_by_file-held k [] m order h = h
group_by_file-held k (e ∷ attributed) m order h =
    group_by_file-held k attributed (push_entry (unit_of e) e.0 m)
      (if is_some (HashMap.get (unit_of e) m) then order else order ++ (unit_of e ∷ []))
      (push_entry-held k (unit_of e) e.0 m h)

group_by_file-All :
    (attributed : List (StaticSymbol × Option Str)) (m : HashMap Str (List StaticSymbol))
    (order : List Str)
    → All
        (λ e. is_some (HashMap.get (unit_of e) (group_by_file attributed m order).0) ≡ true)
        attributed
unfolding group_by_file
group_by_file-All [] m order = tt
group_by_file-All (e ∷ attributed) m order =
    let next = if is_some (HashMap.get (unit_of e) m) then order else order ++ (unit_of e ∷ []) in
    (
      group_by_file-held (unit_of e) attributed (push_entry (unit_of e) e.0 m) next
          (push_entry-get_self (unit_of e) e.0 m),
      group_by_file-All attributed (push_entry (unit_of e) e.0 m) next,
    )

entry-remove :
    (j k : Str) (m : HashMap Str (List StaticSymbol))
    → k ≢ j
    → entry_or_default j (HashMap.remove k m) ≡ entry_or_default j m
entry-remove j k m ne = rw (get-remove j k m, beq_false j k (λ e. ne (sym e)))

-- Each unit has a name of the order, and the functions that the map holds at it.
units_of-All :
    (lists : Str → List StaticSymbol) (id : ℕ) (order : List Str)
    (m vars : HashMap Str (List StaticSymbol))
    → AreDistinct order
    → All (λ k. entry_or_default k m ≡ lists k) order
    → All (λ u. u.functions ≡ map function_of (lists u.name)) (units_of id order m vars)
unfolding units_of
units_of-All lists id [] m vars d h = tt
units_of-All lists id (k ∷ order) m vars d h = (
  ap (map function_of) h.0,
  units_of-All lists (suc id) order (HashMap.remove k m) vars d.1
      (All-both (λ j ne held. entry-remove j k m ne ∙ held) order d.0 h.1),
)

units_of-names :
    (id : ℕ) (order : List Str) (m vars : HashMap Str (List StaticSymbol))
    → map (λ u. u.name) (units_of id order m vars) ≡ order
unfolding units_of
units_of-names id [] m vars = refl
units_of-names id (k ∷ order) m vars =
    ap (λ names. k ∷ names) (units_of-names (suc id) order (HashMap.remove k m) vars)

no_key : (k : Str) → is_some (HashMap.get {V = List StaticSymbol} k []) ≡ true → ⊥
unfolding HashMap.get
no_key k h = cc

entry_of_nothing :
    (k : Str) (fns : List StaticSymbol) → entry_or_default {A = StaticSymbol} k [] ++ fns ≡ fns
unfolding HashMap.get
entry_of_nothing k fns = refl

-- The units split the attributed functions: each unit has the functions of its file, in their
-- order, no two units share a name, and the file of every function is the name of a unit.
pub to_cu_index-partition :
    (index : SymtabIndex)
    → let units = (to_cu_index index).units in
      All
        (λ u. u.functions ≡ map function_of (functions_in u.name (attribute_functions index)))
        units
      × AreDistinct (map (λ u. u.name) units)
      × All
          (λ e. Any (λ name. name ≡ unit_of e) (map (λ u. u.name) units))
          (attribute_functions index)
unfolding to_cu_index
to_cu_index-partition index =
    let attributed = attribute_functions index in
    let vars = variables_by_file index.groups [] in
    let grouped = group_by_file attributed [] [] in
    let (distinct, listed, held) =
      group_by_file-IsKeyed attributed [] [] (tt, (λ k h. absurd (no_key k h)), tt) in
    let names = units_of-names 0 grouped.1 grouped.0 vars in
    (
      units_of-All (λ k. functions_in k attributed) 0 grouped.1 grouped.0 vars distinct
          (All-imp
            (λ k h.
              group_by_file-entry k attributed [] []
              ∙ entry_of_nothing k (functions_in k attributed))
            grouped.1 held),
      rw names distinct,
      rw names
          (All-imp (λ e h. listed (unit_of e) h) attributed (group_by_file-All attributed [] [])),
    )
