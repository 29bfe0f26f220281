-- ===== src/Symtab/Index.antt =====
-- crates/delink-core/src/symtab.rs: the index that is built from the symbols and `.text`, and the units
-- that the functions are attributed to.
pub mod Built
pub mod Anchors
pub mod Units
use delink.Prelude.{
  ℕ, zero, suc, ◌+◌, ◌-◌, ◌*◌, min, Bool, true, false, ◌&&◌, ◌||◌, not, Option, none, some, List,
  [], ◌∷◌, ◌++◌, map, ltb, leb, ◌==◌, if◌then◌else◌, is_some, unwrap_or, get_elem?, Range,
}
use delink.Prelude.Text.{Str, codes}
use delink.Prelude.Eq.{str_eq, str_eq_inst}
use delink.Prelude.Words.{add_u64}
use delink.Collections.BTreeMap
use delink.Collections.BTreeMap.{BTreeMap}
use delink.Collections.HashMap
use delink.Collections.HashMap.{HashMap}
use delink.Collections.Sort.{sort_by, dedup_by_key}
use delink.Collections.Filter.{retain}
use delink.Cu.{CompilationUnit, CuIndex, Function, Variable}
use delink.Symbols.{VariableRef}
use delink.Symtab.{
  StaticSymbol, FileGroup, SymtabIndex, stt_object, stt_func, stt_file, stb_local, is_local,
  is_section, is_empty, str_leb, collect_text_functions,
}
use delink.Symtab.Orphans.{find_orphan_regions, text_functions}

-- What the `object` crate tells of the section `.text`.
pub record TextSection : Type 0 where
  pub index : ℕ
  pub address : ℕ
  pub size : ℕ
  pub bytes : Option (List ℕ)

-- The test on a symbol that a group keeps.
abbrev pub is_group_local : StaticSymbol → Bool
is_group_local s =
    is_local s && (s.sym_type == stt_func || s.sym_type == stt_object) && not (s.shndx == 0)

abbrev pub add_local : StaticSymbol → FileGroup → FileGroup
add_local s g = record g { locals = g.locals ++ (s ∷ []) }

-- The loop over the symbols, with the group that is open, if one is.
unfoldable pub group_symbols : Option FileGroup → List StaticSymbol → List FileGroup
group_symbols none [] = []
group_symbols (some g) [] = g ∷ []
group_symbols none (s ∷ symbols) =
    let opened =
      group_symbols (some record { file = s.name; anchor = none; locals = [] }) symbols in
    let skipped = group_symbols none symbols in if s.sym_type == stt_file then opened else skipped
group_symbols (some g) (s ∷ symbols) =
    let opened =
      group_symbols (some record { file = s.name; anchor = none; locals = [] }) symbols in
    let added = group_symbols (some (add_local s g)) symbols in
    let skipped = group_symbols (some g) symbols in
    if s.sym_type == stt_file then g ∷ opened else if is_group_local s then added else skipped

abbrev pub is_anchor : Option ℕ → StaticSymbol → Bool
is_anchor text_shndx s = s.sym_type == stt_func && ltb 0 s.size && is_section text_shndx s.shndx

-- `.filter(...).map(|s| s.value).min()`
unfoldable pub min_anchor : Option ℕ → List StaticSymbol → Option ℕ
min_anchor text_shndx [] = none
min_anchor text_shndx (s ∷ locals) =
    let rest = min_anchor text_shndx locals in
    if is_anchor text_shndx s
    then elim rest [ none ↦ some s.value | some a ↦ some (min s.value a) ]
    else rest

abbrev pub set_anchor : Option ℕ → FileGroup → FileGroup
set_anchor text_shndx g = record g { anchor = min_anchor text_shndx g.locals }

abbrev pub text_index : Option TextSection → Option ℕ
text_index none = none
text_index (some t) = some t.index

abbrev pub text_end_of : Option TextSection → ℕ
text_end_of none = 0
text_end_of (some t) = add_u64 t.address t.size

abbrev pub text_base_of : Option TextSection → ℕ
text_base_of none = 0
text_base_of (some t) = t.address

abbrev pub text_data_of : Option TextSection → List ℕ
text_data_of none = []
text_data_of (some t) = unwrap_or t.bytes []

-- `SymtabIndex::build`, from the symbols that were read and the section.
unfoldable pub build : List StaticSymbol → Option TextSection → SymtabIndex
unfolding group_symbols min_anchor find_orphan_regions collect_text_functions
build symbols text = record {
  symbols = symbols;
  groups = map (set_anchor (text_index text)) (group_symbols none symbols);
  text_shndx = text_index text;
  text_end = text_end_of text;
  orphans =
      find_orphan_regions (collect_text_functions symbols (text_index text) (text_end_of text))
        (text_base_of text) (text_data_of text) (text_end_of text);
}

abbrev pub is_data_object : SymtabIndex → StaticSymbol → Bool
is_data_object index s =
    s.sym_type == stt_object
    && (not (s.shndx == 0)
        && (not (is_section index.text_shndx s.shndx)
            && (not (s.value == 0) && not (is_empty s.name))))

abbrev pub by_value_and_name : StaticSymbol → StaticSymbol → Bool
by_value_and_name a b =
    if ltb a.value b.value
    then true
    else if ltb b.value a.value
    then false
    else str_leb a.name b.name

-- `dedup_by`: an entry like the last one kept is dropped.
unfoldable pub dedup_objects_after : StaticSymbol → List StaticSymbol → List StaticSymbol
dedup_objects_after last [] = []
dedup_objects_after last (s ∷ objs) =
    let kept = dedup_objects_after s objs in
    let dropped = dedup_objects_after last objs in
    if s.value == last.value && str_eq s.name last.name then dropped else s ∷ kept

unfoldable pub dedup_objects : List StaticSymbol → List StaticSymbol
unfolding dedup_objects_after
dedup_objects [] = []
dedup_objects (s ∷ objs) = s ∷ dedup_objects_after s objs

unfoldable pub data_objects : SymtabIndex → List StaticSymbol
unfolding retain sort_by dedup_objects str_leb
data_objects index =
    dedup_objects (sort_by by_value_and_name (retain (is_data_object index) index.symbols))

-- `filter_map(|g| g.anchor.map(...))`
unfoldable pub anchors_of : List FileGroup → List (ℕ × Str)
anchors_of [] = []
anchors_of (g ∷ groups) = elim g.anchor [
  | none ↦ anchors_of groups
  | some a ↦ (a, g.file) ∷ anchors_of groups
]

abbrev pub anchor_leb : ℕ × Str → ℕ × Str → Bool
anchor_leb a b = leb a.0 b.0

abbrev pub anchor_at : ℕ × Str → ℕ
anchor_at a = a.0

unfoldable pub sorted_anchors : List FileGroup → List (ℕ × Str)
unfolding anchors_of sort_by dedup_by_key
sorted_anchors groups = dedup_by_key anchor_at (sort_by anchor_leb (anchors_of groups))

-- How many leading entries pass the test.
unfoldable pub partition_point {ℓ} : {A : Type ℓ} → (A → Bool) → List A → ℕ
partition_point p [] = 0
partition_point p (x ∷ xs) = let rest = partition_point p xs in if p x then suc rest else 0

-- `None` at an index of 0, or else the file of the anchor before it.
abbrev pub file_before : List (ℕ × Str) → ℕ → Option Str
file_before anchors zero = none
file_before anchors (suc i) = elim (get_elem? anchors i) [ none ↦ none | some a ↦ some a.1 ]

unfoldable pub attribute_to : List (ℕ × Str) → StaticSymbol → Option Str
unfolding partition_point
attribute_to anchors f = file_before anchors (partition_point (λ a. leb a.0 f.value) anchors)

unfoldable pub attribute_functions : SymtabIndex → List (StaticSymbol × Option Str)
unfolding sorted_anchors text_functions attribute_to
attribute_functions index =
    map (λ f. (f, attribute_to (sorted_anchors index.groups) f)) (text_functions index)

unfoldable pub sum_sizes : List StaticSymbol → ℕ
sum_sizes [] = 0
sum_sizes (f ∷ fns) = add_u64 f.size (sum_sizes fns)

unfoldable pub text_coverage : SymtabIndex → ℕ
unfolding text_functions sum_sizes
text_coverage index = sum_sizes (text_functions index)

-- The loop of `build_symbols`: an entry that the units gave wins.
unfoldable pub add_data_objects :
    ℕ → List StaticSymbol → BTreeMap VariableRef → BTreeMap VariableRef
unfolding BTreeMap.or_insert
add_data_objects usize_max [] variables = variables
add_data_objects usize_max (obj ∷ objs) variables =
    let entry : VariableRef = record {
      cu_id = usize_max;
      name = obj.name;
      linkage_name = some obj.name;
      external = not (obj.bind == stb_local);
    } in
    add_data_objects usize_max objs (BTreeMap.or_insert obj.value entry variables)
