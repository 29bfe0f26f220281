-- ===== src/Symtab/Index/Anchors.antt =====
-- crates/delink-core/src/symtab.rs, `attribute_functions`: the file of a function is that of the nearest anchor.
use delink.Prelude.{
  ℕ, zero, suc, ◌≤◌, ◌<◌, ◌≡◌, refl, ◌⊎◌, inl, inr, Option, none, some, List, [], ◌∷◌, leb,
  get_elem?, arith, All, Any, All-imp, Any-imp, All-Any, subst, ap, sym, ◌∙◌, Bool-cases,
  Option-cases,
}
use delink.Prelude.Text.{Str}
use delink.Collections.Sort.{
  All-sort_by, All-dedup_by_key, Any-sort_by, Any-dedup_by_key, IsStrictBy, sort_by-IsSortedBy,
  dedup_by_key-IsStrictBy,
}
use delink.Symtab.{StaticSymbol, FileGroup}
use delink.Symtab.Index.{
  anchors_of, anchor_leb, anchor_at, sorted_anchors, partition_point, file_before, attribute_to,
}

-- The group has its anchor at the address.
abbrev pub IsAnchorOf : ℕ → FileGroup → Type 0
IsAnchorOf a g = g.anchor ≡ some a

-- What holds of the anchor of a group, where it has one.
abbrev pub OnAnchor : (ℕ → Type 0) → Option ℕ → Type 0
OnAnchor P none = Unit
OnAnchor P (some a) = P a

-- The file is that of an anchor at or below the address, and no anchor lies between the two;
-- without a file every anchor is above the address.
abbrev pub IsNearest : List FileGroup → ℕ → Option Str → Type 0
IsNearest groups v none = All (λ g. OnAnchor (λ b. v < b) g.anchor) groups
IsNearest groups v (some file) =
    (a : ℕ) × (a ≤ v)
    × Any (λ g. IsAnchorOf a g × (g.file ≡ file)) groups
    × All (λ g. OnAnchor (λ b. b ≤ a ⊎ v < b) g.anchor) groups

-- The same of the sorted anchors.
abbrev IsNearestIn : List (ℕ × Str) → ℕ → Option Str → Type 0
IsNearestIn anchors v none = All (λ e. v < e.0) anchors
IsNearestIn anchors v (some file) =
    (a : ℕ) × (a ≤ v)
    × Any (λ e. (e.0 ≡ a) × (e.1 ≡ file)) anchors
    × All (λ e. e.0 ≤ a ⊎ v < e.0) anchors

partition_point-zero :
    (v : ℕ) (anchors : List (ℕ × Str))
    → All (λ e. v < e.0) anchors
    → partition_point (λ e. leb e.0 v) anchors ≡ 0
unfolding partition_point
partition_point-zero v [] h = refl
partition_point-zero v (e ∷ anchors) h = ground (arith, h.0)

nearest_step :
    (e : ℕ × Str) (anchors : List (ℕ × Str)) (v i : ℕ)
    → e.0 ≤ v
    → All (λ d. e.0 < d.0) anchors
    → (All (λ d. v < d.0) anchors → i ≡ 0)
    → IsNearestIn anchors v (file_before anchors i)
    → IsNearestIn (e ∷ anchors) v (file_before (e ∷ anchors) (suc i))
nearest_step e anchors v zero le above none_left h =
    (e.0, le, inl (refl, refl), (inl (omega arith), All-imp (λ d b. inr b) anchors h))
nearest_step e anchors v (suc j) le above none_left h = elim (Option-cases (get_elem? anchors j)) [
  | inl out ↦
      let left : file_before anchors (suc j) ≡ none = rw (out, file_before) in
      absurd (ground (arith, none_left (subst (IsNearestIn anchors v) left h)))
  | inr (d, found) ↦
      let left : file_before anchors (suc j) ≡ some d.1 = rw (found, file_before) in
      let (a, le', there, all) = subst (IsNearestIn anchors v) left h in
      let (c, below, same) = All-Any anchors above there in
      subst (IsNearestIn (e ∷ anchors) v) (sym left)
        (a, le', inr there, (inl (omega (arith, same.0)), all))
]

file_before-IsNearestIn :
    (v : ℕ) (anchors : List (ℕ × Str))
    → IsStrictBy anchor_at anchors
    → IsNearestIn anchors v (file_before anchors (partition_point (λ e. leb e.0 v) anchors))
unfolding partition_point
file_before-IsNearestIn v [] s = tt
file_before-IsNearestIn v (e ∷ anchors) s = elim (Bool-cases (leb e.0 v)) [
  | inl t ↦ rw t (
      nearest_step e anchors v (partition_point (λ e. leb e.0 v) anchors) (ground arith) s.0
        (partition_point-zero v anchors) (file_before-IsNearestIn v anchors s.1))
  | inr n ↦ rw n (ground arith, All-imp (λ d h. ground arith) anchors s.0)
]

anchors_of-All :
    (groups : List FileGroup)
    → All (λ e. Any (λ g. IsAnchorOf e.0 g × (g.file ≡ e.1)) groups) (anchors_of groups)
unfolding anchors_of
anchors_of-All [] = tt
anchors_of-All (g ∷ groups) =
    step g.anchor refl (All-imp (λ e h. inr h) (anchors_of groups) (anchors_of-All groups))
  where
    step :
        (o : Option ℕ)
        → g.anchor ≡ o
        → All (λ e. Any (λ g. IsAnchorOf e.0 g × (g.file ≡ e.1)) (g ∷ groups)) (anchors_of groups)
        → All
            (λ e. Any (λ g. IsAnchorOf e.0 g × (g.file ≡ e.1)) (g ∷ groups))
            (elim o [ none ↦ anchors_of groups | some a ↦ (a, g.file) ∷ anchors_of groups ])
    step none same rest = rest
    step (some a) same rest = (inl (same, refl), rest)

anchors_of-Any :
    (a : ℕ) (groups : List FileGroup)
    → Any (IsAnchorOf a) groups
    → Any (λ e. e.0 ≡ a) (anchors_of groups)
unfolding anchors_of
anchors_of-Any a [] h = h
anchors_of-Any a (g ∷ groups) (inl h) = rw h (inl refl)
anchors_of-Any a (g ∷ groups) (inr h) = elim (Option-cases g.anchor) [
  | inl absent ↦ rw absent (anchors_of-Any a groups h)
  | inr (b, there) ↦ rw there (inr (anchors_of-Any a groups h))
]

module _ (groups : List FileGroup) where
  sorted_anchors-IsStrictBy : IsStrictBy anchor_at (sorted_anchors groups)
  unfolding sorted_anchors
  sorted_anchors-IsStrictBy = dedup_by_key-IsStrictBy anchor_at _ (
      sort_by-IsSortedBy anchor_at anchor_leb (λ a b t. ground arith) (λ a b f. ground arith)
        (anchors_of groups))

  sorted_anchors-All :
      All (λ e. Any (λ g. IsAnchorOf e.0 g × (g.file ≡ e.1)) groups) (sorted_anchors groups)
  unfolding sorted_anchors
  sorted_anchors-All =
      All-dedup_by_key _ anchor_at _ (All-sort_by _ anchor_leb _ (anchors_of-All groups))

  sorted_anchors-Any :
      (a : ℕ) → Any (IsAnchorOf a) groups → Any (λ e. e.0 ≡ a) (sorted_anchors groups)
  unfolding sorted_anchors
  sorted_anchors-Any a h =
      Any-dedup_by_key (λ k. k ≡ a) anchor_at _
        (Any-sort_by (λ e. e.0 ≡ a) anchor_leb _ (anchors_of-Any a groups h))

  -- What holds of every sorted anchor holds of the anchor of every group.
  sorted_anchors-OnAnchor :
      (P : ℕ → Type 0)
      → All (λ e. P e.0) (sorted_anchors groups)
      → All (λ g. OnAnchor P g.anchor) groups
  sorted_anchors-OnAnchor P h = each groups (λ a here. here)
    where
      at_anchor : (a : ℕ) → Any (IsAnchorOf a) groups → P a
      at_anchor a here =
          let (e, p, same) = All-Any (sorted_anchors groups) h (sorted_anchors-Any a here) in
          subst P same p

      on : (o : Option ℕ) → ((a : ℕ) → o ≡ some a → P a) → OnAnchor P o
      on none f = tt
      on (some a) f = f a refl

      each :
          (gs : List FileGroup)
          → ((a : ℕ) → Any (IsAnchorOf a) gs → Any (IsAnchorOf a) groups)
          → All (λ g. OnAnchor P g.anchor) gs
      each [] f = tt
      each (g ∷ gs) f = (
        on g.anchor (λ a same. at_anchor a (f a (inl same))),
        each gs (λ a there. f a (inr there)),
      )

  -- A function is attributed to the file of the nearest anchor at or below it, and to none
  -- exactly where every anchor is above it.
  pub attribute_to-IsNearest :
      (f : StaticSymbol) → IsNearest groups f.value (attribute_to (sorted_anchors groups) f)
  unfolding attribute_to
  attribute_to-IsNearest f =
      transfer
        (file_before (sorted_anchors groups)
          (partition_point (λ e. leb e.0 f.value) (sorted_anchors groups)))
        (file_before-IsNearestIn f.value (sorted_anchors groups) sorted_anchors-IsStrictBy)
    where
      transfer :
          (o : Option Str)
          → IsNearestIn (sorted_anchors groups) f.value o
          → IsNearest groups f.value o
      transfer none h = sorted_anchors-OnAnchor (λ b. f.value < b) h
      transfer (some file) (a, le, there, all) =
          let (e, from, same) = All-Any (sorted_anchors groups) sorted_anchors-All there in
          (
            a,
            le,
            Any-imp (λ g h. ((h.0 ∙ ap some same.0), (h.1 ∙ same.1))) groups from,
            sorted_anchors-OnAnchor (λ b. b ≤ a ⊎ f.value < b) all,
          )
