-- ===== src/Collections/BTreeMap.antt =====
-- `BTreeMap<u64, V>`: entries in increasing order of their keys.
use Prim.Native.Nat.{compare, Ordering}
use delink.Prelude.{
  ℕ, ◌≤◌, ◌<◌, ◌≡◌, refl, ◌⊎◌, inl, inr, Option, none, some, List, [], ◌∷◌, Bool, arith, leb, ◌==◌,
  if◌then◌else◌, All, Option-cases, Bool-cases, is_some,
}

Order-cases :
    (k j : ℕ)
    → (compare k j ≡ Ordering.lt) ⊎ ((compare k j ≡ Ordering.eq) ⊎ (compare k j ≡ Ordering.gt))
Order-cases k j = cases (compare k j) refl
  where
    cases :
        (o : Ordering)
        → compare k j ≡ o
        → (compare k j ≡ Ordering.lt) ⊎ ((compare k j ≡ Ordering.eq) ⊎ (compare k j ≡ Ordering.gt))
    cases Ordering.lt e = inl e
    cases Ordering.eq e = inr (inl e)
    cases Ordering.gt e = inr (inr e)

abbrev pub BTreeMap {ℓ} : Type ℓ → Type ℓ
BTreeMap V = List (ℕ × V)

module _ {ℓ} {V : Type ℓ} where
  unfoldable pub get : ℕ → BTreeMap V → Option V
  get k [] = none
  get k ((j, v) ∷ m) = if k == j then some v else get k m

  unfoldable pub insert : ℕ → V → BTreeMap V → BTreeMap V
  insert k v [] = (k, v) ∷ []
  insert k v ((j, w) ∷ m) = elim (compare k j) [
    | Ordering.lt ↦ (k, v) ∷ (j, w) ∷ m
    | Ordering.eq ↦ (k, v) ∷ m
    | Ordering.gt ↦ (j, w) ∷ insert k v m
  ]

  -- `entry(k).or_insert(v)`
  unfoldable pub or_insert : ℕ → V → BTreeMap V → BTreeMap V
  unfolding get insert
  or_insert k v m = elim (get k m) [ none ↦ insert k v m | some _ ↦ m ]

  -- `range(..=k).next_back()`: the entry with the greatest key that is not above `k`.
  unfoldable pub floor : ℕ → BTreeMap V → Option (ℕ × V)
  floor k [] = none
  floor k ((j, v) ∷ m) =
      let rest = floor k m in
      if leb j k then elim rest [ none ↦ some (j, v) | some e ↦ some e ] else none

  abbrev pub Above : ℕ → BTreeMap V → Type 0
  Above k m = All (λ e. k < e.0) m

  abbrev pub IsOrdered : BTreeMap V → Type 0
  IsOrdered [] = Unit
  IsOrdered (e ∷ m) = Above e.0 m × IsOrdered m

  Above-imp : (j k : ℕ) (m : BTreeMap V) → j < k → Above k m → Above j m
  Above-imp j k [] h a = tt
  Above-imp j k (e ∷ m) h a = (omega arith, Above-imp j k m h a.1)

  Above-insert : (b k : ℕ) (v : V) (m : BTreeMap V) → b < k → Above b m → Above b (insert k v m)
  unfolding insert
  Above-insert b k v [] h a = (h, tt)
  Above-insert b k v ((j, w) ∷ m) h a = ground (arith, Above-insert b k v m h a.1)

  pub insert-IsOrdered : (k : ℕ) (v : V) (m : BTreeMap V) → IsOrdered m → IsOrdered (insert k v m)
  unfolding insert
  insert-IsOrdered k v [] o = (tt, tt)
  insert-IsOrdered k v ((j, w) ∷ m) o =
      ground (arith, insert-IsOrdered k v m o.1, Above-insert j k v m, Above-imp k j m)

  pub get-insert :
      (i k : ℕ) (v : V) (m : BTreeMap V)
      → get i (insert k v m) ≡ (if i == k then some v else get i m)
  unfolding get insert
  get-insert i k v [] = refl
  get-insert i k v ((j, w) ∷ m) = ground (arith, get-insert i k v m)

  get-Above : (k : ℕ) (m : BTreeMap V) → Above k m → get k m ≡ none
  unfolding get
  get-Above k [] a = refl
  get-Above k ((j, v) ∷ m) a = ground (arith, get-Above k m a.1)

  get-below : (i k : ℕ) (m : BTreeMap V) {w : V} → Above k m → get i m ≡ some w → k < i
  unfolding get
  get-below i k [] a h = cc
  get-below i k ((j, v) ∷ m) {w} a h = ground (arith, get-below i k m {w = w} a.1)

  -- The entry that `floor` finds is an entry, at or below the key.
  pub floor_sound :
      (k : ℕ) (m : BTreeMap V) (j : ℕ) (v : V)
      → IsOrdered m
      → floor k m ≡ some (j, v)
      → (j ≤ k) × (get j m ≡ some v)
  unfolding floor get
  floor_sound k [] j v o h = cc
  floor_sound k ((i, w) ∷ m) j v o h = elim (Option-cases (floor k m)) [
    | inl none' ↦ ground arith
    | inr (e, found) ↦
        ground (arith, floor_sound k m e.0 e.1 o.1 found, get-below e.0 i m {w = e.1} o.0)
  ]

  -- No entry lies between the one that `floor` finds and the key.
  floor_greatest :
      (k i : ℕ) (m : BTreeMap V) (w : V)
      → IsOrdered m
      → i ≤ k
      → get i m ≡ some w
      → (e : ℕ × V) × (floor k m ≡ some e) × (i ≤ e.0)
  unfolding floor get
  floor_greatest k i [] w o le h = cc
  floor_greatest k i ((j, v) ∷ m) w o le h = elim (Bool-cases (i == j)) [
    | inl here ↦ elim (Option-cases (floor k m)) [
      | inl end ↦ ((j, v), ground arith, ground arith)
      | inr (f, found) ↦ (
        f,
        ground arith,
        ground (arith, floor_sound k m f.0 f.1, get-below f.0 j m {w = f.1} o.0),
      )
    ]
    | inr there ↦
        let later : get i m ≡ some w = ground arith in
        let (e, found, above) = floor_greatest k i m w o.1 le later in
        (e, ground (arith, get-below i j m {w = w} o.0), above)
  ]

  -- `floor` finds nothing exactly where every key is above.
  floor-none :
      (k : ℕ) (m : BTreeMap V) → IsOrdered m → floor k m ≡ none → (i : ℕ) → i ≤ k → get i m ≡ none
  floor-none k m o h i le = elim (Option-cases (get i m)) [
    | inl absent ↦ absent
    | inr (w, there) ↦ let (e, found, above) = floor_greatest k i m w o le there in cc
  ]

  -- The map that `floor` sees at the key itself.
  floor_self :
      (k : ℕ) (m : BTreeMap V) (v : V) → IsOrdered m → get k m ≡ some v → floor k m ≡ some (k, v)
  floor_self k m v o h =
      let (e, found, above) = floor_greatest k k m v o (omega arith) h in
      let sound = floor_sound k m e.0 e.1 o found in ground (arith, sound.0, sound.1)

  pub All-insert :
      (P : ℕ × V → Type 0) (k : ℕ) (v : V) (m : BTreeMap V)
      → P (k, v)
      → All P m
      → All P (insert k v m)
  unfolding insert
  All-insert P k v [] p a = (p, tt)
  All-insert P k v ((j, w) ∷ m) p a = elim (Order-cases k j) [
    | inl lt ↦ rw (lt, insert) (p, a)
    | inr (inl eq) ↦ rw (eq, insert) (p, a.1)
    | inr (inr gt) ↦ rw (gt, insert) (a.0, All-insert P k v m p a.1)
  ]

-- `BTreeSet<u64>`: a map with nothing at its keys.
abbrev pub BTreeSet : Type 0
BTreeSet = BTreeMap (Unit {0})

abbrev pub set_contains : ℕ → BTreeSet → Bool
set_contains k s = is_some (get k s)

unfoldable pub set_insert : ℕ → BTreeSet → BTreeSet
unfolding insert
set_insert k s = insert k tt s

-- `a.extend(b)`
unfoldable pub set_extend : BTreeSet → BTreeSet → BTreeSet
unfolding set_insert
set_extend s [] = s
set_extend s ((k, u) ∷ more) = set_extend (set_insert k s) more
