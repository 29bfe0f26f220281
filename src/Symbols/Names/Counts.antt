-- ===== src/Symbols/Names/Counts.antt =====
-- What the counting of names finds: a name that does not collide stands at most once.
use delink.Prelude.{
  ℕ, ◌+◌, ◌≤◌, ◌≡◌, ◌≢◌, false, some, [], ◌∷◌, ◌==◌, if◌then◌else◌, unwrap_or, arith, Bool-cases,
  inl, inr,
}
use delink.Prelude.Text.{Str}
use delink.Prelude.Eq.{str_eq, str_eq_iff, str_eq_inst}
use delink.Collections.BTreeMap
use delink.Collections.BTreeMap.{BTreeMap}
use delink.Collections.HashMap
use delink.Collections.HashMap.{HashMap, get-insert}
use delink.Symbols.Names.{count_names, colliding_names, has_name}

-- How often a name stands in a map.
pub occurrences {ℓ} : {V : Type ℓ} → (V → Str) → Str → BTreeMap V → ℕ
occurrences name n [] = 0
occurrences name n ((a, v) ∷ m) = (if str_eq n (name v) then 1 else 0) + occurrences name n m

abbrev counted : Str → HashMap Str ℕ → ℕ
counted n counts = unwrap_or (HashMap.get n counts) 0

module _ {ℓ} {V : Type ℓ} (name : V → Str) where
  pub count_names_lem :
      (n : Str) (m : BTreeMap V) (counts : HashMap Str ℕ)
      → counted n (count_names name m counts) ≡ counted n counts + occurrences name n m
  unfolding count_names occurrences
  count_names_lem n [] counts = omega arith
  count_names_lem n ((a, v) ∷ m) counts =
      let k : ℕ = counted (name v) counts + 1 in
      ground (
        arith,
        count_names_lem n m (HashMap.insert (name v) k counts),
        get-insert n (name v) k counts,
        str_eq_iff n (name v),
      )

  pub occurrences-pos :
      (m : BTreeMap V) (a : ℕ) {v : V} → BTreeMap.get a m ≡ some v → 1 ≤ occurrences name (name v) m
  unfolding occurrences BTreeMap.get
  occurrences-pos [] a h = cc
  occurrences-pos ((b, w) ∷ m) a {v} h = elim (Bool-cases (a == b)) [
    | inl here ↦ let same : w ≡ v = ground arith in ground (arith, str_eq_iff (name v) (name w))
    | inr there ↦
        let later : BTreeMap.get a m ≡ some v = ground arith in
        omega (arith, occurrences-pos m a later)
  ]

  -- Two entries with one name count twice.
  pub occurrences_two :
      (m : BTreeMap V) (a b : ℕ) (v w : V)
      → a ≢ b
      → BTreeMap.get a m ≡ some v
      → BTreeMap.get b m ≡ some w
      → name v ≡ name w
      → 2 ≤ occurrences name (name v) m
  unfolding occurrences BTreeMap.get
  occurrences_two [] a b v w ne ha hb e = cc
  occurrences_two ((c, u) ∷ m) a b v w ne ha hb e = ground (
    arith,
    str_eq_iff (name v) (name u),
    occurrences_two m a b v w ne,
    occurrences-pos m a {v = v},
    occurrences-pos m b {v = w},
  )

pub colliding_names_lem :
    (n : Str) (counts : HashMap Str ℕ)
    → has_name n (colliding_names counts) ≡ false
    → counted n counts ≤ 1
unfolding colliding_names has_name HashMap.get
colliding_names_lem n [] h = omega arith
colliding_names_lem n ((name, k) ∷ counts) h = ground (arith, colliding_names_lem n counts)
