-- ===== src/Collections/HashMap.antt =====
-- `HashMap<K, V>`, as the list of its entries, latest first; the code never depends on its order.
use delink.Prelude.{◌≡◌, Option, none, some, List, [], ◌∷◌, arith, if◌then◌else◌}
use delink.Prelude.Eq.{Eq}

abbrev pub HashMap {ℓ κ} : Type ℓ → Type κ → Type (ℓ ⊔ κ)
HashMap K V = List (K × V)

module _ {ℓ κ} {K : Type ℓ} {V : Type κ} ⦃e : Eq K⦄ where
  unfoldable pub get : K → HashMap K V → Option V
  get k [] = none
  get k ((j, v) ∷ m) = if e.beq k j then some v else get k m

  unfoldable pub remove : K → HashMap K V → HashMap K V
  remove k [] = []
  remove k ((j, v) ∷ m) = let rest = remove k m in if e.beq k j then rest else (j, v) ∷ rest

  unfoldable pub insert : K → V → HashMap K V → HashMap K V
  unfolding remove
  insert k v m = (k, v) ∷ remove k m

  pub get-remove :
      (i k : K) (m : HashMap K V) → get i (remove k m) ≡ (if e.beq i k then none else get i m)
  unfolding get remove
  get-remove i k [] = ground arith
  get-remove i k ((j, v) ∷ m) =
      ground (arith, get-remove i k m, e.beq_iff i k, e.beq_iff k j, e.beq_iff i j)

  pub get-insert :
      (i k : K) (v : V) (m : HashMap K V)
      → get i (insert k v m) ≡ (if e.beq i k then some v else get i m)
  unfolding get insert
  get-insert i k v m = ground (arith, get-remove i k m)
