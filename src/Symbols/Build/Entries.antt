-- ===== src/Symbols/Build/Entries.antt =====
-- crates/delink-core/src/symbols.rs: entries that are put into a map one after the other, and renamed.
use delink.Prelude.{
  ℕ, ◌≡◌, refl, inl, inr, true, List, [], ◌∷◌, ◌++◌, is_some, arith, All, Bool-cases,
}
use delink.Prelude.Text.{Str}
use delink.Collections.BTreeMap
use delink.Collections.BTreeMap.{
  BTreeMap, IsOrdered, Above, insert-IsOrdered, All-insert, get-insert,
}
use delink.Symbols.Names.{rename_colliding, has_name, suffixed}

module _ {V : Type 0} where
  -- The entries, one after the other.
  abbrev pub insert_all : List (ℕ × V) → BTreeMap V → BTreeMap V
  insert_all [] m = m
  insert_all ((k, v) ∷ es) m = insert_all es (BTreeMap.insert k v m)

  abbrev pub HasKey : BTreeMap V → ℕ × V → Type 0
  HasKey m e = is_some (BTreeMap.get e.0 m) ≡ true

  pub insert_all-IsOrdered :
      (es : List (ℕ × V)) (m : BTreeMap V) → IsOrdered m → IsOrdered (insert_all es m)
  insert_all-IsOrdered [] m o = o
  insert_all-IsOrdered ((k, v) ∷ es) m o =
      insert_all-IsOrdered es (BTreeMap.insert k v m) (insert-IsOrdered k v m o)

  pub All-insert_all :
      (P : ℕ × V → Type 0) (es : List (ℕ × V)) (m : BTreeMap V)
      → All P es
      → All P m
      → All P (insert_all es m)
  All-insert_all P [] m h a = a
  All-insert_all P ((k, v) ∷ es) m h a =
      All-insert_all P es (BTreeMap.insert k v m) h.1 (All-insert P k v m h.0 a)

  insert-HasKey :
      (k : ℕ) (v : V) (m : BTreeMap V) (e : ℕ × V) → HasKey m e → HasKey (BTreeMap.insert k v m) e
  insert-HasKey k v m e h = rw (get-insert e.0 k v m) (ground arith)

  insert_all-HasKey :
      (es : List (ℕ × V)) (m : BTreeMap V) (e : ℕ × V) → HasKey m e → HasKey (insert_all es m) e
  insert_all-HasKey [] m e h = h
  insert_all-HasKey ((k, v) ∷ es) m e h =
      insert_all-HasKey es (BTreeMap.insert k v m) e (insert-HasKey k v m e h)

  pub All-HasKey : (es : List (ℕ × V)) (m : BTreeMap V) → All (HasKey (insert_all es m)) es
  All-HasKey [] m = tt
  All-HasKey ((k, v) ∷ es) m = (
    insert_all-HasKey es (BTreeMap.insert k v m) (k, v) (rw (get-insert k k v m) (ground arith)),
    All-HasKey es (BTreeMap.insert k v m),
  )

  pub insert_all-append :
      (es fs : List (ℕ × V)) (m : BTreeMap V)
      → insert_all (es ++ fs) m ≡ insert_all fs (insert_all es m)
  insert_all-append [] fs m = refl
  insert_all-append ((k, v) ∷ es) fs m = insert_all-append es fs (BTreeMap.insert k v m)

  module _ (name : V → Str) (rename : V → Str → V) (colliding : List Str) where
    rename-Above :
        (k : ℕ) (m : BTreeMap V) → Above k m → Above k (rename_colliding name rename colliding m)
    unfolding rename_colliding
    rename-Above k [] h = tt
    rename-Above k (e ∷ m) h = (h.0, rename-Above k m h.1)

    pub rename-IsOrdered :
        (m : BTreeMap V) → IsOrdered m → IsOrdered (rename_colliding name rename colliding m)
    unfolding rename_colliding
    rename-IsOrdered [] o = tt
    rename-IsOrdered (e ∷ m) o = (rename-Above e.0 m o.0, rename-IsOrdered m o.1)

    pub rename-HasKey :
        (m : BTreeMap V) (e : ℕ × V)
        → HasKey m e
        → HasKey (rename_colliding name rename colliding m) e
    unfolding rename_colliding BTreeMap.get
    rename-HasKey [] e h = h
    rename-HasKey ((k, v) ∷ m) e h = ground (arith, rename-HasKey m e)

    pub All-rename :
        (P : ℕ × V → Type 0)
        → ((k : ℕ) (v : V) (n : Str) → P (k, v) → P (k, rename v n))
        → (m : BTreeMap V) → All P m
        → All P (rename_colliding name rename colliding m)
    unfolding rename_colliding
    All-rename P keeps [] h = tt
    All-rename P keeps ((k, v) ∷ m) h = elim (Bool-cases (has_name (name v) colliding)) [
      | inl hit ↦ rw hit (keeps k v (suffixed (name v) k) h.0, All-rename P keeps m h.1)
      | inr miss ↦ rw miss (h.0, All-rename P keeps m h.1)
    ]
