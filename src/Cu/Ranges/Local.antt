-- ===== src/Cu/Ranges/Local.antt =====
-- crates/delink-core/src/cu.rs and crates/delink-emit/src/dwarf_relocs.rs: a read of the parser needs its own
-- bytes only, and the scan for the range takes the same step.
use delink.Prelude.{
  ℕ, zero, suc, ◌+◌, ◌-◌, ◌≤◌, ◌<◌, ◌≡◌, refl, ap, ◌∙◌, sym, inl, inr, true, Option, some, List, [],
  ◌∷◌, length, take, drop, length-drop, length-take, drop-drop, leb, ◌==◌, arith, Bool-cases,
  Option-cases,
}
use delink.Prelude.Int.{ℤ}
use delink.Dwarf.{Outcome, DwarfError}
use delink.Dwarf.Outcome.{done}
use delink.Dwarf.Leb.{read_uleb128, read_sleb128}
use delink.Dwarf.Leb.Bounds.{read_uleb128_bounds, read_sleb128_bounds}
use delink.Dwarf.Leb.Local.{read_uleb128-take, read_sleb128-take}
use delink.Dwarf.Abbrevs.{read_at, read_implicit_const}
use delink.Dwarf.Abbrevs.Ends.{Consumes, bind_done}
use delink.Cu.Ranges.{read_or}

take_nil : (n : ℕ) → take {A = ℕ} n [] ≡ []
take_nil zero = refl
take_nil (suc n) = refl

drop-take : (c e k : ℕ) (xs : List ℕ) → e ≡ c + k → drop c (take e xs) ≡ take k (drop c xs)
drop-take zero e k xs h = ap (λ n. take n xs) (omega arith)
drop-take (suc c) zero k xs h = absurd (omega arith)
drop-take (suc c) (suc e) k [] h = sym (take_nil k)
drop-take (suc c) (suc e) k (x ∷ xs) h = drop-take c e k xs (omega arith)

pub length-take_le : (e : ℕ) (xs : List ℕ) → e ≤ length xs → length (take e xs) ≡ e
length-take_le e xs h = omega (arith, length-take e xs)

pub done-inj : {A : Type 0} {a b : A} → done a ≡ done b → a ≡ b
done-inj h = cc

pub positive : (n : ℕ) → 0 < n → (k : ℕ) × (n ≡ suc k)
positive zero h = absurd (omega arith)
positive (suc n) h = (n, refl)

-- A read that needs its own bytes only.
abbrev IsLocal : {A : Type 0} → (List ℕ → Option (A × ℕ)) → Type 0
IsLocal {A} read =
    (bytes : List ℕ) (v : A) (n j : ℕ)
    → read bytes ≡ some (v, n)
    → n ≤ j
    → read (take j bytes) ≡ some (v, n)

module _ {A : Type 0} (read : List ℕ → Option (A × ℕ)) (error : DwarfError)
    (consumes : Consumes read) (local : IsLocal read) where
  read_at-inv :
      (bytes : List ℕ) (c : ℕ) (p : A × ℕ)
      → read_at read error bytes c ≡ done p
      → (n : ℕ) × (c ≤ length bytes) × (read (drop c bytes) ≡ some (p.0, n)) × (p.1 ≡ c + n)
  unfolding read_at
  read_at-inv bytes c p h = elim (Bool-cases (leb c (length bytes))) [
    | inr beyond ↦ let h' = rw beyond at h in cc
    | inl within ↦ elim (Option-cases (read (drop c bytes))) [
      | inl absent ↦ let h' = rw (within, absent) at h in cc
      | inr ((v, n), found) ↦
          let h' = rw (within, found) at h in
          (n, ground arith, found ∙ ap some (ground arith), ground arith)
    ]
  ]

  -- The same bytes suffice, and the scan for the range takes the same step.
  read_at-take :
      (bytes : List ℕ) (c e : ℕ) (p : A × ℕ)
      → read_at read error bytes c ≡ done p
      → p.1 ≤ e
      → e ≤ length bytes
      → read_at read error (take e bytes) c ≡ done p
  unfolding read_at
  read_at-take bytes c e p h le within =
      let (n, start, found, next) = read_at-inv bytes c p h in
      let size = length-take_le e bytes within in
      let guard : leb c (length (take e bytes)) ≡ true = ground (arith, size) in
      let (k, split) : (k : ℕ) × (e ≡ c + k) = (e - c, omega arith) in
      rw (guard, drop-take c e k bytes split, local (drop c bytes) p.0 n k found (omega arith))
        (ap done (ground arith))

  pub read_or-step :
      {B : Type 0} (section : List ℕ) (start c : ℕ) (p : A × ℕ) (stop : B) (go : A → ℕ → Outcome B)
      → start ≤ length section
      → read_at read error (drop start section) c ≡ done p
      → read_or read section (start + c) stop go ≡ go p.0 (start + p.1)
  unfolding read_or
  read_or-step section start c p stop go le h =
      let (n, within, found, next) = read_at-inv (drop start section) c p h in
      let size = length-drop start section in
      let guard : leb (start + c) (length section) ≡ true = ground arith in
      let there : read (drop (start + c) section) ≡ some (p.0, n) =
        ap read (sym (drop-drop start c section)) ∙ found in
      rw (guard, there) (ap (go p.0) (omega arith))

pub uleb_take :
    (error : DwarfError) (bytes : List ℕ) (c e : ℕ) (p : ℕ × ℕ)
    → read_at read_uleb128 error bytes c ≡ done p
    → p.1 ≤ e
    → e ≤ length bytes
    → read_at read_uleb128 error (take e bytes) c ≡ done p
uleb_take error = read_at-take read_uleb128 error read_uleb128_bounds read_uleb128-take

pub const_take :
    (form : ℕ) (bytes : List ℕ) (c e : ℕ) (p : Option ℤ × ℕ)
    → read_implicit_const form bytes c ≡ done p
    → p.1 ≤ e
    → e ≤ length bytes
    → read_implicit_const form (take e bytes) c ≡ done p
unfolding read_implicit_const
const_take form bytes c e p h le within = elim (Bool-cases (form == 0x21)) [
  | inr other ↦ let h' = rw other at h in rw other h'
  | inl const ↦
      let (v, found, same) =
        bind_done (read_at read_sleb128 DwarfError.bad_implicit_const bytes c) _ p
          (rw const at h) in
      let again =
        read_at-take read_sleb128 DwarfError.bad_implicit_const read_sleb128_bounds
          read_sleb128-take bytes c e v found (ground arith) within in
      rw (const, again) same
]
