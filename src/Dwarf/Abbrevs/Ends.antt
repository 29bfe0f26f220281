-- ===== src/Dwarf/Abbrevs/Ends.antt =====
-- crates/delink-emit/src/dwarf_relocs.rs: the loops of `parse_abbrev_table` end within their fuel.
use delink.Prelude.{
  ℕ, zero, suc, ◌+◌, ◌≤◌, ◌<◌, ◌≡◌, ◌≢◌, refl, inl, inr, Option, none, some, List, [], ◌∷◌, drop,
  length, length-drop, ltb, leb, ◌==◌, ◌&&◌, arith, Bool-cases, Option-cases, true,
}
use delink.Prelude.Eq.{nat_eq}
use delink.Prelude.Int.{ℤ}
use delink.Dwarf.{Outcome, DwarfError, ◌>>=◌, or_fail, or_panic, tail_from}
use delink.Dwarf.Outcome.{done, failed, panicked, out_of_fuel}
use delink.Dwarf.Leb.{read_uleb128, read_sleb128}
use delink.Dwarf.Leb.Bounds.{read_uleb128_bounds, read_sleb128_bounds}
use delink.Dwarf.Abbrevs.{
  AbbrevAttr, AbbrevMap, read_at, read_implicit_const, parse_attrs, parse_abbrevs, children_flag,
  parse_abbrev_table,
}

-- A chain ends if its first step does, and the rest on whatever that returns.
pub bind-ends {ℓ κ} :
    {A : Type ℓ} {B : Type κ} (m : Outcome A) (f : A → Outcome B)
    → m ≢ out_of_fuel
    → ((a : A) → m ≡ done a → f a ≢ out_of_fuel)
    → (m >>= f) ≢ out_of_fuel
bind-ends (done a) f first rest = rest a refl
bind-ends (failed e) f first rest = λ h. cc
bind-ends panicked f first rest = λ h. cc
bind-ends out_of_fuel f first rest = λ h. first refl

-- `Ok` or `Err`: neither a panic nor a loop that goes on beyond the fuel.
abbrev pub Answers {ℓ} : {A : Type ℓ} → Outcome A → Type 0
Answers (done a) = Unit
Answers (failed e) = Unit
Answers panicked = ⊥
Answers out_of_fuel = ⊥

bind-Answers {ℓ κ} :
    {A : Type ℓ} {B : Type κ} (m : Outcome A) (f : A → Outcome B)
    → Answers m
    → ((a : A) → m ≡ done a → Answers (f a))
    → Answers (m >>= f)
bind-Answers (done a) f first rest = rest a refl
bind-Answers (failed e) f first rest = tt
bind-Answers panicked f first rest = first
bind-Answers out_of_fuel f first rest = first

pub Answers-ends {ℓ} : {A : Type ℓ} (o : Outcome A) → Answers o → o ≢ out_of_fuel
Answers-ends (done a) h = λ e. cc
Answers-ends (failed e) h = λ e'. cc
Answers-ends panicked h = absurd h
Answers-ends out_of_fuel h = absurd h

or_fail-Answers {ℓ} : {A : Type ℓ} (e : DwarfError) (o : Option A) → Answers (or_fail e o)
or_fail-Answers e none = tt
or_fail-Answers e (some a) = tt

-- Inversion of a chain that succeeds.
pub bind_done {ℓ κ} :
    {A : Type ℓ} {B : Type κ} (m : Outcome A) (f : A → Outcome B) (b : B)
    → (m >>= f) ≡ done b
    → (a : A) × (m ≡ done a) × (f a ≡ done b)
bind_done (done a) f b h = (a, refl, h)
bind_done (failed e) f b h = cc
bind_done panicked f b h = cc
bind_done out_of_fuel f b h = cc

pub or_fail-ends {ℓ} : {A : Type ℓ} (e : DwarfError) (o : Option A) → or_fail e o ≢ out_of_fuel
or_fail-ends e none = λ h. cc
or_fail-ends e (some a) = λ h. cc

pub or_panic-ends {ℓ} : {A : Type ℓ} (o : Option A) → or_panic o ≢ out_of_fuel
or_panic-ends none = λ h. cc
or_panic-ends (some a) = λ h. cc

-- A read that takes a byte at least and none that is not there.
abbrev pub Consumes {ℓ} : {A : Type ℓ} → (List ℕ → Option (A × ℕ)) → Type ℓ
Consumes {A} read =
    (bytes : List ℕ) (v : A) (n : ℕ) → read bytes ≡ some (v, n) → (0 < n) × (n ≤ length bytes)

module _ {ℓ} {A : Type ℓ} (read : List ℕ → Option (A × ℕ)) (e : DwarfError) where
  pub read_at-ends : (bytes : List ℕ) (cursor : ℕ) → read_at read e bytes cursor ≢ out_of_fuel
  unfolding read_at
  read_at-ends bytes cursor =
      bind-ends (or_panic (tail_from cursor bytes)) _ (or_panic-ends _) λ rest _.
        bind-ends (or_fail e (read rest)) _ (or_fail-ends e (read rest)) λ found _. λ h. cc

  read_at-Answers :
      (bytes : List ℕ) (cursor : ℕ) → cursor ≤ length bytes → Answers (read_at read e bytes cursor)
  unfolding read_at
  read_at-Answers bytes cursor within =
      let there : leb cursor (length bytes) ≡ true = ground arith in
      rw there
        (bind-Answers (or_fail e (read (drop cursor bytes))) _ (or_fail-Answers e _) λ found _. tt)

  pub read_at_bounds :
      Consumes read
      → (bytes : List ℕ) (cursor : ℕ) (p : A × ℕ) → read_at read e bytes cursor ≡ done p
      → (cursor < p.1) × (p.1 ≤ length bytes)
  unfolding read_at
  read_at_bounds consumes bytes cursor p h = elim (Bool-cases (leb cursor (length bytes))) [
    | inr beyond ↦ let h' = rw beyond at h in cc
    | inl within ↦ elim (Option-cases (read (drop cursor bytes))) [
      | inl nothing ↦ let h' = rw (within, nothing) at h in cc
      | inr ((v, n), found) ↦
          let h' = rw (within, found) at h in
          let bound = consumes (drop cursor bytes) v n found in
          ground (arith, bound.0, bound.1, length-drop cursor bytes)
    ]
  ]

read_implicit_const-Answers :
    (form : ℕ) (bytes : List ℕ) (cursor : ℕ)
    → cursor ≤ length bytes
    → Answers (read_implicit_const form bytes cursor)
unfolding read_implicit_const
read_implicit_const-Answers form bytes cursor within = elim (Bool-cases (form == 0x21)) [
  | inl t ↦ rw t (bind-Answers _ _ (read_at-Answers read_sleb128 _ bytes cursor within) λ v _. tt)
  | inr f ↦ rw f (tt)
]

pub read_implicit_const_bounds :
    (form : ℕ) (bytes : List ℕ) (cursor : ℕ) (p : Option ℤ × ℕ)
    → cursor ≤ length bytes
    → read_implicit_const form bytes cursor ≡ done p
    → (cursor ≤ p.1) × (p.1 ≤ length bytes)
unfolding read_implicit_const
read_implicit_const_bounds form bytes cursor p le h = elim (Bool-cases (form == 0x21)) [
  | inl t ↦
      let (v, found, end) =
        bind_done (read_at read_sleb128 DwarfError.bad_implicit_const bytes cursor) _ p
          (rw t at h) in
      ground (arith, read_at_bounds read_sleb128 _ read_sleb128_bounds bytes cursor v found)
  | inr f ↦ let h' = rw f at h in ground arith
]

uleb_bounds :
    (e : DwarfError) (bytes : List ℕ) (cursor : ℕ) (p : ℕ × ℕ)
    → read_at read_uleb128 e bytes cursor ≡ done p
    → (cursor < p.1) × (p.1 ≤ length bytes)
uleb_bounds e bytes cursor p h = read_at_bounds read_uleb128 e read_uleb128_bounds bytes cursor p h

-- A round takes two bytes at least.
parse_attrs-Answers :
    (fuel : ℕ) (bytes : List ℕ) (cursor : ℕ)
    → cursor ≤ length bytes
    → length bytes < cursor + fuel
    → Answers (parse_attrs fuel bytes cursor)
unfolding parse_attrs
parse_attrs-Answers zero bytes cursor within enough = absurd (omega arith)
parse_attrs-Answers (suc fuel) bytes cursor within enough =
    bind-Answers _ _ (read_at-Answers read_uleb128 _ bytes cursor within) λ a first.
      bind-Answers _ _
        (read_at-Answers read_uleb128 _ bytes a.1 (uleb_bounds _ bytes cursor a first).1)
        λ b second.
          let past_b = uleb_bounds _ bytes a.1 b second in
          elim (Bool-cases (a.0 == 0 && b.0 == 0)) [
            | inl last ↦ rw last (tt)
            | inr more ↦ rw more (
                bind-Answers _ _ (read_implicit_const-Answers b.0 bytes b.1 past_b.1) λ c third.
                  let past_c = read_implicit_const_bounds b.0 bytes b.1 c past_b.1 third in
                  bind-Answers _ _
                    (parse_attrs-Answers fuel bytes c.1 past_c.1
                      (omega (arith, uleb_bounds _ bytes cursor a first)))
                    λ rest _. tt)
          ]

parse_attrs_bounds :
    (fuel : ℕ) (bytes : List ℕ) (cursor : ℕ) (p : List AbbrevAttr × ℕ)
    → parse_attrs fuel bytes cursor ≡ done p
    → (cursor < p.1) × (p.1 ≤ length bytes)
unfolding parse_attrs
parse_attrs_bounds zero bytes cursor p h = cc
parse_attrs_bounds (suc fuel) bytes cursor p h =
    let (a, first, h1) =
      bind_done (read_at read_uleb128 DwarfError.bad_abbrev_attr bytes cursor) _ p h in
    let (b, second, h2) =
      bind_done (read_at read_uleb128 DwarfError.bad_abbrev_form bytes a.1) _ p h1 in
    let past_a = uleb_bounds _ bytes cursor a first in
    let past_b = uleb_bounds _ bytes a.1 b second in
    elim (Bool-cases (a.0 == 0 && b.0 == 0)) [
      | inl last ↦ let h' = rw last at h2 in ground arith
      | inr more ↦
          let (c, third, h3) = bind_done (read_implicit_const b.0 bytes b.1) _ p (rw more at h2) in
          let past_c = read_implicit_const_bounds b.0 bytes b.1 c past_b.1 third in
          let (rest, fourth, h4) = bind_done (parse_attrs fuel bytes c.1) _ p h3 in
          ground (arith, parse_attrs_bounds fuel bytes c.1 rest fourth)
    ]

-- A byte that is there.
get_elem?-lt : (bytes : List ℕ) (i b : ℕ) → children_flag bytes i ≡ done b → i < length bytes
get_elem?-lt [] i b h = cc
get_elem?-lt (x ∷ bytes) zero b h = omega arith
get_elem?-lt (x ∷ bytes) (suc i) b h = omega (arith, get_elem?-lt bytes i b h)

parse_abbrevs-Answers :
    (fuel : ℕ) (bytes : List ℕ) (cursor : ℕ) (m : AbbrevMap)
    → cursor ≤ length bytes
    → length bytes < cursor + fuel
    → Answers (parse_abbrevs fuel bytes cursor m)
unfolding parse_abbrevs
parse_abbrevs-Answers zero bytes cursor m within enough = absurd (omega arith)
parse_abbrevs-Answers (suc fuel) bytes cursor m within enough =
    elim (Bool-cases (ltb cursor (length bytes))) [
      | inr end ↦ rw end (tt)
      | inl there ↦ rw there (
          bind-Answers _ _ (read_at-Answers read_uleb128 _ bytes cursor within) λ code first.
            let past_code = uleb_bounds _ bytes cursor code first in
            elim (Bool-cases (code.0 == 0)) [
              | inl last ↦ rw last (tt)
              | inr more ↦ rw more (
                  bind-Answers _ _ (read_at-Answers read_uleb128 _ bytes code.1 past_code.1)
                    λ tag second.
                      let past_tag = uleb_bounds _ bytes code.1 tag second in
                      bind-Answers _ _ (or_fail-Answers _ _) λ flag third.
                        let room = get_elem?-lt bytes tag.1 flag third in
                        bind-Answers _ _
                          (parse_attrs-Answers fuel bytes (tag.1 + 1) (omega arith) (omega arith))
                          λ attrs fourth.
                            let past = parse_attrs_bounds fuel bytes (tag.1 + 1) attrs fourth in
                            parse_abbrevs-Answers fuel bytes attrs.1 _ past.1 (omega arith))
            ])
    ]

-- Whatever the bytes are, `parse_abbrev_table` returns a table or an error: it does not panic, and
-- its loops end within one round for each byte and one more.
pub parse_abbrev_table-Answers : (bytes : List ℕ) → Answers (parse_abbrev_table bytes)
unfolding parse_abbrev_table
parse_abbrev_table-Answers bytes =
    parse_abbrevs-Answers (length bytes + 1) bytes 0 [] (omega arith) (omega arith)
