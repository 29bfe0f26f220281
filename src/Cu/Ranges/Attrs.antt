-- ===== src/Cu/Ranges/Attrs.antt =====
-- crates/delink-core/src/cu.rs and crates/delink-emit/src/dwarf_relocs.rs: the attributes that
-- `parse_abbrev_table` reads are those that the scan for the range passes over.
use delink.Prelude.{
  ℕ, zero, suc, ◌+◌, ◌≤◌, ◌<◌, ◌≡◌, refl, ap, ◌∙◌, subst, inl, inr, Bool, true, false, ◌&&◌, Option,
  List, [], ◌∷◌, length, take, drop, ◌==◌, if◌then◌else◌, arith, Bool-cases,
}
use delink.Prelude.Int.{ℤ}
use delink.Dwarf.{Outcome, DwarfError, ◌>>=◌}
use delink.Dwarf.Outcome.{done}
use delink.Dwarf.Leb.{read_uleb128, read_sleb128}
use delink.Dwarf.Leb.Bounds.{read_uleb128_bounds, read_sleb128_bounds}
use delink.Dwarf.Leb.Local.{read_uleb128-take, read_sleb128-take}
use delink.Dwarf.Abbrevs.{AbbrevAttr, read_at, read_implicit_const, parse_attrs}
use delink.Dwarf.Abbrevs.Ends.{bind_done, read_at_bounds, read_implicit_const_bounds}
use delink.Cu.Ranges.{read_or, skip_const, skip_attrs}
use delink.Cu.Ranges.Local.{positive, done-inj, uleb_take, const_take, read_or-step}

module _ (section : List ℕ) (start : ℕ) (inside : start ≤ length section) where
  const_step :
      (form c : ℕ) (p : Option ℤ × ℕ)
      → read_implicit_const form (drop start section) c ≡ done p
      → skip_const form (start + c) section ≡ done (true, start + p.1)
  unfolding read_implicit_const skip_const
  const_step form c p h = elim (Bool-cases (form == 0x21)) [
    | inr other ↦ let h' = rw other at h in rw other (ap done (ground arith))
    | inl const ↦
        let (v, found, same) =
          bind_done (read_at read_sleb128 DwarfError.bad_implicit_const (drop start section) c) _ p
            (rw const at h) in
        rw const (
          read_or-step read_sleb128 DwarfError.bad_implicit_const read_sleb128_bounds
            read_sleb128-take section start c v (false, start + c) (λ v next. done (true, next))
            inside found
          ∙ ap done (ground arith))
  ]

  pub uleb_step :
      {B : Type 0} (error : DwarfError) (c : ℕ) (p : ℕ × ℕ) (stop : B) (go : ℕ → ℕ → Outcome B)
      → read_at read_uleb128 error (drop start section) c ≡ done p
      → read_or read_uleb128 section (start + c) stop go ≡ go p.0 (start + p.1)
  uleb_step error c p stop go h =
      read_or-step read_uleb128 error read_uleb128_bounds read_uleb128-take section start c p stop
        go inside h

  -- What the attributes that are parsed at a place say of the bytes up to a later one, and of the scan.
  abbrev pub AttrsAt : ℕ → List AbbrevAttr × ℕ → Type 0
  AttrsAt c r =
      (c < r.1)
      × (r.1 ≤ length (drop start section))
      × ((e fuel : ℕ)
          → r.1 ≤ e
          → e ≤ length (drop start section)
          → e < c + fuel
          → parse_attrs fuel (take e (drop start section)) c ≡ done r)
      × ((fuel : ℕ)
          → length (drop start section) < c + fuel
          → skip_attrs fuel section (start + c) ≡ done (true, start + r.1))

  -- A pair that is read is a round of the scan.
  pair_step :
      (k c : ℕ) (attr form : ℕ × ℕ)
      → read_at read_uleb128 DwarfError.bad_abbrev_attr (drop start section) c ≡ done attr
      → read_at read_uleb128 DwarfError.bad_abbrev_form (drop start section) attr.1 ≡ done form
      → skip_attrs (suc k) section (start + c) ≡ (
          if attr.0 == 0 && form.0 == 0
          then done (true, start + form.1)
          else (skip_const form.0 (start + form.1) section >>= λ const.
              if const.0 then skip_attrs k section const.1 else done const))
  unfolding skip_attrs
  pair_step k c attr form at_attr at_form =
      let after : ℕ → ℕ → ℕ → Outcome (Bool × ℕ) = λ a f next.
        if a == 0 && f == 0
        then done (true, next)
        else (skip_const f next section >>= λ const.
            if const.0 then skip_attrs k section const.1 else done const) in
      uleb_step DwarfError.bad_abbrev_attr c attr (false, start + c)
        (λ a behind. read_or read_uleb128 section behind (false, behind) (after a)) at_attr
      ∙ uleb_step DwarfError.bad_abbrev_form attr.1 form (false, start + attr.1) (after attr.0)
          at_form

  attrs_last :
      (c : ℕ) (attr form : ℕ × ℕ)
      → read_at read_uleb128 DwarfError.bad_abbrev_attr (drop start section) c ≡ done attr
      → read_at read_uleb128 DwarfError.bad_abbrev_form (drop start section) attr.1 ≡ done form
      → (attr.0 == 0 && form.0 == 0) ≡ true
      → AttrsAt c ([], form.1)
  unfolding parse_attrs
  attrs_last c attr form at_attr at_form last =
      let bytes = drop start section in
      let (a, a_le) = read_at_bounds read_uleb128 _ read_uleb128_bounds bytes c attr at_attr in
      let (f, f_le) = read_at_bounds read_uleb128 _ read_uleb128_bounds bytes attr.1 form at_form in
      (
        omega arith,
        f_le,
        λ e fuel le within enough.
            let (k, more) = positive fuel (omega arith) in
            rw
              (
                more,
                parse_attrs,
                uleb_take DwarfError.bad_abbrev_attr bytes c e attr at_attr (omega arith) within,
                uleb_take DwarfError.bad_abbrev_form bytes attr.1 e form at_form le within,
                last,
              )
              refl,
        λ fuel enough.
            let (k, more) = positive fuel (omega arith) in
            ap (λ (n : ℕ). skip_attrs n section (start + c)) more
            ∙ pair_step k c attr form at_attr at_form
            ∙ rw last refl,
      )

  attrs_more :
      (c : ℕ) (attr form : ℕ × ℕ) (value : Option ℤ × ℕ) (rest : List AbbrevAttr × ℕ)
      → read_at read_uleb128 DwarfError.bad_abbrev_attr (drop start section) c ≡ done attr
      → read_at read_uleb128 DwarfError.bad_abbrev_form (drop start section) attr.1 ≡ done form
      → (attr.0 == 0 && form.0 == 0) ≡ false
      → read_implicit_const form.0 (drop start section) form.1 ≡ done value
      → AttrsAt value.1 rest
      → AttrsAt c
          (record { attr = attr.0; form = form.0; implicit_const = value.0 } ∷ rest.0, rest.1)
  unfolding parse_attrs
  attrs_more c attr form value rest at_attr at_form other at_value (above, r_le, parsed, skipped) =
      let bytes = drop start section in
      let (a, a_le) = read_at_bounds read_uleb128 _ read_uleb128_bounds bytes c attr at_attr in
      let (f, f_le) = read_at_bounds read_uleb128 _ read_uleb128_bounds bytes attr.1 form at_form in
      let (v, v_le) = read_implicit_const_bounds form.0 bytes form.1 value f_le at_value in
      (
        omega arith,
        r_le,
        λ e fuel le within enough.
            let (k, more) = positive fuel (omega arith) in
            rw
              (
                more,
                parse_attrs,
                uleb_take DwarfError.bad_abbrev_attr bytes c e attr at_attr (omega arith) within,
                uleb_take DwarfError.bad_abbrev_form bytes attr.1 e form at_form (omega arith)
                    within,
                other,
                const_take form.0 bytes form.1 e value at_value (omega arith) within,
                parsed e k le within (omega arith),
              )
              refl,
        λ fuel enough.
            let (k, more) = positive fuel (omega arith) in
            ap (λ (n : ℕ). skip_attrs n section (start + c)) more
            ∙ pair_step k c attr form at_attr at_form
            ∙ rw (other, const_step form.0 form.1 value at_value) (skipped k (omega arith)),
      )

  pub parse_attrs-AttrsAt :
      (fuel c : ℕ) (r : List AbbrevAttr × ℕ)
      → parse_attrs fuel (drop start section) c ≡ done r
      → AttrsAt c r
  unfolding parse_attrs
  parse_attrs-AttrsAt zero c r h = cc
  parse_attrs-AttrsAt (suc fuel) c r h =
      let bytes = drop start section in
      let (attr, at_attr, h1) =
        bind_done (read_at read_uleb128 DwarfError.bad_abbrev_attr bytes c) _ r h in
      let (form, at_form, h2) =
        bind_done (read_at read_uleb128 DwarfError.bad_abbrev_form bytes attr.1) _ r h1 in
      elim (Bool-cases (attr.0 == 0 && form.0 == 0)) [
        | inl last ↦
            let same : ([], form.1) ≡ r = done-inj (rw last at h2) in
            subst (AttrsAt c) same (attrs_last c attr form at_attr at_form last)
        | inr other ↦
            let (value, at_value, h3) =
              bind_done (read_implicit_const form.0 bytes form.1) _ r (rw other at h2) in
            let (rest, at_rest, h4) = bind_done (parse_attrs fuel bytes value.1) _ r h3 in
            subst (AttrsAt c) (done-inj h4) (
              attrs_more c attr form value rest at_attr at_form other at_value
                (parse_attrs-AttrsAt fuel value.1 rest at_rest))
      ]
