-- ===== src/Cu/Ranges/Within.antt =====
-- crates/delink-core/src/cu.rs: the range of a unit in .debug_abbrev, and its section.
use delink.Prelude.{
  ℕ, zero, suc, ◌+◌, ◌≤◌, ◌<◌, ◌≡◌, refl, inl, inr, Bool, true, false, ◌&&◌, Option, some, List,
  length, drop, length-drop, Range, leb, ◌==◌, if◌then◌else◌, arith, Option-cases,
}
use delink.Dwarf.{Outcome, ◌>>=◌}
use delink.Dwarf.Outcome.{done, failed, panicked, out_of_fuel}
use delink.Dwarf.Leb.{read_uleb128, read_sleb128}
use delink.Dwarf.Leb.Bounds.{read_uleb128_bounds, read_sleb128_bounds}
use delink.Cu.Ranges.{read_or, skip_const, skip_attrs, skip_abbrevs, compute_debug_abbrev_range}

-- The run returns, and what it returns has the property.
abbrev pub Returns {ℓ} : {A : Type ℓ} → (A → Type 0) → Outcome A → Type 0
Returns P (done a) = P a
Returns P (failed e) = ⊥
Returns P panicked = ⊥
Returns P out_of_fuel = ⊥

bind-Returns {ℓ κ} :
    {A : Type ℓ} {B : Type κ} (P : A → Type 0) (Q : B → Type 0) (m : Outcome A) (f : A → Outcome B)
    → Returns P m
    → ((a : A) → P a → Returns Q (f a))
    → Returns Q (m >>= f)
bind-Returns P Q (done a) f h next = next a h
bind-Returns P Q (failed e) f h next = h
bind-Returns P Q panicked f h next = h
bind-Returns P Q out_of_fuel f h next = h

read_or-Returns {ℓ κ} :
    {A : Type ℓ} {B : Type κ} (Q : B → Type 0) (read : List ℕ → Option (A × ℕ)) (section : List ℕ)
    (cursor : ℕ) (stop : B) (go : A → ℕ → Outcome B)
    → ((bytes : List ℕ) (v : A) (n : ℕ) → read bytes ≡ some (v, n) → (0 < n) × (n ≤ length bytes))
    → cursor ≤ length section
    → Q stop
    → ((v : A) (next : ℕ) → cursor < next → next ≤ length section → Returns Q (go v next))
    → Returns Q (read_or read section cursor stop go)
unfolding read_or
read_or-Returns Q read section cursor stop go bounds within stopped on =
    let guard : leb cursor (length section) ≡ true = ground arith in
    let size = length-drop cursor section in
    rw guard (elim (Option-cases (read (drop cursor section))) [
      | inl absent ↦ rw absent stopped
      | inr (found, there) ↦
          let (positive, le) = bounds (drop cursor section) found.0 found.1 there in
          rw there (on found.0 (cursor + found.1) (omega arith) (omega arith))
    ])

if-Returns {ℓ} :
    {A : Type ℓ} (Q : A → Type 0) (b : Bool) (yea nay : Outcome A)
    → (b ≡ true → Returns Q yea)
    → (b ≡ false → Returns Q nay)
    → Returns Q (if b then yea else nay)
if-Returns Q true yea nay t f = t refl
if-Returns Q false yea nay t f = f refl

-- The cursor does not go back, and stays within the section.
abbrev Stays : (cursor len : ℕ) → Bool × ℕ → Type 0
Stays cursor len r = (cursor ≤ r.1) × (r.1 ≤ len)

skip_const-Returns :
    (form cursor : ℕ) (section : List ℕ)
    → cursor ≤ length section
    → Returns (Stays cursor (length section)) (skip_const form cursor section)
unfolding skip_const
skip_const-Returns form cursor section within =
    if-Returns (Stays cursor (length section)) (form == 0x21) _ (done (true, cursor))
      (λ h.
        read_or-Returns (Stays cursor (length section)) read_sleb128 section cursor (false, cursor)
          (λ v next. done (true, next)) read_sleb128_bounds within (omega arith, within)
          (λ v next above le. (omega arith, le)))
      (λ h. (omega arith, within))

skip_attrs-Returns :
    (fuel : ℕ) (section : List ℕ) (cursor : ℕ)
    → cursor ≤ length section
    → length section < cursor + fuel
    → Returns (Stays cursor (length section)) (skip_attrs fuel section cursor)
unfolding skip_attrs
skip_attrs-Returns zero section cursor within enough = absurd (omega arith)
skip_attrs-Returns (suc fuel) section cursor within enough =
    let len = length section in
    let stays = Stays cursor len in
    read_or-Returns stays read_uleb128 section cursor (false, cursor) _ read_uleb128_bounds within
      (omega arith, within)
      (λ attr behind above le.
        read_or-Returns stays read_uleb128 section behind (false, behind) _ read_uleb128_bounds le
          (omega arith, le)
          (λ form next above' le'.
            if-Returns stays (attr == 0 && form == 0) (done (true, next)) _
              (λ h. (omega arith, le'))
              (λ h.
                bind-Returns (Stays next len) stays (skip_const form next section) _
                  (skip_const-Returns form next section le')
                  (λ r s.
                    if-Returns stays r.0 _ (done r)
                      (λ on.
                        weaken cursor r.1 (skip_attrs fuel section r.1) (omega (arith, s.0))
                          (skip_attrs-Returns fuel section r.1 s.1 (omega (arith, s.0))))
                      (λ off. (omega (arith, s.0), s.1))))))
  where
    weaken :
        (low high : ℕ) (o : Outcome (Bool × ℕ))
        → low ≤ high
        → Returns (Stays high (length section)) o
        → Returns (Stays low (length section)) o
    weaken low high (done r) le s = (omega (arith, s.0), s.1)
    weaken low high (failed e) le s = s
    weaken low high panicked le s = s
    weaken low high out_of_fuel le s = s

skip_abbrevs-Returns :
    (fuel : ℕ) (section : List ℕ) (start cursor : ℕ)
    → start ≤ cursor
    → cursor ≤ length section
    → length section < cursor + fuel
    → Returns (λ end. (start ≤ end) × (end ≤ length section)) (skip_abbrevs fuel section cursor)
unfolding skip_abbrevs
skip_abbrevs-Returns zero section start cursor from within enough = absurd (omega arith)
skip_abbrevs-Returns (suc fuel) section start cursor from within enough =
    let len = length section in
    let inside : ℕ → Type 0 = λ end. (start ≤ end) × (end ≤ len) in
    if-Returns inside (leb len cursor) (done cursor) _ (λ h. (from, within))
      (λ h.
        read_or-Returns inside read_uleb128 section cursor cursor _ read_uleb128_bounds within
          (from, within)
          (λ code behind above le.
            if-Returns inside (code == 0) (done behind) _ (λ z. (omega arith, le))
              (λ z.
                read_or-Returns inside read_uleb128 section behind behind _ read_uleb128_bounds le
                  (omega arith, le)
                  (λ tag flag above' le'.
                    if-Returns inside (leb len flag) (done flag) _ (λ e. (omega arith, le'))
                      (λ e.
                        bind-Returns (Stays (flag + 1) len) inside
                          (skip_attrs fuel section (flag + 1)) _
                          (skip_attrs-Returns fuel section (flag + 1) (ground arith) (omega arith))
                          (λ r s.
                            if-Returns inside r.0 _ (done r.1)
                              (λ on.
                                skip_abbrevs-Returns fuel section start r.1 (omega (arith, s.0)) s.1
                                  (omega (arith, s.0)))
                              (λ off. (omega (arith, s.0), s.1))))))))

-- Whatever the bytes of .debug_abbrev are, the scan for the abbreviations of a unit that starts in
-- the section ends without a panic, within one round for each byte and one more, and its range goes
-- from that start to a place in the section.
pub compute_debug_abbrev_range-Returns :
    (start : ℕ) (section : List ℕ)
    → start ≤ length section
    → Returns
        (λ r. (r.start ≡ start) × (start ≤ r.end) × (r.end ≤ length section))
        (compute_debug_abbrev_range start section)
unfolding compute_debug_abbrev_range
compute_debug_abbrev_range-Returns start section within =
    let good : Range → Type 0 =
      λ r. (r.start ≡ start) × (start ≤ r.end) × (r.end ≤ length section) in
    if-Returns good (leb (length section) start) (done (record { start = start; end = start })) _
      (λ h. (refl, omega arith, within))
      (λ h.
        bind-Returns (λ end. (start ≤ end) × (end ≤ length section)) good
          (skip_abbrevs (length section + 1) section start) _
          (skip_abbrevs-Returns (length section + 1) section start start (omega arith) within
            (omega arith))
          (λ end s. (refl, s.0, s.1)))
