-- ===== src/Arm/Addend/RoundTrip.antt =====
-- crates/delink-arm/src/recover.rs, `apply_addend`: the linker reads the addend back, and the rest is untouched.
use delink.Prelude.{
  ℕ, ◌+◌, ◌-◌, ◌*◌, ◌/◌, ◌%◌, ◌^◌, ◌≤◌, ◌<◌, ◌≡◌, refl, inl, inr, none, some, List, ◌++◌, take,
  drop, length, length-take, length-drop, length-append, take-append, drop-append, drop-drop, subst,
  ltb, leb, ◌&&◌, true, if◌then◌else◌, arith, All, ap, sym, ◌∙◌, Option-cases,
}
use delink.Prelude.Int.{ℤ, pos, negsuc}
use delink.Prelude.Words.{IsByte, as_u64, as_u32}
use delink.Prelude.Bytes.{
  slice, from_le_bytes, to_le_bytes, from_le_bytes-to_le_bytes, length-to_le_bytes, All-slice,
  from_le_bytes-lt, length-slice,
}
use delink.Arm.{RelocKind}
use delink.Arm.Addend.{patched, apply_addend}

-- The value of a field of `w` bits as a signed number.
abbrev pub signed : ℕ → ℕ → ℤ
signed half n = if ltb n half then pos n else negsuc (2 * half - 1 - n)

-- The addend that the ARM ELF ABI reads out of a field.
unfoldable pub field_addend : RelocKind → ℕ → ℤ
field_addend RelocKind.rel32 word = signed (2 ^ 31) word
field_addend RelocKind.abs32 word = signed (2 ^ 31) word
field_addend RelocKind.got_prel word = signed (2 ^ 31) word
field_addend RelocKind.prel31 word = signed (2 ^ 30) (word % 2 ^ 31)
field_addend RelocKind.call word = signed (2 ^ 25) (word % 2 ^ 24 * 4)
field_addend RelocKind.jump24 word = signed (2 ^ 25) (word % 2 ^ 24 * 4)

-- The addend lies between -half and half.
abbrev pub IsWithin : ℕ → ℤ → Type 0
IsWithin half (pos n) = n < half
IsWithin half (negsuc n) = n < half

-- What the field of a kind can hold: branches count words.
abbrev pub IsEncodable : RelocKind → ℤ → Type 0
IsEncodable RelocKind.rel32 a = IsWithin (2 ^ 31) a
IsEncodable RelocKind.abs32 a = IsWithin (2 ^ 31) a
IsEncodable RelocKind.got_prel a = IsWithin (2 ^ 31) a
IsEncodable RelocKind.prel31 a = IsWithin (2 ^ 30) a
IsEncodable RelocKind.call a = IsWithin (2 ^ 25) a × (as_u64 a % 4 ≡ 0)
IsEncodable RelocKind.jump24 a = IsWithin (2 ^ 25) a × (as_u64 a % 4 ≡ 0)

-- The bits of the word that are not the field's own.
unfoldable pub other_bits : RelocKind → ℕ → ℕ
other_bits RelocKind.rel32 word = 0
other_bits RelocKind.abs32 word = 0
other_bits RelocKind.got_prel word = 0
other_bits RelocKind.prel31 word = word / 2 ^ 31
other_bits RelocKind.call word = word / 2 ^ 24
other_bits RelocKind.jump24 word = word / 2 ^ 24

patched-lt : (kind : RelocKind) (old : ℕ) (a : ℤ) → old < 2 ^ 32 → patched kind old a < 2 ^ 32
unfolding patched as_u32
patched-lt RelocKind.rel32 old a h = omega arith
patched-lt RelocKind.abs32 old a h = omega arith
patched-lt RelocKind.got_prel old a h = omega arith
patched-lt RelocKind.prel31 old a h = omega arith
patched-lt RelocKind.call old a h = omega arith
patched-lt RelocKind.jump24 old a h = omega arith

signed_32 : (a : ℤ) → IsWithin (2 ^ 31) a → signed (2 ^ 31) (as_u32 a) ≡ a
unfolding as_u32 as_u64
signed_32 (pos n) h = ground arith
signed_32 (negsuc n) h = ground arith

signed_31 :
    (old : ℕ) (a : ℤ)
    → IsWithin (2 ^ 30) a
    → signed (2 ^ 30) ((old / 2 ^ 31 * 2 ^ 31 + as_u32 a % 2 ^ 31) % 2 ^ 31) ≡ a
unfolding as_u32 as_u64
signed_31 old (pos n) h = ground arith
signed_31 old (negsuc n) h = ground arith

signed_branch :
    (old : ℕ) (a : ℤ)
    → IsWithin (2 ^ 25) a
    → as_u64 a % 4 ≡ 0
    → signed (2 ^ 25) ((old / 2 ^ 24 * 2 ^ 24 + as_u64 a / 4 % 2 ^ 24) % 2 ^ 24 * 4) ≡ a
unfolding as_u64
signed_branch old (pos n) h m = ground arith
signed_branch old (negsuc n) h m = ground arith

field_addend-patched :
    (kind : RelocKind) (old : ℕ) (a : ℤ)
    → IsEncodable kind a
    → (field_addend kind (patched kind old a) ≡ a)
      × (other_bits kind (patched kind old a) ≡ other_bits kind old)
unfolding patched field_addend other_bits
field_addend-patched RelocKind.rel32 old a h = (signed_32 a h, refl)
field_addend-patched RelocKind.abs32 old a h = (signed_32 a h, refl)
field_addend-patched RelocKind.got_prel old a h = (signed_32 a h, refl)
field_addend-patched RelocKind.prel31 old a h = (signed_31 old a h, omega arith)
field_addend-patched RelocKind.call old a h = (signed_branch old a h.0 h.1, omega arith)
field_addend-patched RelocKind.jump24 old a h = (signed_branch old a h.0 h.1, omega arith)

-- What a successful write leaves: the field reads back the addend and keeps its other bits, and
-- every byte outside the field is as it was.
pub record IsWritten (kind : RelocKind) (buf : List ℕ) (offset : ℕ) (a : ℤ) (out : List ℕ)
    : Type 0 where
  pub old : List ℕ
  pub new : List ℕ
  pub was : slice buf offset (offset + 4) ≡ some old
  pub is : slice out offset (offset + 4) ≡ some new
  pub addend : field_addend kind (from_le_bytes new) ≡ a
  pub others : other_bits kind (from_le_bytes new) ≡ other_bits kind (from_le_bytes old)
  pub before : take offset out ≡ take offset buf
  pub after : drop (offset + 4) out ≡ drop (offset + 4) buf

-- A list that is rebuilt around a field of four bytes.
splice-parts :
    (buf new : List ℕ) (offset : ℕ)
    → offset + 4 ≤ length buf
    → length new ≡ 4
    → let out = take offset buf ++ (new ++ drop (offset + 4) buf) in
      (take offset out ≡ take offset buf)
      × (drop (offset + 4) out ≡ drop (offset + 4) buf)
      × (slice out offset (offset + 4) ≡ some new)
unfolding slice
splice-parts buf new offset inside four =
    let rest = new ++ drop (offset + 4) buf in
    let front : length (take offset buf) ≡ offset = omega (arith, length-take offset buf) in
    let dropped = drop-append offset (take offset buf) rest front in
    let size : length (take offset buf ++ rest) ≡ length buf = omega (
      arith,
      length-append (take offset buf) rest,
      length-append new (drop (offset + 4) buf),
      length-drop (offset + 4) buf,
    ) in
    let guard : (leb offset (offset + 4) && leb (offset + 4) (length (take offset buf ++ rest)))
        ≡ true =
      ground arith in
    (
      take-append offset (take offset buf) rest front,
      sym (drop-drop offset 4 (take offset buf ++ rest))
          ∙ (ap (drop 4) dropped ∙ drop-append 4 new (drop (offset + 4) buf) four),
      rw guard (
          ap some (
            ap (λ n. take n (drop offset (take offset buf ++ rest))) (four_of offset)
            ∙ (ap (take 4) dropped ∙ take-append 4 new (drop (offset + 4) buf) four))),
    )
  where
    four_of : (n : ℕ) → n + 4 - n ≡ 4
    four_of n = omega arith

slice_of_field :
    (buf : List ℕ) (offset : ℕ)
    → offset + 4 ≤ length buf
    → (field : List ℕ) × (slice buf offset (offset + 4) ≡ some field)
unfolding slice
slice_of_field buf offset inside = elim (Option-cases (slice buf offset (offset + 4))) [
  | inl out ↦ absurd (ground arith)
  | inr found ↦ found
]

-- Within the section the write succeeds: the field reads back the addend and keeps its opcode
-- bits, and every other byte is as it was.
pub apply_addend-IsWritten :
    (kind : RelocKind) (buf : List ℕ) (offset : ℕ) (a : ℤ)
    → All IsByte buf
    → IsEncodable kind a
    → offset + 4 ≤ length buf
    → (out : List ℕ) × (apply_addend kind buf offset a ≡ some out) × IsWritten kind buf offset a out
unfolding apply_addend
apply_addend-IsWritten kind buf offset a bytes enc inside =
    let (old, was) = slice_of_field buf offset inside in
    let word = patched kind (from_le_bytes old) a in
    let new = to_le_bytes 4 word in
    let four : length old ≡ 4 = omega (arith, length-slice buf offset (offset + 4) old was) in
    let old_lt : from_le_bytes old < 256 ^ 4 =
      subst (λ n. from_le_bytes old < 256 ^ n) four
        (from_le_bytes-lt old (All-slice buf offset (offset + 4) old bytes was)) in
    let read : from_le_bytes new ≡ word =
      from_le_bytes-to_le_bytes 4 word (patched-lt kind (from_le_bytes old) a old_lt) in
    let (kept, opcode) = field_addend-patched kind (from_le_bytes old) a enc in
    let (front, back, is) = splice-parts buf new offset inside (length-to_le_bytes 4 word) in
    (
      take offset buf ++ (new ++ drop (offset + 4) buf),
      rw (was, apply_addend),
      record {
        old = old;
        new = new;
        was = was;
        is = is;
        addend = rw read kept;
        others = rw read opcode;
        before = front;
        after = back;
      },
    )

-- A field that reaches past the end of the section is an error, and nothing else is.
apply_addend-none :
    (kind : RelocKind) (buf : List ℕ) (offset : ℕ) (a : ℤ)
    → length buf < offset + 4
    → apply_addend kind buf offset a ≡ none
unfolding apply_addend slice
apply_addend-none kind buf offset a past = ground arith
