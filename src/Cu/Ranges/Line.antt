-- ===== src/Cu/Ranges/Line.antt =====
-- crates/delink-core/src/cu.rs, `compute_debug_line_range`: a line program is cut out whole.
use delink.Prelude.{
  ℕ, ◌+◌, ◌-◌, ◌^◌, ◌<◌, ◌≡◌, refl, ap, ◌∙◌, sym, Bool, true, false, some, List, ◌++◌, length,
  length-append, take-append, drop-append, append_assoc, ltb, leb, ◌==◌, arith,
}
use delink.Prelude.Bytes.{
  slice, from_le_bytes, to_le_bytes, from_le_bytes-to_le_bytes, length-to_le_bytes,
}
use delink.Prelude.Words.{add_u64}
use delink.Cu.Ranges.{line_total, compute_debug_line_range}

-- A line program behind its length, in the 32-bit format or in the 64-bit one.
unfoldable pub encode_program : (wide : Bool) → List ℕ → List ℕ
unfolding to_le_bytes
encode_program false body = to_le_bytes 4 (length body) ++ body
encode_program true body = to_le_bytes 4 0xffff_ffff ++ (to_le_bytes 8 (length body) ++ body)

-- The bytes of a part of the section.
slice-middle :
    (before part after : List ℕ) (from to : ℕ)
    → length before ≡ from
    → from + length part ≡ to
    → slice (before ++ (part ++ after)) from to ≡ some part
unfolding slice
slice-middle before part after from to start end =
    let whole = length-append before (part ++ after) in
    let rest = length-append part after in
    let forward : leb from to ≡ true = ground arith in
    let guard : leb to (length (before ++ (part ++ after))) ≡ true = ground arith in
    let width : length part ≡ to - from = omega arith in
    rw (
      forward,
      guard,
      drop-append from before (part ++ after) start,
      take-append (to - from) part after width,
    )

-- What the length field says, by its bytes.
total_narrow :
    (start : ℕ) (section word : List ℕ)
    → slice section start (start + 4) ≡ some word
    → (from_le_bytes word == 0xffff_ffff) ≡ false
    → line_total start section ≡ some (4 + from_le_bytes word)
unfolding line_total
total_narrow start section word there other = rw (there, line_total, other) refl

total_wide :
    (start : ℕ) (section word ext : List ℕ)
    → slice section start (start + 4) ≡ some word
    → (from_le_bytes word == 0xffff_ffff) ≡ true
    → slice section (start + 4) (start + 12) ≡ some ext
    → line_total start section ≡ some (add_u64 12 (from_le_bytes ext))
unfolding line_total
total_wide start section word ext there escape more = rw (there, line_total, escape, more) refl

-- The 32-bit format holds lengths below the mark of the other one.
abbrev pub FitsFormat : (wide : Bool) → List ℕ → Type 0
FitsFormat false body = length body < 0xffff_ffff
FitsFormat true body = Unit

-- The length with its field, in either format.
line_total-encode_program :
    (wide : Bool) (before body after : List ℕ)
    → FitsFormat wide body
    → length before + length (encode_program wide body) < 2 ^ 64
    → line_total (length before) (before ++ (encode_program wide body ++ after))
      ≡ some (length (encode_program wide body))
unfolding encode_program
line_total-encode_program false before body after small fits =
    let size = to_le_bytes 4 (length body) in
    let width = length-to_le_bytes 4 (length body) in
    let value = from_le_bytes-to_le_bytes 4 (length body) (omega arith) in
    let whole = append_assoc size body after in
    let word =
      slice-middle before size (body ++ after) (length before) (length before + 4) refl
        (ap (λ n. length before + n) width) in
    let other : (from_le_bytes size == 0xffff_ffff) ≡ false = ground (arith, value) in
    ap (λ t. line_total (length before) (before ++ t)) whole
    ∙ total_narrow (length before) (before ++ (size ++ (body ++ after))) size word other
    ∙ ap some (omega (arith, value, length-append size body, width))
line_total-encode_program true before body after small fits =
    let room : length body < 2 ^ 64 = omega (
      arith,
      fits,
      length-append (to_le_bytes 4 0xffff_ffff) (to_le_bytes 8 (length body) ++ body),
      length-append (to_le_bytes 8 (length body)) body,
    ) in
    let mark = to_le_bytes 4 0xffff_ffff in
    let size = to_le_bytes 8 (length body) in
    let width = length-to_le_bytes 8 (length body) in
    let value = from_le_bytes-to_le_bytes 8 (length body) (omega (arith, room)) in
    let four = length-to_le_bytes 4 0xffff_ffff in
    let whole : (mark ++ (size ++ body)) ++ after ≡ mark ++ (size ++ (body ++ after)) =
      append_assoc mark (size ++ body) after ∙ ap (λ t. mark ++ t) (append_assoc size body after) in
    let word =
      slice-middle before mark (size ++ (body ++ after)) (length before) (length before + 4) refl
        (ap (λ n. length before + n) four) in
    let escape : (from_le_bytes mark == 0xffff_ffff) ≡ true =
      ground (arith, from_le_bytes-to_le_bytes 4 0xffff_ffff (omega arith)) in
    let ext =
      ap (λ t. slice t (length before + 4) (length before + 12))
        (sym (append_assoc before mark (size ++ (body ++ after))))
      ∙ slice-middle (before ++ mark) size (body ++ after) (length before + 4) (length before + 12)
          (omega (arith, length-append before mark, four)) (omega (arith, width)) in
    ap (λ t. line_total (length before) (before ++ t)) whole
    ∙ total_wide (length before) (before ++ (mark ++ (size ++ (body ++ after)))) mark size word
        escape ext
    ∙ ap some (
        omega
          (arith, value, length-append mark (size ++ body), length-append size body, four, width))

-- A line program that is laid out behind its length, in the 64-bit format, or in the 32-bit one where
-- its length is below 0xffffffff, is cut out of .debug_line whole, whatever stands before it and after
-- it, if it ends below 2 ^ 64.
pub compute_debug_line_range-encode_program :
    (wide : Bool) (before body after : List ℕ)
    → FitsFormat wide body
    → length before + length (encode_program wide body) < 2 ^ 64
    → compute_debug_line_range (length before) (before ++ (encode_program wide body ++ after))
      ≡ some (record {
        start = length before;
        end = length before + length (encode_program wide body);
      })
unfolding compute_debug_line_range
compute_debug_line_range-encode_program wide before body after small fits =
    let program = encode_program wide body in
    let stop : add_u64 (length before) (length program) ≡ length before + length program =
      omega arith in
    let guard : ltb (length (before ++ (program ++ after))) (length before + length program)
        ≡ false =
      ground (arith, length-append before (program ++ after), length-append program after) in
    rw (
      line_total-encode_program wide before body after small fits,
      compute_debug_line_range,
      stop,
      guard,
    )
