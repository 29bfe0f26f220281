-- ===== src/Symbols/Plt/Decode.antt =====
-- crates/delink-core/src/symbols.rs, `arm_plt_entry_got_slot`: the stubs that a linker writes are read back.
use delink.Prelude.{
  ℕ, ◌+◌, ◌-◌, ◌*◌, ◌/◌, ◌%◌, ◌^◌, ◌<◌, ◌≡◌, refl, ap, true, some, List, ◌++◌, arith,
}
use delink.Prelude.Bytes.{to_le_bytes, from_le_bytes-to_le_bytes}
use delink.Symbols.Plt.{arm_expand_imm12, matches_opcode, arm_plt_entry_got_slot}

-- `add ip, pc, #hi; add ip, ip, #mid; ldr pc, [ip, #lo]!` for the three parts of a distance.
abbrev word0 : ℕ → ℕ
word0 distance = 0xe28fc600 + distance / 2 ^ 20

abbrev word1 : ℕ → ℕ
word1 distance = 0xe28cca00 + distance / 2 ^ 12 % 2 ^ 8

abbrev word2 : ℕ → ℕ
word2 distance = 0xe5bcf000 + distance % 2 ^ 12

unfoldable pub encode_stub : ℕ → List ℕ
unfolding to_le_bytes
encode_stub distance =
    to_le_bytes 4 (word0 distance)
    ++ (to_le_bytes 4 (word1 distance) ++ to_le_bytes 4 (word2 distance))

expand_at :
    (imm rotation : ℕ)
    → imm / 2 ^ 8 % 2 ^ 4 ≡ rotation
    → arm_expand_imm12 imm
      ≡ imm % 2 ^ 8 / 2 ^ (rotation * 2)
        + imm % 2 ^ 8 % 2 ^ (rotation * 2) * 2 ^ (32 - rotation * 2)
unfolding arm_expand_imm12
expand_at imm rotation h = rw h refl

-- The value of the first operand is a multiple of 2 ^ 20, that of the second one of 2 ^ 12.
expand_word0 : (n : ℕ) → n < 2 ^ 8 → arm_expand_imm12 ((0xe28fc600 + n) % 2 ^ 12) ≡ n * 2 ^ 20
expand_word0 n h = rw (expand_at ((0xe28fc600 + n) % 2 ^ 12) 6 (omega arith)) (omega arith)

expand_word1 : (n : ℕ) → n < 2 ^ 8 → arm_expand_imm12 ((0xe28cca00 + n) % 2 ^ 12) ≡ n * 2 ^ 12
expand_word1 n h = rw (expand_at ((0xe28cca00 + n) % 2 ^ 12) 10 (omega arith)) (omega arith)

word0_matches : (n : ℕ) → n < 2 ^ 8 → matches_opcode (0xe28fc600 + n) 0x028f_c000 ≡ true
word0_matches n h = ground arith

word1_matches : (n : ℕ) → n < 2 ^ 8 → matches_opcode (0xe28cca00 + n) 0x028c_c000 ≡ true
word1_matches n h = ground arith

word2_matches : (n : ℕ) → n < 2 ^ 12 → matches_opcode (0xe5bcf000 + n) 0x05bc_f000 ≡ true
word2_matches n h = ground arith

-- A stub that is written for a slot at a distance below 2 ^ 28 from its third word is decoded to that
-- slot, wherever the stub lies.
pub arm_plt_entry_got_slot-encode_stub :
    (distance stub_addr : ℕ)
    → distance < 2 ^ 28
    → arm_plt_entry_got_slot (encode_stub distance) stub_addr
      ≡ some ((stub_addr + 8 + distance) % 2 ^ 64)
unfolding arm_plt_entry_got_slot encode_stub to_le_bytes
arm_plt_entry_got_slot-encode_stub distance stub_addr h =
    rw
      (
        from_le_bytes-to_le_bytes 4 (word0 distance) (omega arith),
        from_le_bytes-to_le_bytes 4 (word1 distance) (omega arith),
        from_le_bytes-to_le_bytes 4 (word2 distance) (omega arith),
        word0_matches (distance / 2 ^ 20) (omega arith),
        word1_matches (distance / 2 ^ 12 % 2 ^ 8) (omega arith),
        word2_matches (distance % 2 ^ 12) (omega arith),
        expand_word0 (distance / 2 ^ 20) (omega arith),
        expand_word1 (distance / 2 ^ 12 % 2 ^ 8) (omega arith),
      )
      (ap some (omega arith))
