-- ===== src/Dwarf/Line/Loops.antt =====
-- crates/delink-emit/src/dwarf_relocs.rs: a length that leads the cursor of `scan_debug_line` back.
use delink.Prelude.{
  ℕ, zero, suc, ◌+◌, ◌<◌, ◌≡◌, ◌≢◌, refl, ap, some, List, drop, length, get_elem?, ◌==◌, arith,
  true, false, leb,
}
use delink.Prelude.Words.{add_u64}
use delink.Symbols.{GlobalSymbols}
use delink.Dwarf.{Output}
use delink.Dwarf.Outcome.{done, out_of_fuel}
use delink.Dwarf.Leb.{read_uleb128}
use delink.Dwarf.Abbrevs.{read_at}
use delink.Dwarf.Line.{LineProgramHeader, step_extended, run_line}
use delink.Dwarf.Line.Ends.{get_elem?-lt}

step_extended-back :
    (s : GlobalSymbols) (header : LineProgramHeader) (slice : List ℕ) (cursor len n sub : ℕ)
    (out : Output)
    → cursor < length slice
    → read_uleb128 (drop (cursor + 1) slice) ≡ some (len, n)
    → get_elem? slice (cursor + 1 + n) ≡ some sub
    → len ≢ 0
    → sub ≢ 2
    → add_u64 (cursor + 1 + n) len ≡ cursor
    → step_extended s header slice (cursor + 1) out ≡ done (out, cursor)
unfolding step_extended read_at
step_extended-back s header slice cursor len n sub out room read there some_len other back =
    let within : leb (cursor + 1) (length slice) ≡ true = ground arith in
    let nonzero : (len == 0) ≡ false = ground arith in
    let plain : (sub == 2) ≡ false = ground arith in
    rw (within, read, nonzero, there, plain) (ap (λ (c : ℕ). done (out, c)) back)

-- An extended opcode other than DW_LNE_set_address whose length leads the cursor back to the opcode
-- itself, which a length near 2 ^ 64 does: the loop of `scan_debug_line` is still running after any
-- number of rounds.
pub run_line-loops :
    (s : GlobalSymbols) (header : LineProgramHeader) (slice : List ℕ) (cursor len n sub : ℕ)
    → get_elem? slice cursor ≡ some 0
    → read_uleb128 (drop (cursor + 1) slice) ≡ some (len, n)
    → get_elem? slice (cursor + 1 + n) ≡ some sub
    → len ≢ 0
    → sub ≢ 2
    → add_u64 (cursor + 1 + n) len ≡ cursor
    → (rounds : ℕ) (out : Output) → run_line rounds s header slice cursor out ≡ out_of_fuel
unfolding run_line
run_line-loops s header slice cursor len n sub zero' read there some_len other back zero out = refl
run_line-loops s header slice cursor len n sub zero' read there some_len other back (suc rounds)
      out =
    let step =
      step_extended-back s header slice cursor len n sub out (get_elem?-lt slice cursor 0 zero')
        read there some_len other back in
    rw (zero', run_line, step)
      (run_line-loops s header slice cursor len n sub zero' read there some_len other back rounds
        out)
