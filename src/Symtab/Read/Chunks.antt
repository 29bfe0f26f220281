-- ===== src/Symtab/Read/Chunks.antt =====
-- crates/delink-core/src/symtab.rs and symbols.rs, `chunks_exact`: entries of one size, one after the other.
use delink.Prelude.{
  ℕ, zero, suc, ◌≤◌, ◌<◌, ◌≡◌, refl, List, [], ◌∷◌, ◌++◌, map, length, length-append, take-append,
  drop-append, leb, arith, true,
}
use delink.Symtab.Read.{chunks_exact}

abbrev pub encode_all : {A : Type 0} → (A → List ℕ) → List A → List ℕ
encode_all encode [] = []
encode_all encode (a ∷ rest) = encode a ++ encode_all encode rest

-- As many rounds as bytes are enough for all the chunks.
pub chunks_exact-encode_all :
    {A : Type 0} (encode : A → List ℕ) (size : ℕ)
    → ((a : A) → length (encode a) ≡ size)
    → 0 < size
    → (es : List A) (rounds : ℕ) → length (encode_all encode es) ≤ rounds
    → chunks_exact rounds size (encode_all encode es) ≡ map encode es
unfolding chunks_exact
chunks_exact-encode_all encode size width positive [] zero h = refl
chunks_exact-encode_all encode size width positive [] (suc rounds) h = ground (arith, positive)
chunks_exact-encode_all encode size width positive (e ∷ es) zero h =
    let total = length-append (encode e) (encode_all encode es) in
    absurd (omega (arith, width e, total, positive))
chunks_exact-encode_all encode size width positive (e ∷ es) (suc rounds) h =
    let total = length-append (encode e) (encode_all encode es) in
    let guard : leb size (length (encode_all encode (e ∷ es))) ≡ true =
      ground (arith, width e, total) in
    rw (
      guard,
      take-append size (encode e) (encode_all encode es) (width e),
      drop-append size (encode e) (encode_all encode es) (width e),
      chunks_exact-encode_all encode size width positive es rounds
          (omega (arith, width e, total, positive)),
    )
