-- ===== src/Prelude/Text.antt =====
-- Texts as lists of byte values: literals, and the `{:x}` format of an address.
use Prim.Native.Char.{code}
use Prim.Native.String.{String}
use Prim.Native.Nat.{ℕ, zero, suc, ◌+◌, ◌*◌, ◌/◌, ◌%◌, ◌^◌, ◌<◌}
use mathlib.Core.Path.{◌≡◌, refl, ap}
use mathlib.Core.Logic.{◌≢◌, inl, inr}
use mathlib.Core.List.{List, [], ◌∷◌, ◌++◌}
use native.Mathlib.Nat.{pow-suc}
use native.Mathlib.Omega.{arith}
use delink.Prelude.Tests.{ltb, if◌then◌else◌, Bool-cases}
use delink.Prelude.Predicates.{All}

-- A text is the list of its UTF-8 bytes.
abbrev pub Str : Type 0
Str = List ℕ

-- The bytes of an ASCII literal.
abbrev pub codes : String → Str
codes String.[] = []
codes (String.◌∷◌ c s) = code c ∷ codes s

abbrev pub dot : ℕ
dot = 0x2e

hex_digit : ℕ → ℕ
hex_digit d = if ltb d 10 then d + 0x30 else d + 0x57

hex_digits : ℕ → ℕ → Str
unfolding hex_digit
hex_digits zero n = []
hex_digits (suc fuel) n =
    let front = hex_digits fuel (n / 16) in
    if ltb n 16 then hex_digit n ∷ [] else front ++ (hex_digit (n % 16) ∷ [])

-- `{n:x}` of a u64, which has at most 16 digits.
unfoldable pub hex : ℕ → Str
unfolding hex_digits
hex n = hex_digits 16 n

abbrev pub HasNoDot : Str → Type 0
HasNoDot s = All (λ c. c ≢ dot) s

hex_digit-ne-dot : (d : ℕ) → hex_digit d ≢ dot
unfolding hex_digit
hex_digit-ne-dot d = ground arith

hex_value : ℕ → Str → ℕ
hex_value acc [] = acc
hex_value acc (c ∷ cs) = hex_value (acc * 16 + (if ltb c 0x40 then c % 16 else c % 16 + 9)) cs

hex_value-append :
    (acc : ℕ) (xs ys : Str) → hex_value acc (xs ++ ys) ≡ hex_value (hex_value acc xs) ys
unfolding hex_value
hex_value-append acc [] ys = refl
hex_value-append acc (x ∷ xs) ys =
    hex_value-append (acc * 16 + (if ltb x 0x40 then x % 16 else x % 16 + 9)) xs ys

hex_value-digit : (acc d : ℕ) → d < 16 → hex_value acc (hex_digit d ∷ []) ≡ acc * 16 + d
unfolding hex_value hex_digit
hex_value-digit acc d h = ground arith

hex_value-hex_digits : (fuel n : ℕ) → n < 16 ^ fuel → hex_value 0 (hex_digits fuel n) ≡ n
unfolding hex_digits
hex_value-hex_digits zero n h = unfold hex_value in omega arith
hex_value-hex_digits (suc fuel) n h = elim (Bool-cases (ltb n 16)) [
  | inl small ↦ rw small (ground (arith, hex_value-digit 0 n))
  | inr large ↦
      rw (large, hex_value-append, hex_value-digit _ (n % 16) (omega arith))
        (omega (arith, hex_value-hex_digits fuel (n / 16) (omega (arith, pow-suc 16 fuel))))
]

-- Two addresses print alike only if they are equal.
pub hex_injective : (a b : ℕ) → a < 2 ^ 64 → b < 2 ^ 64 → hex a ≡ hex b → a ≡ b
unfolding hex
hex_injective a b ha hb e = omega (
  arith,
  ap (hex_value 0) e,
  hex_value-hex_digits 16 a (omega arith),
  hex_value-hex_digits 16 b (omega arith),
)

-- A dotted text splits at its first dot in one way.
pub dotted_injective :
    (a b x y : Str) → HasNoDot a → HasNoDot b → a ++ (dot ∷ x) ≡ b ++ (dot ∷ y) → (a ≡ b) × (x ≡ y)
dotted_injective [] [] x y ha hb e = (refl, cc)
dotted_injective [] (c ∷ b) x y ha hb e = ground (arith, hb.0)
dotted_injective (c ∷ a) [] x y ha hb e = ground (arith, ha.0)
dotted_injective (c ∷ a) (d ∷ b) x y ha hb e =
    let tails : a ++ (dot ∷ x) ≡ b ++ (dot ∷ y) = cc in
    let (same, rest) = dotted_injective a b x y ha.1 hb.1 tails in (cc (same), rest)

pub ne-dotted : (a b x : Str) → HasNoDot a → a ≢ b ++ (dot ∷ x)
ne-dotted [] [] x h e = cc
ne-dotted [] (d ∷ b) x h e = cc
ne-dotted (c ∷ a) [] x h e = ground (arith, h.0)
ne-dotted (c ∷ a) (d ∷ b) x h e = let tails : a ≡ b ++ (dot ∷ x) = cc in ne-dotted a b x h.1 tails
