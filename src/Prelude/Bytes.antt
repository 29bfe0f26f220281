-- ===== src/Prelude/Bytes.antt =====
-- Byte slices: `get(a..b)`, little-endian words and prefixes.
use Prim.Native.Nat.{ℕ, zero, suc, ◌+◌, ◌-◌, ◌*◌, ◌/◌, ◌%◌, ◌^◌, ◌<◌, ◌≤◌}
use mathlib.Core.Path.{◌≡◌, refl}
use mathlib.Core.Bool.{Bool, true, false, ◌&&◌}
use mathlib.Core.Option.{Option, none, some}
use mathlib.Core.List.{List, [], ◌∷◌}
use native.Mathlib.Nat.{pow-suc}
use native.Mathlib.Omega.{arith}
use delink.Prelude.Tests.{leb, ◌==◌, if◌then◌else◌}
use delink.Prelude.Lists.{length, take, drop, length-take, length-drop}
use delink.Prelude.Predicates.{All}
use delink.Prelude.Words.{IsByte}

-- `bytes.get(from..to)`
unfoldable pub slice : List ℕ → ℕ → ℕ → Option (List ℕ)
slice bytes from to =
    if leb from to && leb to (length bytes) then some (take (to - from) (drop from bytes)) else none

-- `u32::from_le_bytes` and the like.
unfoldable pub from_le_bytes : List ℕ → ℕ
from_le_bytes [] = 0
from_le_bytes (b ∷ bs) = b + 256 * from_le_bytes bs

-- `to_le_bytes` at a width in bytes.
unfoldable pub to_le_bytes : ℕ → ℕ → List ℕ
to_le_bytes zero n = []
to_le_bytes (suc w) n = n % 256 ∷ to_le_bytes w (n / 256)

-- `text.starts_with(prefix)`
unfoldable pub starts_with : List ℕ → List ℕ → Bool
starts_with text [] = true
starts_with [] (p ∷ ps) = false
starts_with (c ∷ cs) (p ∷ ps) = c == p && starts_with cs ps

pub from_le_bytes-lt : (bs : List ℕ) → All IsByte bs → from_le_bytes bs < 256 ^ length bs
unfolding from_le_bytes
from_le_bytes-lt [] h = omega arith
from_le_bytes-lt (b ∷ bs) h = omega (arith, from_le_bytes-lt bs h.1, pow-suc 256 (length bs), h.0)

-- The bound of a width, where there may be fewer bytes.
pub from_le_bytes-lt_width :
    (width : ℕ) (bs : List ℕ) → All IsByte bs → length bs ≤ width → from_le_bytes bs < 256 ^ width
unfolding from_le_bytes
from_le_bytes-lt_width zero [] h le = omega arith
from_le_bytes-lt_width zero (b ∷ bs) h le = absurd (omega arith)
from_le_bytes-lt_width (suc width) [] h le =
    omega (arith, pow-suc 256 width, from_le_bytes-lt_width width [] tt (omega arith))
from_le_bytes-lt_width (suc width) (b ∷ bs) h le =
    omega (arith, from_le_bytes-lt_width width bs h.1 (omega arith), pow-suc 256 width, h.0)

pub from_le_bytes-to_le_bytes : (w n : ℕ) → n < 256 ^ w → from_le_bytes (to_le_bytes w n) ≡ n
unfolding from_le_bytes to_le_bytes
from_le_bytes-to_le_bytes zero n h = omega arith
from_le_bytes-to_le_bytes (suc w) n h =
    omega (arith, from_le_bytes-to_le_bytes w (n / 256) (omega (arith, pow-suc 256 w)))

pub length-to_le_bytes : (w n : ℕ) → length (to_le_bytes w n) ≡ w
unfolding to_le_bytes
length-to_le_bytes zero n = refl
length-to_le_bytes (suc w) n = omega (arith, length-to_le_bytes w (n / 256))

pub All-take {ℓ κ} :
    {A : Type ℓ} (P : A → Type κ) (n : ℕ) (xs : List A) → All P xs → All P (take n xs)
All-take P zero xs h = tt
All-take P (suc n) [] h = tt
All-take P (suc n) (x ∷ xs) h = (h.0, All-take P n xs h.1)

pub All-drop {ℓ κ} :
    {A : Type ℓ} (P : A → Type κ) (n : ℕ) (xs : List A) → All P xs → All P (drop n xs)
All-drop P zero xs h = h
All-drop P (suc n) [] h = tt
All-drop P (suc n) (x ∷ xs) h = All-drop P n xs h.1

slice_lem :
    (bytes : List ℕ) (from to : ℕ) (out : List ℕ)
    → slice bytes from to ≡ some out
    → (from ≤ to) × (to ≤ length bytes) × (out ≡ take (to - from) (drop from bytes))
unfolding slice
slice_lem bytes from to out h = ground arith

pub length-slice :
    (bytes : List ℕ) (from to : ℕ) (out : List ℕ)
    → slice bytes from to ≡ some out
    → length out ≡ to - from
length-slice bytes from to out h =
    let (a, b, c) = slice_lem bytes from to out h in
    rw c (omega (arith, length-take (to - from) (drop from bytes), length-drop from bytes))

pub All-slice :
    (bytes : List ℕ) (from to : ℕ) (out : List ℕ)
    → All IsByte bytes
    → slice bytes from to ≡ some out
    → All IsByte out
All-slice bytes from to out all h =
    rw (slice_lem bytes from to out h).2
      (All-take IsByte (to - from) (drop from bytes) (All-drop IsByte from bytes all))
