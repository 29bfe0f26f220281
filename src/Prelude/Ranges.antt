-- ===== src/Prelude/Ranges.antt =====
-- `Range<u64>`, the half-open interval, and `Option`'s combinators.
use Prim.Native.Nat.{ℕ}
use mathlib.Core.Bool.{Bool, true, false, ◌&&◌}
use mathlib.Core.Option.{Option, none, some}
use delink.Prelude.Tests.{ltb, leb}

pub record Range : Type 0 where
  pub start : ℕ
  pub end : ℕ

abbrev pub contains : Range → ℕ → Bool
contains r a = leb r.start a && ltb a r.end

-- `is_some_and(|r| r.contains(&a))`
abbrev pub in_range : Option Range → ℕ → Bool
in_range none a = false
in_range (some r) a = contains r a

abbrev pub or_else {ℓ} : {A : Type ℓ} → Option A → Option A → Option A
or_else (some a) b = some a
or_else none b = b

abbrev pub unwrap_or {ℓ} : {A : Type ℓ} → Option A → A → A
unwrap_or (some a) d = a
unwrap_or none d = d

abbrev pub is_some {ℓ} : {A : Type ℓ} → Option A → Bool
is_some (some a) = true
is_some none = false
