-- ===== src/Base/Int.antt =====
-- Go's signed integers: an integer over the native numbers, and the wrap-around of int32 and int64.
use Prim.Native.Nat.{ℕ, suc, ◌+◌, ◌-◌, ◌%◌, ◌≤◌, ◌<◌}
use mathlib.Core.Path.{◌≡◌}
use mathlib.Core.Logic.{◌↔◌}
use mathlib.Core.Bool.{Bool, true}
use native.Mathlib.Omega.{arith}
use k8s_drain_surge.Base.Tests.{ltb, leb, eqb, if◌then◌else◌}

-- `negsuc n` is -(n + 1).
pub data ℤ : Type 0 where
  pos : ℕ → ℤ
  negsuc : ℕ → ℤ

abbrev pub pos_part : ℤ → ℕ
pos_part (pos n) = n
pos_part (negsuc n) = 0

abbrev pub neg_part : ℤ → ℕ
neg_part (pos n) = 0
neg_part (negsuc n) = suc n

abbrev pub sub_ℕ : ℕ → ℕ → ℤ
sub_ℕ a b = if leb b a then pos (a - b) else negsuc (b - a - 1)

infixl 65 ◌+ℤ◌ ◌-ℤ◌
infix 50 ◌≤ℤ◌ ◌<ℤ◌
unfoldable pub ◌+ℤ◌ : ℤ → ℤ → ℤ
a +ℤ b = sub_ℕ (pos_part a + pos_part b) (neg_part a + neg_part b)

unfoldable pub ◌-ℤ◌ : ℤ → ℤ → ℤ
a -ℤ b = sub_ℕ (pos_part a + neg_part b) (neg_part a + pos_part b)

abbrev pub ◌≤ℤ◌ : ℤ → ℤ → Type 0
a ≤ℤ b = pos_part a + neg_part b ≤ pos_part b + neg_part a

abbrev pub ◌<ℤ◌ : ℤ → ℤ → Type 0
a <ℤ b = pos_part a + neg_part b < pos_part b + neg_part a

abbrev pub ltb_ℤ : ℤ → ℤ → Bool
ltb_ℤ a b = ltb (pos_part a + neg_part b) (pos_part b + neg_part a)

abbrev pub leb_ℤ : ℤ → ℤ → Bool
leb_ℤ a b = leb (pos_part a + neg_part b) (pos_part b + neg_part a)

abbrev pub eqb_ℤ : ℤ → ℤ → Bool
eqb_ℤ a b = eqb (pos_part a + neg_part b) (pos_part b + neg_part a)

-- The residue of an integer, from 0 to m - 1.
residue : ℕ → ℤ → ℕ
residue m (pos n) = n % m
residue m (negsuc n) = m - 1 - n % m

-- Two's complement with `half` values on either side of zero.
unfoldable pub wrap : ℕ → ℤ → ℤ
unfolding residue
wrap half z =
    let u = residue (half + half) z in if ltb u half then pos u else negsuc (half + half - 1 - u)

abbrev pub half32 : ℕ
half32 = 2147483648

abbrev pub half64 : ℕ
half64 = 9223372036854775808

-- The conversion int32(n).
unfoldable pub int32 : ℤ → ℤ
unfolding wrap
int32 z = wrap half32 z

-- The conversion int64(n), and the result of an int64 operation.
unfoldable pub int64 : ℤ → ℤ
unfolding wrap
int64 z = wrap half64 z

-- The signed range with `half` values on either side of zero.
abbrev pub InRange : ℕ → ℤ → Type 0
InRange half z = (neg_part z ≤ half) × (pos_part z < half)

pub int32-InRange : (z : ℤ) → InRange half32 z → int32 z ≡ z
unfolding int32
int32-InRange (pos n) h = ground arith
int32-InRange (negsuc n) h = ground arith

pub int64-InRange : (z : ℤ) → InRange half64 z → int64 z ≡ z
unfolding int64
int64-InRange (pos n) h = ground arith
int64-InRange (negsuc n) h = ground arith

pub +ℤ_parts :
    (a b : ℤ)
    → pos_part (a +ℤ b) + neg_part a + neg_part b ≡ neg_part (a +ℤ b) + pos_part a + pos_part b
unfolding ◌+ℤ◌
+ℤ_parts a b = ground arith

pub -ℤ_parts :
    (a b : ℤ)
    → pos_part (a -ℤ b) + neg_part a + pos_part b ≡ neg_part (a -ℤ b) + pos_part a + neg_part b
unfolding ◌-ℤ◌
-ℤ_parts a b = ground arith

pub eq_of_parts : (a b : ℤ) → pos_part a + neg_part b ≡ pos_part b + neg_part a → a ≡ b
eq_of_parts a b h = ground arith

pub eqb_ℤ_iff : (a b : ℤ) → (eqb_ℤ a b ≡ true) ↔ (a ≡ b)
eqb_ℤ_iff a b = ground arith
