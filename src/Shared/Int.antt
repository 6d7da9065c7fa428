-- ===== src/Shared/Int.antt =====
-- Go's `int` (64 bits, two's complement): its values as integers, with the wrap-around of the
-- operations that the program uses.
use jarvinx.Shared.Tests.{ltb, leb, if◌then◌else◌}
use Prim.Native.Nat.{ℕ, suc, ◌+◌, ◌-◌, ◌*◌, ◌≤◌, ◌<◌}
use mathlib.Core.Path.{◌≡◌}
use mathlib.Core.Bool.{Bool, ◌&&◌}
use native.Mathlib.Omega.{arith}

-- `negsuc n` is -(n + 1).
pub data ℤ : Type 0 where
  pos : ℕ → ℤ
  negsuc : ℕ → ℤ

abbrev pub pos_part : ℤ → ℕ
pos_part (pos n) = n
pos_part (negsuc n) = 0

abbrev pub neg_part : ℤ → ℕ
neg_part (pos n) = 0
neg_part (negsuc n) = suc n

-- a - b, as an integer.
abbrev pub sub_ℕ : ℕ → ℕ → ℤ
sub_ℕ a b = if leb b a then pos (a - b) else negsuc (b - a - 1)

abbrev pub two63 : ℕ
two63 = 9223372036854775808

abbrev pub two64 : ℕ
two64 = 18446744073709551616

-- The 64-bit value of a sum or difference of two 64-bit values.
abbrev pub wrap64 : ℤ → ℤ
wrap64 (pos n) = if ltb n two63 then pos n else sub_ℕ n two64
wrap64 (negsuc n) = if ltb n two63 then negsuc n else sub_ℕ two64 (suc n)

-- `x++` on an int.
unfoldable pub inc : ℤ → ℤ
inc z = wrap64 (sub_ℕ (pos_part z + 1) (neg_part z))

-- `a - b` on ints.
infixl 65 ◌-ℤ◌
unfoldable pub ◌-ℤ◌ : ℤ → ℤ → ℤ
a -ℤ b = wrap64 (sub_ℕ (pos_part a + neg_part b) (neg_part a + pos_part b))

-- The product with a number, without the wrap-around.
scale : ℕ → ℤ → ℤ
scale k (pos n) = pos (n * k)
scale k (negsuc n) = negsuc (suc n * k - 1)

-- i * 1024 * 1024 on int64.
unfoldable pub mebibytes : ℤ → ℤ
unfolding scale
mebibytes i = wrap64 (scale 1024 (wrap64 (scale 1024 i)))

-- `a + b` on ints.
infixl 65 ◌+ℤ◌
unfoldable pub ◌+ℤ◌ : ℤ → ℤ → ℤ
a +ℤ b = wrap64 (sub_ℕ (pos_part a + pos_part b) (neg_part a + neg_part b))

infix 50 ◌≤ℤ◌
abbrev pub ◌≤ℤ◌ : ℤ → ℤ → Type 0
a ≤ℤ b = pos_part a + neg_part b ≤ pos_part b + neg_part a

abbrev pub leb_ℤ : ℤ → ℤ → Bool
leb_ℤ a b = leb (pos_part a + neg_part b) (pos_part b + neg_part a)

abbrev pub ltb_ℤ : ℤ → ℤ → Bool
ltb_ℤ a b = ltb (pos_part a + neg_part b) (pos_part b + neg_part a)

abbrev pub eq_ℤ : ℤ → ℤ → Bool
eq_ℤ a b = leb_ℤ a b && leb_ℤ b a

pub inc-pos : (n : ℕ) → n + 1 < two63 → inc (pos n) ≡ pos (n + 1)
unfolding inc
inc-pos n h = ground arith
