-- ===== src/Shared/Float.antt =====
-- What the program uses of Go's float64, as an interface: no law is part of it, so it also covers
-- NaN, for which every comparison is false. A theorem that needs a law takes it as a hypothesis.
use jarvinx.Shared.Tests.{ltb, leb, ◌==◌}
use jarvinx.Shared.Int.{ℤ, pos, negsuc}
use Prim.Native.Nat.{ℕ, suc, ◌%◌, ◌+◌, ◌-◌, ◌*◌, ◌/◌, ◌^◌}
use mathlib.Core.Bool.{Bool}

pub record Float64 (F : Type 0) : Type 0 where
  -- a < b, a <= b and a == b
  pub lt : F → F → Bool
  pub le : F → F → Bool
  pub eq : F → F → Bool
  pub add : F → F → F
  pub sub : F → F → F
  pub mul : F → F → F
  pub div : F → F → F
  -- The literal n / 10 ^ k, correctly rounded; `decimal n 0` is also the conversion of an integer.
  pub decimal : ℕ → ℕ → F

-- float64(i) of an int, the nearest one.
unfoldable pub from_int : {F : Type 0} ⦃fl : Float64 F⦄ → ℤ → F
from_int ⦃fl⦄ (pos n) = fl.decimal n 0
from_int ⦃fl⦄ (negsuc n) = fl.sub (fl.decimal 0 0) (fl.decimal (suc n) 0)

-- Duration.Seconds and Duration.Minutes: the whole ones and the rest are converted apart.
unfoldable pub seconds : {F : Type 0} ⦃fl : Float64 F⦄ → ℕ → F
seconds ⦃fl⦄ d =
    fl.add (fl.decimal (d / 1000000000) 0)
      (fl.div (fl.decimal (d % 1000000000) 0) (fl.decimal 1000000000 0))

unfoldable pub minutes : {F : Type 0} ⦃fl : Float64 F⦄ → ℕ → F
minutes ⦃fl⦄ d =
    fl.add (fl.decimal (d / 60000000000) 0)
      (fl.div (fl.decimal (d % 60000000000) 0) (fl.decimal 60000000000 0))

-- An instance to run the code on: numbers of thousandths, not below 0.
instance abbrev pub thousandths : Float64 ℕ
thousandths = record {
  lt = ltb;
  le = leb;
  eq = ◌==◌;
  add = λ a b. a + b;
  sub = λ a b. a - b;
  mul = λ a b. a * b / 1000;
  div = λ a b. a * 1000 / b;
  decimal = λ n k. n * 1000 / 10 ^ k;
}
