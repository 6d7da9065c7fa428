-- ===== src/Shared/Parse.antt =====
-- What the program uses of `strconv` and of splitting and replacing in `strings`.
use jarvinx.Shared.Tests.{ltb, leb, ◌==◌, if◌then◌else◌}
use jarvinx.Shared.Int.{ℤ, pos, sub_ℕ, two63}
use jarvinx.Shared.Text.{Text}
use Prim.Native.Nat.{ℕ, ◌+◌, ◌-◌, ◌*◌}
use mathlib.Core.Bool.{Bool, ◌&&◌}
use mathlib.Core.Option.{Option, none, some}
use mathlib.Core.List.{List, [], ◌∷◌, map}

is_digit : ℕ → Bool
is_digit c = leb 48 c && leb c 57

-- A number written in decimal digits only, after the digits read so far.
digits : ℕ → Text → Option ℕ
unfolding is_digit
digits n [] = some n
digits n (c ∷ s) = let rest = digits (10 * n + (c - 48)) s in if is_digit c then rest else none

magnitude : Text → Option ℕ
unfolding digits
magnitude [] = none
magnitude (c ∷ s) = digits 0 (c ∷ s)

-- The value of a magnitude with its sign, if an int holds it.
positive : Option ℕ → Option ℤ
positive none = none
positive (some n) = if ltb n two63 then some (pos n) else none

negative : Option ℕ → Option ℤ
negative none = none
negative (some n) = if leb n two63 then some (sub_ℕ 0 n) else none

-- strconv.Atoi, and strconv.ParseInt with base 10 and 64 bits: `none` is an error.
unfoldable pub atoi : Text → Option ℤ
unfolding magnitude positive negative
atoi [] = none
atoi (c ∷ s) =
    if c == 43
    then positive (magnitude s)
    else if c == 45
    then negative (magnitude s)
    else positive (magnitude (c ∷ s))

-- The first part grows by a character.
grown : ℕ → List Text → List Text
grown c [] = (c ∷ []) ∷ []
grown c (part ∷ parts) = (c ∷ part) ∷ parts

-- strings.Split by one character.
unfoldable pub split : ℕ → Text → List Text
unfolding grown
split sep [] = [] ∷ []
split sep (c ∷ s) = let parts = split sep s in if c == sep then [] ∷ parts else grown c parts

-- strings.ReplaceAll of one character by another.
unfoldable pub replace_all : ℕ → ℕ → Text → Text
replace_all old new s = map (λ c. if c == old then new else c) s
