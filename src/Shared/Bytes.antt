-- ===== src/Shared/Bytes.antt =====
-- strings.TrimSpace on a string that is given by its bytes: it takes off the characters of unicode.IsSpace,
-- decoded from UTF-8. A byte that is no part of a character is none of them. From the end of a string a
-- character is decoded from the last byte that can start one, so the encoding of a white space at the end
-- is that white space.
use jarvinx.Shared.Tests.{◌==◌, if◌then◌else◌}
use jarvinx.Shared.Lists.{length}
use jarvinx.Shared.Text.{Text, utf8, has_prefix}
use Prim.Native.Nat.{ℕ, zero, suc, ◌-◌}
use mathlib.Core.List.{List, [], ◌∷◌, map, reverse}

abbrev white_spaces : Text
white_spaces =
    9 ∷ 10 ∷ 11 ∷ 12 ∷ 13 ∷ 32 ∷ 0x85 ∷ 0xA0 ∷ 0x1680 ∷ 0x2000 ∷ 0x2001 ∷ 0x2002 ∷ 0x2003 ∷ 0x2004
    ∷ 0x2005 ∷ 0x2006 ∷ 0x2007 ∷ 0x2008 ∷ 0x2009 ∷ 0x200A ∷ 0x2028 ∷ 0x2029 ∷ 0x202F ∷ 0x205F
    ∷ 0x3000 ∷ []

unfoldable pub encodings : List Text
unfolding utf8
encodings = map (λ c. utf8 (c ∷ [])) white_spaces

-- The length of the encoding that the bytes start with, 0 if there is none.
unfoldable pub width : List Text → Text → ℕ
unfolding has_prefix
width [] s = 0
width (e ∷ es) s = let rest = width es s in if has_prefix s e then length e else rest

-- The bytes after the encodings at the start; `skipped` more bytes belong to the one at hand.
unfoldable pub trim_start : List Text → ℕ → Text → Text
unfolding width
trim_start es skipped [] = []
trim_start es (suc skipped) (c ∷ s) = trim_start es skipped s
trim_start es zero (c ∷ s) =
    let n = width es (c ∷ s) in let rest = trim_start es (n - 1) s in if n == 0 then c ∷ s else rest

unfoldable pub trim_bytes : Text → Text
unfolding trim_start encodings
trim_bytes s = reverse (trim_start (map reverse encodings) 0 (reverse (trim_start encodings 0 s)))
