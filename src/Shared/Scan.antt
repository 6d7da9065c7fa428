-- ===== src/Shared/Scan.antt =====
-- The tokens of a bufio.Scanner: the lines, up to one that does not fit its buffer of 64 KB.
use jarvinx.Shared.Tests.{ltb, ◌==◌, if◌then◌else◌}
use jarvinx.Shared.Lists.{length}
use jarvinx.Shared.Parse.{split}
use Prim.Native.Nat.{ℕ}
use mathlib.Core.List.{List, [], ◌∷◌}

-- bufio.ScanLines drops one carriage return at the end of a line.
drop_return : List ℕ → List ℕ
drop_return [] = []
drop_return (c ∷ []) = if c == 13 then [] else c ∷ []
drop_return (c ∷ d ∷ s) = c ∷ drop_return (d ∷ s)

-- What follows the last newline is a line if it is not empty.
last_line : List ℕ → List (List ℕ)
unfolding drop_return
last_line [] = []
last_line (c ∷ s) = drop_return (c ∷ s) ∷ []

scanned : List (List ℕ) → List (List ℕ)
unfolding last_line drop_return
scanned [] = []
scanned (line ∷ []) = if ltb (length line) 65536 then last_line line else []
scanned (line ∷ line' ∷ lines) =
    let rest = scanned (line' ∷ lines) in
    if ltb (length line) 65536 then drop_return line ∷ rest else []

unfoldable pub scan_lines : List ℕ → List (List ℕ)
unfolding scanned split
scan_lines bytes = scanned (split 10 bytes)
