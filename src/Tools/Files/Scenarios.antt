-- ===== src/Tools/Files/Scenarios.antt =====
-- Runs of runtime/tools/filesystem.go.
use jarvinx.Shared.{ℕ, true, ◌*◌, ◌≡◌, refl, min, arith, List, [], ◌∷◌, none, length, All}
use jarvinx.Shared.Int.{pos, leb_ℤ, mebibytes}
use jarvinx.Shared.Float.{thousandths}
use jarvinx.Shared.Text.{codes}
use jarvinx.Shared.Largest.{IsKeptOr}
use jarvinx.Tools.Files.{
  FileInfo, Visit, visit_failed, visit_dir, visit_file, stat_found, file_info, scan_directory,
}
use jarvinx.Tools.Files.Top.{IsNoLarger, reaching, scan_directory-large_files}
use mathlib.Core.List.{reverse, Permᴰ}

abbrev visits : List Visit
visits =
    visit_dir (codes "logs")
    ∷ visit_file (codes "old.log") (pos (2 * 1048576)) 50
    ∷ visit_failed (codes "secret")
    ∷ visit_file (codes "small.log") (pos 10) 70
    ∷ visit_file (codes "big.log") (pos (3 * 1048576)) 60
    ∷ []

scan_directory-large_files_example :
    let shown : List (FileInfo ℕ) =
      (scan_directory reverse (codes "logs") (pos 1) (stat_found true) visits none).large_files in
    let found : List (FileInfo ℕ) = reaching (mebibytes (pos 1)) visits in
    (length shown ≡ min 10 (length found))
    × All (IsKeptOr IsNoLarger shown) found
    × All (λ f. leb_ℤ (mebibytes (pos 1)) f.size_bytes ≡ true) shown
unfolding mebibytes file_info
scan_directory-large_files_example =
    scan_directory-large_files reverse (codes "logs") (pos 1) visits none
      (Permᴰ.swap refl refl, ((omega arith, tt), (tt, tt)))
