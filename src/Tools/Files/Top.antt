-- ===== src/Tools/Files/Top.antt =====
-- The large files that ScanDirectory of runtime/tools/filesystem.go shows.
use jarvinx.Shared.{
  ℕ, zero, suc, min, ◌≡◌, refl, sym, ap, ◌∙◌, true, false, List, [], ◌∷◌, ◌++◌, Option, none, some,
  ltb, arith, if◌then◌else◌, length, take, All, Bool-cases, inl, inr,
}
use mathlib.Core.List.{append_assoc, append-nil}
use jarvinx.Shared.Int.{ℤ, ◌≤ℤ◌, leb_ℤ, mebibytes}
use jarvinx.Shared.Float.{Float64}
use jarvinx.Shared.Text.{Text}
use jarvinx.Shared.Largest.{IsSortOf, IsKeptOr, take-IsSortOf}
use jarvinx.Tools.Files.{
  FileInfo, DirStats, Visit, visit, visit_failed, visit_dir, visit_file, stat_found, file_info,
  walk, empty_stats, in_mb, scanned, scan_directory, with_usage,
}

take-all {ℓ} : {A : Type ℓ} (n : ℕ) (xs : List A) → ltb n (length xs) ≡ false → take n xs ≡ xs
take-all zero [] h = refl
take-all zero (x ∷ xs) h = absurd (ground arith)
take-all (suc n) [] h = refl
take-all (suc n) (x ∷ xs) h = ap (λ ys. x ∷ ys) (take-all n xs (ground arith))

capped {ℓ} :
    {A : Type ℓ} (n : ℕ) (xs : List A) → (if ltb n (length xs) then take n xs else xs) ≡ take n xs
capped n xs = elim (Bool-cases (ltb n (length xs))) [
  | inl over ↦ rw over refl
  | inr fits ↦ rw fits (sym (take-all n xs fits))
]

module _ {F : Type 0} where
  abbrev pub IsNoLarger : FileInfo F → FileInfo F → Type 0
  IsNoLarger f g = f.size_bytes ≤ℤ g.size_bytes

  module _ ⦃fl : Float64 F⦄ where
    -- The files of a walk that reach the size, in the order of the walk.
    abbrev pub reaching : ℤ → List Visit → List (FileInfo F)
    reaching max_bytes [] = []
    reaching max_bytes (visit_file path size mod_time ∷ visits) =
        let rest = reaching max_bytes visits in
        if leb_ℤ max_bytes size then file_info path size mod_time ∷ rest else rest
    reaching max_bytes (_ ∷ visits) = reaching max_bytes visits

module _ (F : Type 0) ⦃fl : Float64 F⦄ where
  reaching-size :
      (max_bytes : ℤ) (visits : List Visit)
      → All (λ f. leb_ℤ max_bytes f.size_bytes ≡ true) (reaching {F = F} max_bytes visits)
  unfolding file_info
  reaching-size max_bytes [] = tt
  reaching-size max_bytes (visit_failed path ∷ visits) = reaching-size max_bytes visits
  reaching-size max_bytes (visit_dir path ∷ visits) = reaching-size max_bytes visits
  reaching-size max_bytes (visit_file path size mod_time ∷ visits) =
      elim (Bool-cases (leb_ℤ max_bytes size)) [
        | inl large ↦ rw large (large, reaching-size max_bytes visits)
        | inr small ↦ rw small (reaching-size max_bytes visits)
      ]

module _ {F : Type 0} ⦃fl : Float64 F⦄ where
  walk-reaching :
      (max_bytes : ℤ) (visits : List Visit) (stats : DirStats F)
      → (walk max_bytes visits stats).large_files ≡ stats.large_files ++ reaching max_bytes visits
  unfolding walk
  walk-reaching max_bytes [] stats = sym (append-nil stats.large_files)
  walk-reaching max_bytes (visit_failed path ∷ visits) stats = walk-reaching max_bytes visits stats
  walk-reaching max_bytes (visit_dir path ∷ visits) stats = walk-reaching max_bytes visits stats
  walk-reaching max_bytes (visit_file path size mod_time ∷ visits) stats =
      elim (Bool-cases (leb_ℤ max_bytes size)) [
        | inl large ↦
            walk-reaching max_bytes visits (visit max_bytes (visit_file path size mod_time) stats)
            ∙ rw large (append_assoc stats.large_files (file_info path size mod_time ∷ []) _)
        | inr small ↦
            walk-reaching max_bytes visits (visit max_bytes (visit_file path size mod_time) stats)
            ∙ rw small refl
      ]

  with_usage-large_files :
      (usage : Option (ℕ × F)) (stats : DirStats F)
      → (with_usage usage stats).large_files ≡ stats.large_files
  unfolding with_usage
  with_usage-large_files none stats = refl
  with_usage-large_files (some u) stats = refl

  -- When a directory can be looked at and `sort` sorts its files that reach the limit by size, the
  -- largest first, ScanDirectory lists ten of them, or all if there are fewer; each one that it lists
  -- reaches the limit, and one that it leaves out is not larger than any that it lists.
  pub scan_directory-large_files :
      (sort : List (FileInfo F) → List (FileInfo F)) (path : Text) (max_size_mb : ℤ)
      (visits : List Visit) (usage : Option (ℕ × F))
      → (let found : List (FileInfo F) = reaching (mebibytes max_size_mb) visits in
          IsSortOf IsNoLarger found (sort found))
      → let shown : List (FileInfo F) =
          (scan_directory sort path max_size_mb (stat_found true) visits usage).large_files in
        let found : List (FileInfo F) = reaching (mebibytes max_size_mb) visits in
        (length shown ≡ min 10 (length found))
        × All (IsKeptOr IsNoLarger shown) found
        × All (λ f. leb_ℤ (mebibytes max_size_mb) f.size_bytes ≡ true) shown
  unfolding scan_directory scanned empty_stats
  scan_directory-large_files sort path max_size_mb visits usage sorts =
      let max_bytes = mebibytes max_size_mb in
      let walked = walk max_bytes visits (empty_stats path) in
      let listed =
        with_usage-large_files usage (record walked { total_mb = in_mb walked.total_bytes })
        ∙ walk-reaching max_bytes visits (empty_stats path) in
      rw (listed, capped 10 (sort (reaching max_bytes visits)))
        (take-IsSortOf IsNoLarger (λ f. leb_ℤ max_bytes f.size_bytes ≡ true) 10
          (reaching max_bytes visits) (sort (reaching max_bytes visits)) sorts
          (reaching-size F max_bytes visits))
