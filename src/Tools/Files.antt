-- ===== src/Tools/Files.antt =====
-- runtime/tools/filesystem.go. What `os.Stat`, `filepath.Walk` and the usage of the disk answer are
-- arguments, and so is `sort.Slice`, which puts equal items in any order. Walk returns the error of its
-- function, and this one returns none.
pub mod Top
mod Scenarios
use jarvinx.Shared.{
  ℕ, Bool, true, false, List, [], ◌∷◌, ◌++◌, Option, none, some, ltb, if◌then◌else◌, length, take,
}
use jarvinx.Shared.Int.{ℤ, pos, inc, ◌+ℤ◌, leb_ℤ, mebibytes}
use jarvinx.Shared.Clock.{Time}
use jarvinx.Shared.Float.{Float64, from_int}
use jarvinx.Shared.Text.{Text, codes}

pub record FileInfo (F : Type 0) : Type 0 where
  pub path : Text
  pub size_bytes : ℤ
  pub size_mb : F
  pub is_dir : Bool
  pub children : ℤ
  pub mod_time : Time

pub record DirStats (F : Type 0) : Type 0 where
  pub path : Text
  pub total_bytes : ℤ
  pub total_mb : F
  pub file_count : ℤ
  pub large_files : List (FileInfo F)
  pub last_modified : Time
  pub inodes_used : ℕ
  pub inodes_percent : F
  pub error : Text

-- What os.Stat tells of the path: the text of its error, or whether it is a directory.
pub data Stat : Type 0 where
  stat_failed : Text → Stat
  stat_found : Bool → Stat

-- What Walk calls its function with: a path that it could not read, a directory, or a file with its size
-- and the time of its last change.
pub data Visit : Type 0 where
  visit_failed : Text → Visit
  visit_dir : Text → Visit
  visit_file : Text → ℤ → Time → Visit

latest : Time → Time → Time
latest mod_time last_modified = if ltb last_modified mod_time then mod_time else last_modified

module _ {F : Type 0} where
  module _ ⦃fl : Float64 F⦄ where
    -- float64(n) / 1024 / 1024
    unfoldable pub in_mb : ℤ → F
    unfolding from_int
    in_mb n = fl.div (fl.div (from_int n) (fl.decimal 1024 0)) (fl.decimal 1024 0)

    unfoldable pub file_info : Text → ℤ → Time → FileInfo F
    unfolding in_mb
    file_info path size mod_time = record {
      path = path;
      size_bytes = size;
      size_mb = in_mb size;
      is_dir = false;
      children = pos 0;
      mod_time = mod_time;
    }

    -- The function that Walk calls.
    unfoldable pub visit : ℤ → Visit → DirStats F → DirStats F
    unfolding file_info latest
    visit max_bytes (visit_failed path) stats = stats
    visit max_bytes (visit_dir path) stats = stats
    visit max_bytes (visit_file path size mod_time) stats = record stats {
      total_bytes = stats.total_bytes +ℤ size;
      file_count = inc stats.file_count;
      last_modified = latest mod_time stats.last_modified;
      large_files =
          if leb_ℤ max_bytes size
          then stats.large_files ++ file_info path size mod_time ∷ []
          else stats.large_files;
    }

    unfoldable pub walk : ℤ → List Visit → DirStats F → DirStats F
    unfolding visit
    walk max_bytes [] stats = stats
    walk max_bytes (v ∷ visits) stats = walk max_bytes visits (visit max_bytes v stats)

    unfoldable pub empty_stats : Text → DirStats F
    empty_stats path = record {
      path = path;
      total_bytes = pos 0;
      total_mb = fl.decimal 0 0;
      file_count = pos 0;
      large_files = [];
      last_modified = 0;
      inodes_used = 0;
      inodes_percent = fl.decimal 0 0;
      error = [];
    }

    unfoldable pub with_usage : Option (ℕ × F) → DirStats F → DirStats F
    with_usage none stats = stats
    with_usage (some (used, percent)) stats = record stats {
      inodes_used = used;
      inodes_percent = percent;
    }

    module _ (sort : List (FileInfo F) → List (FileInfo F)) where
      -- The part after the checks of the path.
      unfoldable pub scanned : Text → ℤ → List Visit → Option (ℕ × F) → DirStats F
      unfolding walk empty_stats in_mb with_usage
      scanned path max_size_mb visits usage =
          let walked = walk (mebibytes max_size_mb) visits (empty_stats path) in
          let summed = record walked { total_mb = in_mb walked.total_bytes } in
          let used = with_usage usage summed in
          let sorted = sort used.large_files in
          record used { large_files = if ltb 10 (length sorted) then take 10 sorted else sorted }

      unfoldable pub scan_directory : Text → ℤ → Stat → List Visit → Option (ℕ × F) → DirStats F
      unfolding scanned empty_stats
      scan_directory path max_size_mb (stat_failed error) visits usage = record (empty_stats path) {
        error = codes "inaccessible : " ++ error;
      }
      scan_directory path max_size_mb (stat_found false) visits usage = record (empty_stats path) {
        error = codes "'" ++ path ++ codes "' n'est pas un dossier";
      }
      scan_directory path max_size_mb (stat_found true) visits usage =
          scanned path max_size_mb visits usage
