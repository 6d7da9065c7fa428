-- ===== src/Memory/Logger/Status.antt =====
-- Status of runtime/memory/logger.go. A backup is named by its number.
use jarvinx.Shared.{
  ℕ, suc, zero, Bool, ◌&&◌, List, [], ◌∷◌, ◌++◌, Option, none, some, ltb, if◌then◌else◌, length,
}
use jarvinx.Shared.Float.{Float64}
use jarvinx.Shared.Text.{Text}
use jarvinx.Memory.Logger.{File, Backups, Logger, Disk, size}

pub record LogStatus (F : Type 0) : Type 0 where
  pub filepath : Text
  pub size_bytes : ℕ
  pub size_mb : F
  pub max_bytes : ℕ
  pub max_mb : F
  pub used_percent : F
  pub backups : List ℕ
  pub backup_count : ℕ

unfoldable pub existing : Option File → ℕ → List ℕ
existing none i = []
existing (some file) i = i ∷ []

-- The loop over the backups 1 to n; the last one comes last.
unfoldable pub listed_backups : ℕ → Backups → List ℕ
unfolding existing
listed_backups zero b = []
listed_backups (suc n) b = listed_backups n b ++ existing (b (suc n)) (suc n)

-- The size that os.Stat tells.
unfoldable pub stat_size : Bool → Option File → Option ℕ
unfolding size
stat_size fails none = none
stat_size fails (some file) = if fails then none else some (size file)

bytes_of : Option ℕ → ℕ
bytes_of none = 0
bytes_of (some n) = n

module _ {F : Type 0} ⦃fl : Float64 F⦄ (float : ℕ → F) where
  megabytes : ℕ → F
  megabytes n = fl.div (fl.div (float n) (fl.decimal 1024 0)) (fl.decimal 1024 0)

  megabytes_of : Option ℕ → F
  unfolding megabytes
  megabytes_of none = fl.decimal 0 0
  megabytes_of (some n) = megabytes n

  -- `float` converts an int64. A file whose size is not told has 0 bytes and 0 MB.
  unfoldable pub log_status : Disk F → Logger → LogStatus F
  unfolding megabytes megabytes_of bytes_of listed_backups stat_size
  log_status disk l =
      let told = stat_size (disk.stat_fails l) l.current in
      let bytes = bytes_of told in
      let backups = listed_backups l.max_backups l.backups in
      record {
        filepath = l.filepath;
        size_bytes = bytes;
        size_mb = megabytes_of told;
        max_bytes = l.max_bytes;
        max_mb = megabytes l.max_bytes;
        used_percent =
            if ltb 0 l.max_bytes && ltb 0 bytes
            then fl.mul (fl.div (float bytes) (float l.max_bytes)) (fl.decimal 100 0)
            else fl.decimal 0 0;
        backups = backups;
        backup_count = length backups;
      }
