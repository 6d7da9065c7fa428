-- ===== src/Memory/Logger.antt =====
-- runtime/memory/logger.go. The files of the log: the current one and the backups by their number; a
-- file is the list of its lines, each with its newline. The limits are not negative, so they are
-- natural numbers. A removal or a renaming whose error the code ignores fails only on a missing file.
pub mod Rotation
pub mod Status
mod Scenarios
use jarvinx.Shared.{
  ℕ, zero, suc, ◌+◌, ◌-◌, ◌*◌, Bool, true, false, List, [], ◌∷◌, ◌++◌, Option, none, some, ltb,
  ◌==◌, if◌then◌else◌, length,
}
use jarvinx.Shared.Text.{Text}
use jarvinx.Memory.Records.{Snapshot}
use jarvinx.Memory.Store.{EventLog, LogError, rotate_failed, open_failed, encode_failed}

abbrev pub File : Type 0
File = List Text

abbrev pub Backups : Type 0
Backups = ℕ → Option File

pub record Logger : Type 0 where
  pub filepath : Text
  pub max_bytes : ℕ
  pub max_backups : ℕ
  pub current : Option File
  pub backups : Backups

-- Which system calls whose errors are not ignored fail, and encoding an entry to a line.
pub record Disk (F : Type 0) : Type 0 where
  pub stat_fails : Logger → Bool
  pub archive_fails : Logger → Bool
  pub open_fails : Logger → Bool
  pub encode : Snapshot F → Option Text

-- The bytes of a file.
unfoldable pub size : File → ℕ
size [] = 0
size (line ∷ lines) = length line + size lines

unfoldable pub new_logger_with_rotation : Text → ℕ → ℕ → Option File → Backups → Logger
new_logger_with_rotation filepath max_bytes max_backups current backups = record {
  filepath = filepath;
  max_bytes = max_bytes;
  max_backups = max_backups;
  current = current;
  backups = backups;
}

unfoldable pub new_logger : Text → Option File → Backups → Logger
unfolding new_logger_with_rotation
new_logger filepath current backups =
    new_logger_with_rotation filepath (10 * 1024 * 1024) 3 current backups

-- A missing file is created when it is opened.
abbrev pub lines_of : Option File → File
lines_of none = []
lines_of (some file) = file

-- os.Remove of a backup.
remove : ℕ → Backups → Backups
remove k b = λ j. if j == k then none else b j

-- os.Rename of backup i, if there is one, to the next number.
moved : ℕ → Option File → Backups → Backups
moved i none b = b
moved i (some file) b = λ j. if j == suc i then some file else if j == i then none else b j

rename : ℕ → Backups → Backups
unfolding moved
rename i b = moved i (b i) b

-- The loop of rotate, for i from n down to 1.
shift : ℕ → Backups → Backups
unfolding rename
shift zero b = b
shift (suc n) b = shift n (rename (suc n) b)

archived : Bool → Option File → Backups → Logger → Logger × Option LogError
archived fails none b l = (record l { backups = b }, some rotate_failed)
archived true (some file) b l = (record l { backups = b }, some rotate_failed)
archived false (some file) b l =
    (record l { current = none; backups = λ j. if j == 1 then some file else b j }, none)

module _ {F : Type 0} (disk : Disk F) where
  unfoldable pub rotate : Logger → Logger × Option LogError
  unfolding shift remove archived
  rotate l =
      archived (disk.archive_fails l) l.current
        (shift (l.max_backups - 1) (remove l.max_backups l.backups)) l

  needed : Option File → Logger → Logger × Option LogError
  unfolding rotate size
  needed none l = (l, none)
  needed (some file) l =
      if disk.stat_fails l
      then (l, some rotate_failed)
      else if ltb (size file) l.max_bytes
      then (l, none)
      else rotate l

  unfoldable pub rotate_if_needed : Logger → Logger × Option LogError
  unfolding needed
  rotate_if_needed l = needed l.current l

  append : Option Text → Logger → Logger × Option LogError
  append none l = (record l { current = some (lines_of l.current) }, some encode_failed)
  append (some line) l = (record l { current = some (lines_of l.current ++ line ∷ []) }, none)

  opened : Snapshot F → Logger × Option LogError → Logger × Option LogError
  unfolding append
  opened entry (l, some error) = (l, some error)
  opened entry (l, none) =
      if disk.open_fails l then (l, some open_failed) else append (disk.encode entry) l

  unfoldable pub write : Snapshot F → Logger → Logger × Option LogError
  unfolding opened rotate_if_needed
  write entry l = opened entry (if ltb 0 l.max_bytes then rotate_if_needed l else (l, none))

  unfoldable pub log : EventLog F Logger
  unfolding write
  log = record { write = write }
