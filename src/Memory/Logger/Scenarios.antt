-- ===== src/Memory/Logger/Scenarios.antt =====
-- Runs of runtime/memory/logger.go, with one-byte lines.
use jarvinx.Shared.{
  ℕ, ◌-◌, ◌<◌, ◌≡◌, refl, false, ◌&&◌, ◌⊎◌, [], ◌∷◌, ◌++◌, none, some, arith, leb, ◌==◌,
  if◌then◌else◌,
}
use jarvinx.Shared.Text.{Text, codes}
use jarvinx.Memory.Records.{loaded}
use jarvinx.Memory.Logger.{File, Logger, Disk, size, rotate, write}
use jarvinx.Memory.Logger.Rotation.{rotate-shifts, write-appends}

abbrev healthy : Disk ℕ
healthy = record {
  stat_fails = λ l. false;
  archive_fails = λ l. false;
  open_fails = λ l. false;
  encode = λ s. some (codes "d");
}

-- Backup 2 is missing, and the current file is at the limit of two bytes.
abbrev full : Logger
full = record {
  filepath = codes "logs.jsonl";
  max_bytes = 2;
  max_backups = 3;
  current = some (codes "b" ∷ codes "c" ∷ []);
  backups = λ j. if j == 1 then some (codes "a" ∷ []) else none;
}

rotate-shifts_example :
    ((rotate healthy full).1 ≡ none)
    × ((rotate healthy full).0.current ≡ none)
    × ((j : ℕ)
        → (rotate healthy full).0.backups j ≡ (
            if j == 1
            then some (codes "b" ∷ codes "c" ∷ [])
            else if leb 2 j && leb j 3
            then full.backups (j - 1)
            else full.backups j))
rotate-shifts_example = rotate-shifts healthy full (omega arith) refl refl

write-appends_example :
    (line : Text) × (before : File) × (some (codes "d") ≡ some line)
    × ((write healthy (loaded 1 2 3) full).0.current ≡ some (before ++ line ∷ []))
    × (size before < 2)
    × ((before ≡ codes "b" ∷ codes "c" ∷ [])
        ⊎ ((before ≡ []) × ((write healthy (loaded 1 2 3) full).0.backups 1 ≡ full.current)))
unfolding write size
write-appends_example = write-appends healthy (loaded 1 2 3) full (omega arith) refl
