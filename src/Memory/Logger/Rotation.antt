-- ===== src/Memory/Logger/Rotation.antt =====
-- What rotation and writing of runtime/memory/logger.go leave.
use jarvinx.Shared.{
  ℕ, zero, suc, ◌-◌, ◌<◌, ◌≡◌, refl, sym, ap, ◌∙◌, Bool, true, false, ◌&&◌, ◌⊎◌, [], ◌∷◌, ◌++◌,
  Option, none, some, arith, ltb, leb, ◌==◌, if◌then◌else◌, ltb→lt, lt→ltb, inl, inr,
}
use jarvinx.Shared.Text.{Text}
use jarvinx.Memory.Records.{Snapshot}
use jarvinx.Memory.Store.{LogError, rotate_failed, open_failed}
use jarvinx.Memory.Logger.{
  File, Backups, Logger, Disk, size, remove, moved, rename, shift, archived, rotate, needed,
  rotate_if_needed, lines_of, append, opened, write,
}

moved-at :
    (i j : ℕ) (o : Option File) (b : Backups)
    → b (suc i) ≡ none
    → b i ≡ o
    → moved i o b j ≡ (if j == suc i then o else if j == i then none else b j)
unfolding moved
moved-at i j none b h e = ground arith
moved-at i j (some file) b h e = refl

shift-at :
    (n j : ℕ) (b : Backups)
    → b (suc n) ≡ none
    → shift n b j ≡ (if leb 2 j && leb j (suc n) then b (j - 1) else if j == 1 then none else b j)
unfolding shift rename
shift-at zero j b h = ground arith
shift-at (suc n) j b h =
    let b' = moved (suc n) (b (suc n)) b in
    let freed : b' (suc n) ≡ none = moved-at (suc n) (suc n) (b (suc n)) b h refl ∙ ground arith in
    let before = moved-at (suc n) (j - 1) (b (suc n)) b h refl in
    let here = moved-at (suc n) j (b (suc n)) b h refl in
    shift-at n j b' freed ∙ ground (arith, before, here)

module _ {F : Type 0} (disk : Disk F) where
  -- A rotation with a limit of at least one backup whose last renaming does not fail: the current file
  -- becomes backup 1, each backup below the limit takes the next number, missing ones included, the
  -- oldest goes, and backups above the limit are left alone.
  pub rotate-shifts :
      (l : Logger) {file : File}
      → 0 < l.max_backups
      → l.current ≡ some file
      → disk.archive_fails l ≡ false
      → ((rotate disk l).1 ≡ none)
        × ((rotate disk l).0.current ≡ none)
        × ((j : ℕ)
            → (rotate disk l).0.backups j ≡ (
                if j == 1
                then some file
                else if leb 2 j && leb j l.max_backups
                then l.backups (j - 1)
                else l.backups j))
  unfolding rotate archived remove
  rotate-shifts l {file} p e a =
      let b = remove l.max_backups l.backups in
      let top : b (suc (l.max_backups - 1)) ≡ none = ground arith in
      let done : archived (disk.archive_fails l) l.current (shift (l.max_backups - 1) b) l
          ≡ archived false (some file) (shift (l.max_backups - 1) b) l =
        ap (λ f. archived f l.current (shift (l.max_backups - 1) b) l) a
        ∙ ap (λ c. archived false c (shift (l.max_backups - 1) b) l) e in
      (
        ap (λ (r : Logger × Option LogError). r.1) done,
        ap (λ (r : Logger × Option LogError). r.0.current) done,
        λ j.
            ap (λ (r : Logger × Option LogError). r.0.backups j) done
            ∙ ground (arith, shift-at (l.max_backups - 1) j b top),
      )

  -- What a rotation check that succeeds leaves.
  IsReady : Logger → Logger → Type 0
  IsReady l l' =
      (size (lines_of l'.current) < l.max_bytes)
      × ((l'.current ≡ l.current) ⊎ ((l'.current ≡ none) × (l'.backups 1 ≡ l.current)))

  rotate-IsReady :
      (l : Logger) → 0 < l.max_bytes → (rotate disk l).1 ≡ none → IsReady l (rotate disk l).0
  unfolding rotate IsReady size
  rotate-IsReady l p e = go (disk.archive_fails l) l.current refl e
    where
      go :
          (fails : Bool) (c : Option File)
          → l.current ≡ c
          → (archived fails c (shift (l.max_backups - 1) (remove l.max_backups l.backups)) l).1
            ≡ none
          → IsReady l
              (archived fails c (shift (l.max_backups - 1) (remove l.max_backups l.backups)) l).0
      go fails none q e = unfold archived in absurd (ground arith)
      go true (some file) q e = unfold archived in absurd (ground arith)
      go false (some file) q e = unfold archived IsReady size in (p, inr (refl, sym q))

  checked-IsReady :
      (l : Logger) (file : File) (fails fits : Bool)
      → 0 < l.max_bytes
      → l.current ≡ some file
      → ltb (size file) l.max_bytes ≡ fits
      → (if fails then (l, some rotate_failed) else if fits then (l, none) else rotate disk l).1
        ≡ none
      → IsReady l
          (if fails then (l, some rotate_failed) else if fits then (l, none) else rotate disk l).0
  checked-IsReady l file true fits p q f e = absurd (ground arith)
  checked-IsReady l file false true p q f e =
      unfold IsReady in rw q (ltb→lt (size file) l.max_bytes f, inl refl)
  checked-IsReady l file false false p q f e = rotate-IsReady l p e

  needed-IsReady :
      (l : Logger)
      → 0 < l.max_bytes
      → (rotate_if_needed disk l).1 ≡ none
      → IsReady l (rotate_if_needed disk l).0
  unfolding rotate_if_needed
  needed-IsReady l p e = go l.current refl e
    where
      go :
          (c : Option File)
          → l.current ≡ c
          → (needed disk c l).1 ≡ none
          → IsReady l (needed disk c l).0
      go none q e = unfold needed IsReady size in rw q (p, inl refl)
      go (some file) q e =
          unfold needed in
          checked-IsReady l file (disk.stat_fails l) (ltb (size file) l.max_bytes) p q refl e

  -- An append that succeeds.
  IsAppended : Snapshot F → Logger → Logger → Type 0
  IsAppended entry l l' =
      (line : Text) × (disk.encode entry ≡ some line)
      × (l' ≡ record l { current = some (lines_of l.current ++ line ∷ []) })

  append-IsAppended :
      (entry : Snapshot F) (l : Logger) (o : Option Text)
      → disk.encode entry ≡ o
      → (append disk o l).1 ≡ none
      → IsAppended entry l (append disk o l).0
  unfolding append IsAppended
  append-IsAppended entry l none q e = absurd (ground arith)
  append-IsAppended entry l (some line) q e = (line, q, refl)

  opened-IsAppended :
      (entry : Snapshot F) (r : Logger × Option LogError)
      → (opened disk entry r).1 ≡ none
      → (r.1 ≡ none) × IsAppended entry r.0 (opened disk entry r).0
  unfolding opened
  opened-IsAppended entry (l, some error) e = absurd (ground arith)
  opened-IsAppended entry (l, none) e = (refl, go (disk.open_fails l) e)
    where
      go :
          (fails : Bool)
          → (if fails then (l, some open_failed) else append disk (disk.encode entry) l).1 ≡ none
          → IsAppended entry l
              (if fails then (l, some open_failed) else append disk (disk.encode entry) l).0
      go true e = absurd (ground arith)
      go false e = append-IsAppended entry l (disk.encode entry) refl e

  limited :
      (entry : Snapshot F) (l : Logger)
      → 0 < l.max_bytes
      → write disk entry l ≡ opened disk entry (rotate_if_needed disk l)
  unfolding write
  limited entry l p = rw (lt→ltb 0 l.max_bytes p) refl

  -- A write that succeeds, with a limit on the size, adds its line to a file that was smaller than the
  -- limit: to the current file, or to a new one, the current file having become backup 1.
  pub write-appends :
      (entry : Snapshot F) (l : Logger)
      → 0 < l.max_bytes
      → (write disk entry l).1 ≡ none
      → (line : Text) × (before : File) × (disk.encode entry ≡ some line)
        × ((write disk entry l).0.current ≡ some (before ++ line ∷ []))
        × (size before < l.max_bytes)
        × ((before ≡ lines_of l.current)
            ⊎ ((before ≡ []) × ((write disk entry l).0.backups 1 ≡ l.current)))
  unfolding IsReady IsAppended
  write-appends entry l p e =
      let path = limited entry l p in
      let (ready, (line, encoded, left)) =
        opened-IsAppended entry (rotate_if_needed disk l)
          (sym (ap (λ (r : Logger × Option LogError). r.1) path) ∙ e) in
      let (small, kept) = needed-IsReady l p ready in
      let after = ap (λ (r : Logger × Option LogError). r.0) path ∙ left in
      (
        line,
        lines_of (rotate_if_needed disk l).0.current,
        encoded,
        ap (λ (m : Logger). m.current) after,
        small,
        elim kept [
          | inl same ↦ inl (ap lines_of same)
          | inr (gone, archive) ↦
              inr (ap lines_of gone, ap (λ (m : Logger). m.backups 1) after ∙ archive)
        ],
      )
