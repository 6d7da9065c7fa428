-- ===== src/Memory/Sqlite/Numbers.antt =====
-- The cycle numbers of runtime/memory/sqlite_store.go.
use jarvinx.Shared.{
  ℕ, zero, suc, ◌+◌, ◌<◌, ◌≡◌, refl, inl, inr, ◌∙◌, Bool, List, [], ◌∷◌, ◌++◌, Option, none, some,
  arith, if◌then◌else◌, Option-cases, All,
}
use jarvinx.Shared.Int.{ℤ, pos_part, inc, ◌≤ℤ◌, ltb_ℤ, two63}
use jarvinx.Shared.Float.{Float64}
use jarvinx.Memory.Records.{CycleRecord}
use jarvinx.Memory.Sqlite.{
  ExecResult, executed, failed, Database, SqliteStore, sqlite_migrate, max_cycle, open_sqlite_store,
  add_cycle, initial_cycle, exec_all, succeeded, tolerated, assign, inserted,
}

assign_bounds :
    (counter num : ℤ)
    → pos_part counter + 1 < two63
    → (counter ≤ℤ (assign counter num).1) × ((assign counter num).0 ≤ℤ (assign counter num).1)
unfolding assign inc
assign_bounds counter num h = ground arith

module _ {F : Type 0} where
  -- The counter is at least every number in the table.
  abbrev pub IsAhead : SqliteStore F → Type 0
  IsAhead s = All (λ r. r.cycle_num ≤ℤ s.cycle_num) s.db.cycles

  All-mono :
      (a b : ℤ) (rs : List (CycleRecord F))
      → a ≤ℤ b
      → All (λ r. r.cycle_num ≤ℤ a) rs
      → All (λ r. r.cycle_num ≤ℤ b) rs
  All-mono a b [] h v = tt
  All-mono a b (r ∷ rs) h v = (omega arith, All-mono a b rs h v.1)

  All-snoc :
      (a : ℤ) (rs : List (CycleRecord F)) (r : CycleRecord F)
      → r.cycle_num ≤ℤ a
      → All (λ x. x.cycle_num ≤ℤ a) rs
      → All (λ x. x.cycle_num ≤ℤ a) (rs ++ r ∷ [])
  All-snoc a [] r h v = (h, tt)
  All-snoc a (x ∷ rs) r h v = (v.0, All-snoc a rs r h v.1)

  max_cycle-cons :
      (r : CycleRecord F) (rs : List (CycleRecord F)) → (m : ℤ) × (max_cycle (r ∷ rs) ≡ some m)
  unfolding max_cycle
  max_cycle-cons r rs = elim (Option-cases (max_cycle rs)) [
    | inl e ↦ (r.cycle_num, rw (e, max_cycle))
    | inr (m, e) ↦ (if ltb_ℤ r.cycle_num m then m else r.cycle_num, rw (e, max_cycle))
  ]

  max_cycle_bound :
      (rs : List (CycleRecord F)) (m : ℤ) → max_cycle rs ≡ some m → All (λ r. r.cycle_num ≤ℤ m) rs
  unfolding max_cycle
  max_cycle_bound [] m e = cc
  max_cycle_bound (r ∷ []) m e = ground arith
  max_cycle_bound (r ∷ q ∷ rs) m e =
      let (k, found) = max_cycle-cons q rs in
      let least : (r.cycle_num ≤ℤ m) × (k ≤ℤ m) = newest_bound (max_cycle (q ∷ rs)) found e in
      (least.0, All-mono k m (q ∷ rs) least.1 (max_cycle_bound (q ∷ rs) k found))
    where
      newest_bound :
          {k : ℤ} (o : Option ℤ)
          → o ≡ some k
          → elim o [
            | none ↦ some r.cycle_num
            | some m ↦ some (if ltb_ℤ r.cycle_num m then m else r.cycle_num)
          ]
            ≡ some m
          → (r.cycle_num ≤ℤ m) × (k ≤ℤ m)
      newest_bound none f g = cc
      newest_bound (some j) f g = ground arith

  max_cycle-All :
      (rs : List (CycleRecord F)) → All (λ r. r.cycle_num ≤ℤ initial_cycle (max_cycle rs)) rs
  unfolding initial_cycle
  max_cycle-All [] = tt
  max_cycle-All (r ∷ rs) =
      let (m, e) = max_cycle-cons r rs in
      All-mono m (initial_cycle (max_cycle (r ∷ rs))) (r ∷ rs) (rw e (omega arith))
        (max_cycle_bound (r ∷ rs) m e)

  exec_all_tables :
      (accepts : ExecResult → Bool) (k : ℕ) (db : Database F)
      → ((exec_all accepts k db).1.cycles ≡ db.cycles)
        × ((exec_all accepts k db).1.snapshots ≡ db.snapshots)
  unfolding exec_all
  exec_all_tables accepts zero db = (refl, refl)
  exec_all_tables accepts (suc k) db =
      ground (arith, exec_all_tables accepts k (record db { next = db.next + 1 }))

  sqlite_migrate_tables :
      (db : Database F)
      → ((sqlite_migrate db).1.cycles ≡ db.cycles)
        × ((sqlite_migrate db).1.snapshots ≡ db.snapshots)
  unfolding sqlite_migrate
  sqlite_migrate_tables db = ground (
    arith,
    exec_all_tables succeeded 4 db,
    exec_all_tables tolerated 9 (exec_all succeeded 4 db).1,
  )

  migrated : Database F → Database F
  migrated db = (sqlite_migrate (exec_all succeeded 2 db).1).1

  opened :
      (db : Database F) {s : SqliteStore F}
      → open_sqlite_store db ≡ some s
      → s ≡ record { db = migrated db; cycle_num = initial_cycle (max_cycle (migrated db).cycles) }
  unfolding open_sqlite_store migrated
  opened db e = ground arith

  -- Opening a database puts the counter at or past every cycle number in it, and changes no row.
  pub open_sqlite_store-IsAhead :
      (db : Database F) {s : SqliteStore F}
      → open_sqlite_store db ≡ some s
      → IsAhead s × (s.db.cycles ≡ db.cycles) × (s.db.snapshots ≡ db.snapshots)
  unfolding migrated
  open_sqlite_store-IsAhead db e = rw (opened db e) (
    max_cycle-All _,
    (sqlite_migrate_tables (exec_all succeeded 2 db).1).0 ∙ (exec_all_tables succeeded 2 db).0,
    (sqlite_migrate_tables (exec_all succeeded 2 db).1).1 ∙ (exec_all_tables succeeded 2 db).1,
  )

  -- AddCycle keeps the counter at or past every number in the table, also when the INSERT fails.
  pub add_cycle-IsAhead :
      ⦃fl : Float64 F⦄ (r : CycleRecord F) (s : SqliteStore F)
      → pos_part s.cycle_num + 1 < two63
      → IsAhead s
      → IsAhead (add_cycle r s).0
  unfolding add_cycle inserted
  add_cycle-IsAhead r s h v =
      let (grows, fits) = assign_bounds s.cycle_num r.cycle_num h in
      let kept = All-mono s.cycle_num (assign s.cycle_num r.cycle_num).1 s.db.cycles grows v in
      kept_by (s.db.exec s.db.next) _ _ _ kept (All-snoc _ s.db.cycles _ fits kept)
    where
      kept_by :
          (x : ExecResult) (db db' : Database F) (a : ℤ)
          → IsAhead (record { db = db; cycle_num = a })
          → IsAhead (record { db = db'; cycle_num = a })
          → IsAhead (record { db = (inserted x db db').0; cycle_num = a })
      kept_by executed db db' a old new = new
      kept_by (failed msg) db db' a old new = old
