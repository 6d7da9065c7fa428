-- ===== src/Memory/Sqlite.antt =====
-- runtime/memory/sqlite_store.go. The database is the rows of its two tables in the order of their
-- ids, with the outcomes of the statements that the program will execute. Times are stored in
-- full, so a row holds the same instant.
pub mod Numbers
use jarvinx.Shared.{
  ℕ, zero, suc, ◌+◌, Bool, true, false, ◌||◌, List, [], ◌∷◌, ◌++◌, map, Option, none, some,
  if◌then◌else◌, length, take,
}
use jarvinx.Shared.Int.{ℤ, pos, negsuc, inc, leb_ℤ, ltb_ℤ}
use jarvinx.Shared.Float.{Float64}
use jarvinx.Shared.Text.{Text, codes, contains}
use jarvinx.Memory.Records.{Snapshot, CycleRecord}
use jarvinx.Memory.Store.{Store, StoreError, insert_failed}
use mathlib.Core.List.{reverse}

-- The outcome of one db.Exec: an error carries its message.
pub data ExecResult : Type 0 where
  executed : ExecResult
  failed : Text → ExecResult

-- `exec n` is the outcome of the statement number n; `query_ok` tells whether queries succeed.
pub record Database (F : Type 0) : Type 0 where
  pub snapshots : List (Snapshot F)
  pub cycles : List (CycleRecord F)
  pub exec : ℕ → ExecResult
  pub next : ℕ
  pub query_ok : Bool

pub record SqliteStore (F : Type 0) : Type 0 where
  pub db : Database F
  pub cycle_num : ℤ

unfoldable pub is_duplicate_column_err : Text → Bool
unfolding contains
is_duplicate_column_err msg =
    contains msg (codes "duplicate column name") || contains msg (codes "already exists")

succeeded : ExecResult → Bool
succeeded executed = true
succeeded (failed msg) = false

tolerated : ExecResult → Bool
unfolding is_duplicate_column_err
tolerated executed = true
tolerated (failed msg) = is_duplicate_column_err msg

initial_cycle : Option ℤ → ℤ
initial_cycle none = pos 0
initial_cycle (some m) = m

-- The number that AddCycle gives a record, and the counter after it.
assign : ℤ → ℤ → ℤ × ℤ
assign counter num =
    if ltb_ℤ (pos 0) num
    then (num, if ltb_ℤ counter num then num else counter)
    else (inc counter, inc counter)

-- SELECT … ORDER BY id DESC LIMIT n, then reversed in place.
newest {ℓ} : {A : Type ℓ} → Bool → ℤ → List A → List A
newest query_ok (negsuc n) rows = []
newest query_ok (pos n) rows = if query_ok then reverse (take n (reverse rows)) else []

module _ {F : Type 0} where
  -- A row of `snapshots` has every field. One of `cycles` has of the snapshot only what
  -- LastCycles reads back; the other fields are zero then.
  unfoldable pub row_of : ⦃fl : Float64 F⦄ → CycleRecord F → CycleRecord F
  row_of ⦃fl⦄ r =
      let zero_float = fl.decimal 0 0 in
      let s = r.snapshot in
      record r {
        snapshot = record s {
          timestamp = r.timestamp;
          swap_used = 0;
          swap_total = 0;
          swap_percent = zero_float;
          net_recv_mbps = zero_float;
          net_sent_mbps = zero_float;
          load_avg1 = zero_float;
          load_avg5 = zero_float;
          load_avg15 = zero_float;
          top_procs = [];
        };
      }

  -- k statements that must each be accepted; the first that is not ends the row.
  exec_all : (ExecResult → Bool) → ℕ → Database F → Bool × Database F
  exec_all accepts zero db = (true, db)
  exec_all accepts (suc k) db =
      let rest = exec_all accepts k (record db { next = db.next + 1 }) in
      if accepts (db.exec db.next) then rest else (false, record db { next = db.next + 1 })

  -- The two tables and the two indexes, then the nine columns that older files lack.
  unfoldable pub sqlite_migrate : Database F → Bool × Database F
  unfolding exec_all succeeded tolerated
  sqlite_migrate db =
      let (created, db') = exec_all succeeded 4 db in
      if created then exec_all tolerated 9 db' else (false, db')

  -- SELECT MAX(cycle_num) FROM cycles, which is null in an empty table.
  unfoldable pub max_cycle : List (CycleRecord F) → Option ℤ
  max_cycle [] = none
  max_cycle (r ∷ rs) = elim (max_cycle rs) [
    | none ↦ some r.cycle_num
    | some m ↦ some (if ltb_ℤ r.cycle_num m then m else r.cycle_num)
  ]

  unfoldable pub open_sqlite_store : Database F → Option (SqliteStore F)
  unfolding sqlite_migrate max_cycle initial_cycle
  open_sqlite_store db =
      let (set_up, db') = exec_all succeeded 2 db in
      let (migrated, db'') = sqlite_migrate db' in
      if set_up
      then if migrated
        then if db''.query_ok
          then some (record { db = db''; cycle_num = initial_cycle (max_cycle db''.cycles) })
          else none
        else none
      else none

  -- One INSERT: the row is there if it succeeds.
  inserted : ExecResult → Database F → Database F → Database F × Option StoreError
  inserted executed db with_row = (with_row, none)
  inserted (failed msg) db with_row = (db, some insert_failed)

  unfoldable pub add : Snapshot F → SqliteStore F → SqliteStore F × Option StoreError
  unfolding inserted
  add snap s =
      let db = s.db in
      let db' = record db { next = db.next + 1 } in
      let (db'', error) =
        inserted (db.exec db.next) db' (record db' { snapshots = db.snapshots ++ snap ∷ [] }) in
      (record s { db = db'' }, error)

  unfoldable pub add_cycle :
      ⦃fl : Float64 F⦄ → CycleRecord F → SqliteStore F → SqliteStore F × Option StoreError
  unfolding assign inserted row_of
  add_cycle r s =
      let (num, counter) = assign s.cycle_num r.cycle_num in
      let db = s.db in
      let db' = record db { next = db.next + 1 } in
      let row = row_of (record r { cycle_num = num }) in
      let (db'', error) =
        inserted (db.exec db.next) db' (record db' { cycles = db.cycles ++ row ∷ [] }) in
      (record { db = db''; cycle_num = counter }, error)

  unfoldable pub last : ℤ → SqliteStore F → Option (List (Snapshot F))
  unfolding newest
  last n s = some (newest s.db.query_ok n s.db.snapshots)

  unfoldable pub last_cycles : ℤ → SqliteStore F → Option (List (CycleRecord F))
  unfolding newest
  last_cycles n s = some (newest s.db.query_ok n s.db.cycles)

  unfoldable pub current_cycle : SqliteStore F → ℤ
  current_cycle s = s.cycle_num

  unfoldable pub save : SqliteStore F → SqliteStore F × Option StoreError
  save s = (s, none)

  abbrev pub sqlite_store : ⦃fl : Float64 F⦄ → Store F (SqliteStore F)
  sqlite_store = record {
    add = add;
    add_cycle = add_cycle;
    last = last;
    last_cycles = last_cycles;
    current_cycle = current_cycle;
    save = save;
  }
