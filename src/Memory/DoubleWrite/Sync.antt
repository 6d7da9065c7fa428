-- ===== src/Memory/DoubleWrite/Sync.antt =====
-- runtime/memory/double_write_store.go over the JSON state and the SQLite store, as NewRuntime
-- builds it.
use jarvinx.Shared.{
  ℕ, ◌+◌, ◌<◌, ◌≡◌, refl, ap, sym, ◌∙◌, true, List, [], ◌∷◌, ◌++◌, map, some, arith, length,
}
use jarvinx.Shared.Int.{pos, two63}
use jarvinx.Shared.Float.{Float64}
use jarvinx.Shared.Text.{Text}
use jarvinx.Memory.Records.{CycleRecord}
use jarvinx.Memory.Store.{Store}
use jarvinx.Memory.State
use jarvinx.Memory.State.{State, StateData, Json, state_store}
use jarvinx.Memory.State.Window.{
  number, numbered, add_all_cycles, add_cycle_fields, last_cycles-add_all_cycles,
}
use jarvinx.Memory.Sqlite
use jarvinx.Memory.Sqlite.{
  SqliteStore, Database, ExecResult, executed, failed, row_of, sqlite_store,
}
use jarvinx.Memory.DoubleWrite
use jarvinx.Memory.DoubleWrite.{DoubleWriteStore, double_write_store}
use mathlib.Core.List.{append_assoc, append-nil, reverse-append}

abbrev pub Both : Type 0 → Type 0
Both F = DoubleWriteStore (State F) (SqliteStore F)

module _ {F : Type 0} ⦃fl : Float64 F⦄ (json : Json (StateData F)) where
  abbrev pub both : Store F (Both F)
  both = double_write_store (state_store json) sqlite_store

  -- AddCycle of each record in turn.
  abbrev pub record_all : List (CycleRecord F) → Both F → Both F
  record_all [] d = d
  record_all (r ∷ rs) d = record_all rs (both.add_cycle r d).0

  record_primary :
      (rs : List (CycleRecord F)) (d : Both F)
      → (record_all rs d).primary ≡ add_all_cycles rs d.primary
  unfolding DoubleWrite.add_cycle
  record_primary [] d = refl
  record_primary (r ∷ rs) d = record_primary rs (both.add_cycle r d).0

  abbrev pub AllExecuted : Database F → Type 0
  AllExecuted db = (n : ℕ) → db.exec n ≡ executed

  sqlite_row :
      (r : CycleRecord F) (n : ℕ) (s : SqliteStore F)
      → s.db.exec s.db.next ≡ executed
      → ((Sqlite.add_cycle (number n r) s).0.db.cycles ≡ s.db.cycles ++ row_of (number n r) ∷ [])
        × ((Sqlite.add_cycle (number n r) s).0.db.exec ≡ s.db.exec)
  unfolding Sqlite.add_cycle
  sqlite_row r n s e = ground arith

  secondary_step :
      (r : CycleRecord F) (n : ℕ) (d : Both F)
      → d.primary.fields.cycle_num ≡ pos n
      → n + 1 < two63
      → (both.add_cycle r d).0.secondary ≡ (Sqlite.add_cycle (number n r) d.secondary).0
  unfolding DoubleWrite.add_cycle State.current_cycle
  secondary_step r n d e h =
      ap (λ num. (Sqlite.add_cycle (record r { cycle_num = num }) d.secondary).0)
        (add_cycle_fields r n d.primary e h).0

  primary_step :
      (r : CycleRecord F) (n : ℕ) (d : Both F)
      → d.primary.fields.cycle_num ≡ pos n
      → n + 1 < two63
      → (both.add_cycle r d).0.primary.fields.cycle_num ≡ pos (n + 1)
  unfolding DoubleWrite.add_cycle
  primary_step r n d e h = (add_cycle_fields r n d.primary e h).0

  rows_of :
      (rs : List (CycleRecord F)) (n : ℕ) (d : Both F)
      → d.primary.fields.cycle_num ≡ pos n
      → n + length rs < two63
      → AllExecuted d.secondary.db
      → (record_all rs d).secondary.db.cycles ≡ d.secondary.db.cycles ++ map row_of (numbered n rs)
  rows_of [] n d e h x = sym (append-nil _)
  rows_of (r ∷ rs) n d e h x =
      let d' = (both.add_cycle r d).0 in
      let same = secondary_step r n d e (omega arith) in
      let (row, exec) = sqlite_row r n d.secondary (x d.secondary.db.next) in
      let still : AllExecuted d'.secondary.db =
        λ k. ap (λ f. f k) (ap (λ s. s.db.exec) same ∙ exec) ∙ x k in
      rows_of rs (n + 1) d' (primary_step r n d e (omega arith)) (omega arith) still
      ∙ ap (λ cs. cs ++ map row_of (numbered (n + 1) rs)) (ap (λ s. s.db.cycles) same ∙ row)
      ∙ append_assoc d.secondary.db.cycles _ _

  -- Through any calls of AddCycle whose statements are executed, SQLite's rows carry exactly the
  -- numbers that the JSON state gives, from the JSON counter on, whatever SQLite's own counter was;
  -- and the JSON state is as if it were alone.
  pub record_all_lem :
      (rs : List (CycleRecord F)) (n : ℕ) (d : Both F)
      → d.primary.fields.cycle_num ≡ pos n
      → n + length rs < two63
      → AllExecuted d.secondary.db
      → ((record_all rs d).secondary.db.cycles
          ≡ d.secondary.db.cycles ++ map row_of (numbered n rs))
        × ((record_all rs d).primary ≡ add_all_cycles rs d.primary)
  record_all_lem rs n d e h x = (rows_of rs n d e h x, record_primary rs d)

  abbrev pub NoneExecuted : Database F → Type 0
  NoneExecuted db = (n : ℕ) → (msg : Text) × (db.exec n ≡ failed msg)

  failed_step :
      (r : CycleRecord F) (s : SqliteStore F) (msg : Text)
      → s.db.exec s.db.next ≡ failed msg
      → ((Sqlite.add_cycle r s).0.db.cycles ≡ s.db.cycles)
        × ((Sqlite.add_cycle r s).0.db.exec ≡ s.db.exec)
        × ((Sqlite.add_cycle r s).0.db.query_ok ≡ s.db.query_ok)
  unfolding Sqlite.add_cycle
  failed_step r s msg e = ground arith

  stuck :
      (rs : List (CycleRecord F)) (d : Both F)
      → NoneExecuted d.secondary.db
      → ((record_all rs d).secondary.db.cycles ≡ d.secondary.db.cycles)
        × ((record_all rs d).secondary.db.query_ok ≡ d.secondary.db.query_ok)
  unfolding DoubleWrite.add_cycle State.current_cycle
  stuck [] d x = (refl, refl)
  stuck (r ∷ rs) d x =
      let d' = (both.add_cycle r d).0 in
      let (msg, fails) = x d.secondary.db.next in
      let r' = record r { cycle_num = d'.primary.fields.cycle_num } in
      let (rows, exec, query) = failed_step r' d.secondary msg fails in
      let still : NoneExecuted d'.secondary.db =
        λ k. let (why, f) = x k in (why, ap (λ g. g k) exec ∙ f) in
      let (all_rows, all_queries) = stuck rs d' still in (all_rows ∙ rows, all_queries ∙ query)

  newest_row :
      (older : List (CycleRecord F)) (r : CycleRecord F) (s : SqliteStore F)
      → s.db.cycles ≡ older ++ r ∷ []
      → s.db.query_ok ≡ true
      → Sqlite.last_cycles (pos 1) s ≡ some (r ∷ [])
  unfolding Sqlite.last_cycles
  newest_row older r s e q = rw (e, q, reverse-append older (r ∷ []))

  -- Once every statement fails, LastCycles(1) still returns the last row that SQLite got, however
  -- many cycles the JSON state has recorded and numbered since.
  pub last_cycles_stale :
      (older : List (CycleRecord F)) (r : CycleRecord F) (rs : List (CycleRecord F)) (n : ℕ)
      (d : Both F)
      → d.primary.fields.cycle_num ≡ pos n
      → n + length rs < two63
      → d.secondary.db.cycles ≡ older ++ r ∷ []
      → d.secondary.db.query_ok ≡ true
      → NoneExecuted d.secondary.db
      → (both.current_cycle (record_all rs d) ≡ pos (n + length rs))
        × (both.last_cycles (pos 1) (record_all rs d) ≡ some (r ∷ []))
  unfolding DoubleWrite.current_cycle DoubleWrite.last_cycles State.current_cycle
  last_cycles_stale older r rs n d e h rows query x =
      let (same_rows, same_query) = stuck rs d x in
      let answer =
        newest_row older r (record_all rs d).secondary (same_rows ∙ rows) (same_query ∙ query) in
      (
        rw record_primary (last_cycles-add_all_cycles 1 n rs d.primary (omega arith) e h).0,
        rw answer,
      )
