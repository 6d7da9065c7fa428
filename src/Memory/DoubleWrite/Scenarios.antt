-- ===== src/Memory/DoubleWrite/Scenarios.antt =====
-- Runs of runtime/memory/double_write_store.go and runtime/memory/sqlite_store.go.
use jarvinx.Shared.{ℕ, ◌≡◌, refl, true, [], ◌∷◌, map, none, some, arith}
use jarvinx.Shared.Int.{pos}
use jarvinx.Shared.Float.{thousandths}
use jarvinx.Shared.Text.{codes}
use jarvinx.Memory.Records.{CycleRecord, loaded, new_cycle_record}
use jarvinx.Memory.State.{Json, StateData, State}
use jarvinx.Memory.State.Window.{numbered, add_all_cycles}
use jarvinx.Memory.Sqlite.{Database, SqliteStore, executed, failed, row_of, open_sqlite_store}
use jarvinx.Memory.DoubleWrite.Sync.{Both, both, record_all, record_all_lem, last_cycles_stale}

abbrev decided : CycleRecord ℕ
unfolding new_cycle_record
decided = new_cycle_record (loaded 10 20 30) (codes "log") (codes "ok") (codes "") (codes "")

abbrev earlier : CycleRecord ℕ
earlier = record decided { cycle_num = pos 2 }

abbrev file : Database ℕ
file = record {
  snapshots = [];
  cycles = earlier ∷ [];
  exec = λ n. executed;
  next = 0;
  query_ok = true;
}

abbrev opened : SqliteStore ℕ
opened = record { db = record file { next = 15 }; cycle_num = pos 2 }

abbrev no_json : Json (StateData ℕ)
no_json = record { marshal = λ d. none; unmarshal = λ text d. (d, true) }

abbrev counted : State ℕ
counted = record {
  fields = record { version = pos 1; history = []; cycles = []; cycle_num = pos 7 };
  file = none;
  writable = true;
}

abbrev pair : Both ℕ
pair = record { primary = counted; secondary = opened }

abbrev broken_pair : Both ℕ
broken_pair = record {
  primary = counted;
  secondary = record opened { db = record file { exec = λ n. failed (codes "disk full") } };
}

opens : open_sqlite_store file ≡ some opened
unfolding open_sqlite_store
opens = refl

record_all_lem_example :
    ((record_all no_json (decided ∷ decided ∷ []) pair).secondary.db.cycles
      ≡ earlier ∷ map row_of (numbered 7 (decided ∷ decided ∷ [])))
    × ((record_all no_json (decided ∷ decided ∷ []) pair).primary
        ≡ add_all_cycles (decided ∷ decided ∷ []) counted)
record_all_lem_example =
    record_all_lem no_json (decided ∷ decided ∷ []) 7 pair refl (omega arith) (λ n. refl)

last_cycles_stale_example :
    ((both no_json).current_cycle (record_all no_json (decided ∷ decided ∷ []) broken_pair) ≡ pos 9)
    × ((both no_json).last_cycles (pos 1) (record_all no_json (decided ∷ decided ∷ []) broken_pair)
        ≡ some (earlier ∷ []))
last_cycles_stale_example =
    last_cycles_stale no_json [] earlier (decided ∷ decided ∷ []) 7 broken_pair refl (omega arith)
      refl refl (λ n. (codes "disk full", refl))
