-- ===== src/Memory/Store.antt =====
-- The interface `Store` of runtime/memory/store.go over the states S of its implementation, and
-- runtime/memory/noop_store.go. A method that changes the store returns the new state and its
-- error; a read returns `none` where it panics.
use jarvinx.Shared.{List, [], Option, none, some}
use jarvinx.Shared.Int.{ℤ, pos}
use jarvinx.Shared.Clock.{Time}
use jarvinx.Shared.Text.{Text}
use jarvinx.Memory.Records.{Snapshot, CycleRecord}

pub data StoreError : Type 0 where
  marshal_failed write_failed insert_failed : StoreError

pub record Store (F S : Type 0) : Type 0 where
  pub add : Snapshot F → S → S × Option StoreError
  pub add_cycle : CycleRecord F → S → S × Option StoreError
  pub last : ℤ → S → Option (List (Snapshot F))
  pub last_cycles : ℤ → S → Option (List (CycleRecord F))
  pub current_cycle : S → ℤ
  pub save : S → S × Option StoreError

-- The method of the interface `EventLog` that changes the log, over its states L; the entry is the
-- snapshot under another type name.
pub data LogError : Type 0 where
  rotate_failed open_failed encode_failed : LogError

pub record EventLog (F L : Type 0) : Type 0 where
  pub write : Snapshot F → L → L × Option LogError

-- What a time window held.
pub record SnapshotBucket (F : Type 0) : Type 0 where
  pub timestamp : Text
  pub cpu_avg : F
  pub cpu_max : F
  pub mem_avg : F
  pub mem_max : F
  pub disk_avg : F
  pub disk_max : F
  pub count : ℤ

-- The interface of the history, as its answers at one moment.
pub record HistoryReader (F : Type 0) : Type 0 where
  pub snapshot_buckets : Time → ℤ → List (SnapshotBucket F)
  pub total_snapshots : Time → ℤ

-- NoopStore has one value, and no method fails.
abbrev pub noop_store : {F : Type 0} → Store F (Unit {0})
noop_store = record {
  add = λ snap s. (s, none);
  add_cycle = λ cycle s. (s, none);
  last = λ n s. some [];
  last_cycles = λ n s. some [];
  current_cycle = λ s. pos 0;
  save = λ s. (s, none);
}
