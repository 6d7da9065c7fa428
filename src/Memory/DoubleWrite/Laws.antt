-- ===== src/Memory/DoubleWrite/Laws.antt =====
-- runtime/memory/double_write_store.go with the secondary that discards everything.
use jarvinx.Shared.{◌≡◌, refl}
use jarvinx.Shared.Int.{ℤ}
use jarvinx.Memory.Records.{Snapshot, CycleRecord}
use jarvinx.Memory.Store.{Store, noop_store}
use jarvinx.Memory.DoubleWrite
use jarvinx.Memory.DoubleWrite.{DoubleWriteStore, prefer, double_write_store}

module _ {F P : Type 0} (store : Store F P) where
  abbrev pub alone : P → DoubleWriteStore P (Unit {0})
  alone p = record { primary = p; secondary = tt }

  abbrev pub twin : Store F (DoubleWriteStore P (Unit {0}))
  twin = double_write_store store noop_store

  -- With NoopStore as its secondary, the double store is the primary: each method has the same
  -- result, error and panic, and leaves the primary in the same state.
  pub twin_lem :
      (snap : Snapshot F) (r : CycleRecord F) (n : ℤ) (p : P)
      → (twin.add snap (alone p) ≡ (alone (store.add snap p).0, (store.add snap p).1))
        × (twin.add_cycle r (alone p) ≡ (alone (store.add_cycle r p).0, (store.add_cycle r p).1))
        × (twin.last n (alone p) ≡ store.last n p)
        × (twin.last_cycles n (alone p) ≡ store.last_cycles n p)
        × (twin.current_cycle (alone p) ≡ store.current_cycle p)
        × (twin.save (alone p) ≡ (alone (store.save p).0, (store.save p).1))
  unfolding DoubleWrite.add DoubleWrite.add_cycle DoubleWrite.last DoubleWrite.last_cycles
      DoubleWrite.current_cycle DoubleWrite.save
  twin_lem snap r n p = (refl, refl, refl, refl, refl, refl)
