-- ===== src/Memory/DoubleWrite.antt =====
-- runtime/memory/double_write_store.go, over any two stores: a primary with states P and a
-- secondary with states S.
pub mod Laws
pub mod Sync
mod Scenarios
use jarvinx.Shared.{List, [], ◌∷◌, Option, none, some}
use jarvinx.Shared.Int.{ℤ}
use jarvinx.Memory.Records.{Snapshot, CycleRecord}
use jarvinx.Memory.Store.{Store, StoreError}

pub record DoubleWriteStore (P S : Type 0) : Type 0 where
  pub primary : P
  pub secondary : S

-- `if result := secondary.Last(n); len(result) > 0 { return result }`, else the primary's.
unfoldable pub prefer {ℓ} : {A : Type ℓ} → Option (List A) → Option (List A) → Option (List A)
prefer none fallback = none
prefer (some []) fallback = fallback
prefer (some (x ∷ xs)) fallback = some (x ∷ xs)

module _ {F P S : Type 0} (primary_store : Store F P) (secondary_store : Store F S) where
  open primary_store use {
    add as add_primary, add_cycle as add_cycle_primary, last as last_primary,
    last_cycles as last_cycles_primary, current_cycle as current_cycle_primary,
    save as save_primary,
  }
  open secondary_store use {
    add as add_secondary, add_cycle as add_cycle_secondary, last as last_secondary,
    last_cycles as last_cycles_secondary,
  }

  unfoldable pub add : Snapshot F → DoubleWriteStore P S → DoubleWriteStore P S × Option StoreError
  add snap d =
      let (p, error) = add_primary snap d.primary in
      let (s, ignored) = add_secondary snap d.secondary in
      (record { primary = p; secondary = s }, error)

  -- The secondary gets the number that the primary assigned.
  unfoldable pub add_cycle :
      CycleRecord F → DoubleWriteStore P S → DoubleWriteStore P S × Option StoreError
  add_cycle r d =
      let (p, error) = add_cycle_primary r d.primary in
      let (s, ignored) =
        add_cycle_secondary (record r { cycle_num = current_cycle_primary p }) d.secondary in
      (record { primary = p; secondary = s }, error)

  unfoldable pub last : ℤ → DoubleWriteStore P S → Option (List (Snapshot F))
  unfolding prefer
  last n d = prefer (last_secondary n d.secondary) (last_primary n d.primary)

  unfoldable pub last_cycles : ℤ → DoubleWriteStore P S → Option (List (CycleRecord F))
  unfolding prefer
  last_cycles n d = prefer (last_cycles_secondary n d.secondary) (last_cycles_primary n d.primary)

  unfoldable pub current_cycle : DoubleWriteStore P S → ℤ
  current_cycle d = current_cycle_primary d.primary

  unfoldable pub save : DoubleWriteStore P S → DoubleWriteStore P S × Option StoreError
  save d = let (p, error) = save_primary d.primary in (record d { primary = p }, error)

  abbrev pub double_write_store : Store F (DoubleWriteStore P S)
  double_write_store = record {
    add = add;
    add_cycle = add_cycle;
    last = last;
    last_cycles = last_cycles;
    current_cycle = current_cycle;
    save = save;
  }
