-- ===== src/Memory/State.antt =====
-- runtime/memory/state.go. The state file is a field of the model; `encoding/json` is a parameter.
pub mod Window
pub mod Load
mod Scenarios
use jarvinx.Shared.{
  ℕ, ◌+◌, ◌-◌, Bool, true, false, List, [], ◌∷◌, ◌++◌, Option, none, some, ltb, if◌then◌else◌,
  length, drop,
}
use jarvinx.Shared.Int.{ℤ, pos, negsuc, inc, leb_ℤ, ltb_ℤ}
use jarvinx.Shared.Text.{Text}
use jarvinx.Memory.Records.{Snapshot, CycleRecord}
use jarvinx.Memory.Store.{Store, StoreError, marshal_failed, write_failed}

abbrev pub max_history : ℕ
max_history = 20

abbrev pub current_state_version : ℤ
current_state_version = pos 1

-- The exported fields, which the file holds.
pub record StateData (F : Type 0) : Type 0 where
  pub version : ℤ
  pub history : List (Snapshot F)
  pub cycles : List (CycleRecord F)
  pub cycle_num : ℤ

-- `file` is the content of the file at s.filepath, if it can be read, and `writable` tells whether
-- os.WriteFile succeeds there.
pub record State (F : Type 0) : Type 0 where
  pub fields : StateData F
  pub file : Option Text
  pub writable : Bool

-- json.MarshalIndent, which fails on what JSON cannot hold, and json.Unmarshal into an existing
-- value, which returns the value as far as it was filled and whether it succeeded.
pub record Json (A : Type 0) : Type 0 where
  pub marshal : A → Option Text
  pub unmarshal : Text → A → A × Bool

-- `if len(xs) > maxHistory { xs = xs[len(xs)-maxHistory:] }`
unfoldable pub trim {ℓ} : {A : Type ℓ} → List A → List A
trim xs = if ltb max_history (length xs) then drop (length xs - max_history) xs else xs

-- The copy of the last n items that Last and LastCycles return; `make` panics on a negative n.
unfoldable pub last_items {ℓ} : {A : Type ℓ} → ℤ → List A → Option (List A)
last_items (pos n) xs =
    if ltb (length xs) n
    then some (drop (length xs - length xs) xs)
    else some (drop (length xs - n) xs)
last_items (negsuc n) xs = none

-- The version is the only thing that a migration changes.
unfoldable pub migrate_from : {F : Type 0} → ℤ → StateData F → StateData F
migrate_from from s =
    if leb_ℤ current_state_version from then s else record s { version = current_state_version }

module _ {F : Type 0} where
  unfoldable pub add : Snapshot F → State F → State F × Option StoreError
  unfolding trim
  add snap s =
      let d = s.fields in
      (record s { fields = record d { history = trim (d.history ++ snap ∷ []) } }, none)

  unfoldable pub add_cycle : CycleRecord F → State F → State F × Option StoreError
  unfolding trim
  add_cycle r s =
      let d = s.fields in
      let num = inc d.cycle_num in
      let r' = record r { cycle_num = num } in
      (
        record s { fields = record d { cycle_num = num; cycles = trim (d.cycles ++ r' ∷ []) } },
        none,
      )

  unfoldable pub current_cycle : State F → ℤ
  current_cycle s = s.fields.cycle_num

  unfoldable pub last : ℤ → State F → Option (List (Snapshot F))
  last n s = last_items n s.fields.history

  unfoldable pub last_cycles : ℤ → State F → Option (List (CycleRecord F))
  last_cycles n s = last_items n s.fields.cycles

  -- What os.WriteFile leaves in the file when it fails is not modelled: the file stays.
  write_file : Option Text → State F → State F × Option StoreError
  write_file none s = (s, some marshal_failed)
  write_file (some text) s =
      if s.writable then (record s { file = some text }, none) else (s, some write_failed)

  unfoldable pub save : Json (StateData F) → State F → State F × Option StoreError
  unfolding write_file
  save json s = write_file (json.marshal s.fields) s

  unfoldable pub empty_data : StateData F
  empty_data = record { version = pos 0; history = []; cycles = []; cycle_num = pos 0 }

  load_text : Json (StateData F) → Option Text → StateData F → StateData F
  load_text json none d = record d { version = current_state_version }
  load_text json (some text) d =
      let (d', decoded) = json.unmarshal text d in
      if decoded
      then migrate_from d'.version d'
      else record d' { history = []; cycles = []; version = current_state_version }

  unfoldable pub load : Json (StateData F) → State F → State F
  unfolding load_text
  load json s = record s { fields = load_text json s.file s.fields }

  unfoldable pub new_state : Json (StateData F) → Option Text → Bool → State F
  unfolding load empty_data
  new_state json file writable =
      load json (record { fields = empty_data; file = file; writable = writable })

  abbrev pub state_store : Json (StateData F) → Store F (State F)
  state_store json = record {
    add = add;
    add_cycle = add_cycle;
    last = last;
    last_cycles = last_cycles;
    current_cycle = current_cycle;
    save = save json;
  }
