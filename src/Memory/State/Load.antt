-- ===== src/Memory/State/Load.antt =====
-- Starting from the file of runtime/memory/state.go.
use jarvinx.Shared.{◌≡◌, refl, ◌⊎◌, inl, inr, Bool, true, [], Option, none, some, arith, Bool-cases}
use jarvinx.Shared.Int.{◌≤ℤ◌}
use jarvinx.Shared.Text.{Text}
use jarvinx.Memory.State.{
  current_state_version, Json, StateData, migrate_from, new_state, empty_data,
}

module _ {F : Type 0} (json : Json (StateData F)) where
  migrated : (d : StateData F) → current_state_version ≤ℤ (migrate_from d.version d).version
  unfolding migrate_from
  migrated d = ground arith

  -- Whatever the file holds, the program starts from a state of the current version or a later one,
  -- and it starts with no history and no cycles if the file is missing or does not decode.
  pub new_state_lem :
      (file : Option Text) (writable : Bool)
      → let d = (new_state json file writable).fields in
        (current_state_version ≤ℤ d.version)
        × (((text : Text) × (file ≡ some text) × ((json.unmarshal text empty_data).1 ≡ true))
            ⊎ ((d.history ≡ []) × (d.cycles ≡ [])))
  unfolding new_state migrate_from
  new_state_lem none writable = (omega arith, inr (refl, refl))
  new_state_lem (some text) writable = elim (Bool-cases (json.unmarshal text empty_data).1) [
    | inl decoded ↦
        rw decoded (migrated (json.unmarshal text empty_data).0, inl (text, refl, decoded))
    | inr garbled ↦ rw garbled (omega arith, inr (refl, refl))
  ]
