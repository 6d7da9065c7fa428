-- ===== src/Memory/State/Scenarios.antt =====
-- Runs of runtime/memory/state.go.
use jarvinx.Shared.{ℕ, ◌≡◌, refl, true, [], ◌∷◌, none, some, arith, last_of}
use jarvinx.Shared.Int.{pos}
use jarvinx.Shared.Float.{thousandths}
use jarvinx.Shared.Text.{codes}
use jarvinx.Memory.Records.{CycleRecord, loaded, new_cycle_record}
use jarvinx.Memory.State.{Json, StateData, State, current_cycle, last_cycles, new_state}
use jarvinx.Memory.State.Window.{add_all_cycles, numbered, last_cycles-add_all_cycles}

-- A codec that knows one state: that of a program that has run for a while.
abbrev remembered : StateData ℕ
remembered = record {
  version = pos 1;
  history = loaded 10 20 30 ∷ [];
  cycles = [];
  cycle_num = pos 4;
}

abbrev toy_json : Json (StateData ℕ)
toy_json = record { marshal = λ d. some (codes "{}"); unmarshal = λ text d. (remembered, true) }

abbrev running : State ℕ
running = record { fields = remembered; file = none; writable = true }

abbrev decided : CycleRecord ℕ
unfolding new_cycle_record
decided = new_cycle_record (loaded 10 20 30) (codes "log") (codes "ok") (codes "") (codes "")

last_cycles-add_all_cycles_example :
    (current_cycle (add_all_cycles (decided ∷ decided ∷ []) running) ≡ pos 6)
    × (last_cycles (pos 1) (add_all_cycles (decided ∷ decided ∷ []) running)
        ≡ some (last_of 1 (numbered 4 (decided ∷ decided ∷ []))))
last_cycles-add_all_cycles_example =
    last_cycles-add_all_cycles 1 4 (decided ∷ decided ∷ []) running (omega arith) refl (omega arith)

starts_empty : (new_state toy_json none true).fields.history ≡ []
unfolding new_state
starts_empty = refl
