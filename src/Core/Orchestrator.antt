-- ===== src/Core/Orchestrator.antt =====
-- runtime/core/orchestrator.go: the execute guard and the handling of one observed snapshot. The
-- clock readings and the machine are arguments; the store and the log are any implementations.
pub mod Guard
pub mod Execute
pub mod Pipeline
mod Scenarios
use jarvinx.Shared.{
  ℕ, ◌-◌, Bool, true, false, not, ◌&&◌, List, [], ◌∷◌, Option, none, some, ltb, leb, if◌then◌else◌,
}
use jarvinx.Shared.Int.{pos}
use jarvinx.Shared.Clock.{Time, Duration, since}
use jarvinx.Shared.Float.{Float64}
use jarvinx.Shared.Text.{Text, text_eq}
use jarvinx.Memory.Records.{Snapshot, CycleRecord}
use jarvinx.Memory.Store.{Store, EventLog, LogError}
use jarvinx.Tools.Shell.{
  CommandSpec, CommandResult, Machine, execute_command, execute_command_dry_run,
}

pub record ExecuteGuard : Type 0 where
  pub last_cmd : Text
  pub last_exec_at : Time
  pub cooldown : Duration
  pub last_result : Option CommandResult

unfoldable pub set_last_result : CommandResult → ExecuteGuard → ExecuteGuard
set_last_result r g = record g { last_result = some r }

-- The clock is read twice: for the test and for the stamp.
unfoldable pub allow : Time → Time → Text → ExecuteGuard → ExecuteGuard × Bool
allow checked stamped cmd g =
    if text_eq cmd g.last_cmd && ltb (since checked g.last_exec_at) g.cooldown
    then (g, false)
    else (record g { last_cmd = cmd; last_exec_at = stamped }, true)

unfoldable pub cooldown_remaining : Time → ExecuteGuard → Duration
cooldown_remaining now g =
    let elapsed = since now g.last_exec_at in
    if leb g.cooldown elapsed then 0 else g.cooldown - elapsed

unfoldable pub exec_guard_status : Time → ExecuteGuard → Text × Duration
unfolding cooldown_remaining
exec_guard_status now g = (g.last_cmd, cooldown_remaining now g)

-- The zero CommandResult stands for a missing one, so the pair is an option.
unfoldable pub last_exec_result_status : ExecuteGuard → Option CommandResult
last_exec_result_status g = g.last_result

-- `locked` is the mutex that handleObserved holds while it works.
pub record Orchestrator (F L : Type 0) : Type 0 where
  pub logger : L
  pub last_snap : Snapshot F
  pub dry_run : Bool
  pub exec_guard : ExecuteGuard
  pub locked : Bool

-- What a call does besides: whether the log failed, the processes that it starts and the results
-- that it publishes on the bus.
pub record Effects : Type 0 where
  pub log_error : Option LogError
  pub processes : List CommandSpec
  pub published : List CommandResult

no_effects : Option LogError → Effects
no_effects error = record { log_error = error; processes = []; published = [] }

-- The instants at which the guard reads the clock, and the machine that commands run on.
pub record World : Type 0 where
  pub checked : Time
  pub stamped : Time
  pub machine : Machine

module _ {F : Type 0} ⦃fl : Float64 F⦄ where
  -- A trigger that was set and that the metric has left by more than the margin of 5.
  left_behind : F → F → Bool
  left_behind trigger current =
      fl.lt (fl.decimal 0 0) trigger && fl.lt current (fl.sub trigger (fl.decimal 5 0))

  is_zero : F → Bool
  is_zero x = fl.eq x (fl.decimal 0 0)

  unfoldable pub should_execute : CycleRecord F → Snapshot F → Bool
  unfolding left_behind is_zero
  should_execute cycle current =
      if is_zero cycle.trigger_cpu && (is_zero cycle.trigger_ram && is_zero cycle.trigger_disk)
      then true
      else if left_behind cycle.trigger_cpu current.cpu_percent
      then false
      else if left_behind cycle.trigger_ram current.mem_percent
      then false
      else if left_behind cycle.trigger_disk current.disk_percent
      then false
      else true

-- The command of the newest cycle, once it is allowed.
carry_out : Bool → Machine → Text → ExecuteGuard → ExecuteGuard × Effects
carry_out true m cmd g = (
  set_last_result (execute_command_dry_run cmd) g,
  record { log_error = none; processes = []; published = [] },
)
carry_out false m cmd g =
    let (result, started) = execute_command m cmd in
    (
      set_last_result result g,
      record { log_error = none; processes = started; published = result ∷ [] },
    )

permitted : Bool → Machine → Text → ExecuteGuard × Bool → ExecuteGuard × Effects
unfolding no_effects carry_out
permitted dry m cmd (g, false) = (g, no_effects none)
permitted dry m cmd (g, true) = carry_out dry m cmd g

module _ {F : Type 0} ⦃fl : Float64 F⦄ where
  -- The block under `if len(cycles) > 0 && cycles[0].Command != ""`.
  follow_up :
      World → Bool → Snapshot F → List (CycleRecord F) → ExecuteGuard → ExecuteGuard × Effects
  unfolding permitted no_effects
  follow_up w dry snap [] g = (g, no_effects none)
  follow_up w dry snap (cycle ∷ _) g =
      if text_eq cycle.command []
      then (g, no_effects none)
      else if should_execute cycle snap
      then permitted dry w.machine cycle.command (allow w.checked w.stamped cycle.command g)
      else (g, no_effects none)

  module _ {S L : Type 0} (store : Store F S) (log : EventLog F L) where
    -- `none`: reading the cycles panicked.
    unfoldable pub handle_observed :
        World → S → Snapshot F → Orchestrator F L → Option (Orchestrator F L × Effects)
    unfolding follow_up no_effects
    handle_observed w state snap o =
        if o.locked
        then some (o, no_effects none)
        else (let (logger, error) = log.write snap o.logger in
            elim (store.last_cycles (pos 1) state) [
              | none ↦ none
              | some cycles ↦
                  let (guard, effects) = follow_up w o.dry_run snap cycles o.exec_guard in
                  some (
                    record o { logger = logger; last_snap = snap; exec_guard = guard },
                    record effects { log_error = error },
                  )
            ])
