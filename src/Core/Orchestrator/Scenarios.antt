-- ===== src/Core/Orchestrator/Scenarios.antt =====
-- Runs of runtime/core/orchestrator.go and runtime/tools/shell.go.
use jarvinx.Shared.{ℕ, ◌*◌, ◌≡◌, refl, true, false, [], ◌∷◌, none, some, inr, arith, All}
use jarvinx.Shared.Int.{pos}
use jarvinx.Shared.Clock.{second}
use jarvinx.Shared.Float.{thousandths}
use jarvinx.Shared.Text.{Text, codes, text_eq, trim_space}
use jarvinx.Memory.Records.{CycleRecord, loaded, new_cycle_record}
use jarvinx.Memory.Store.{EventLog}
use jarvinx.Memory.State
use jarvinx.Memory.State.{Json, State, StateData, state_store}
use jarvinx.Tools.Shell.{Machine, execute_command, execute_command_with_timeout}
use jarvinx.Tools.Shell.Whitelist.{IsListed, execute_command_with_timeout-IsListed}
use jarvinx.Core.Orchestrator.{ExecuteGuard, Orchestrator, Effects, World, allow, handle_observed}
use jarvinx.Core.Orchestrator.Guard.{
  Attempt, granted, IsCooled, granted-IsCooled, granted_alternating,
}
use jarvinx.Llm.Parser.{Decision, is_valid_action, validate_decision}
use jarvinx.Agents.System.{to_record}
use jarvinx.Core.Orchestrator.Pipeline.{unconfirmed_executes}
use jarvinx.Core.Orchestrator.Execute.{
  IsSafe, IsDone, handle_observed-IsSafe, handle_observed-IsDone,
}

abbrev calm : Machine
calm = record {
  windows = false;
  start = λ spec timeout. record {
    failure = none;
    stdout = codes "up 3 days ";
    stderr = [];
    duration = 5;
    deadline_exceeded = false;
  };
}

execute_command_with_timeout-IsListed_example :
    All IsListed (execute_command_with_timeout calm (codes " uptime ") 10).1
execute_command_with_timeout-IsListed_example =
    execute_command_with_timeout-IsListed calm (codes " uptime ") 10

abbrev rested : ExecuteGuard
rested = record {
  last_cmd = codes "uptime";
  last_exec_at = 1000 * second;
  cooldown = 300 * second;
  last_result = none;
}

abbrev attempt : ℕ → Text → Attempt
attempt at cmd = record { checked = at * second; stamped = at * second; cmd = cmd }

granted-IsCooled_example :
    IsCooled
      (300 * second)
      (codes "uptime")
      (1000 * second)
      (granted rested (attempt 1100 (codes "uptime") ∷ attempt 1400 (codes "uptime") ∷ []))
granted-IsCooled_example =
    granted-IsCooled rested (attempt 1100 (codes "uptime") ∷ attempt 1400 (codes "uptime") ∷ [])
      (omega arith) (omega arith)

-- Two runs of `uptime` within two seconds.
granted_alternating_example :
    granted rested (
      attempt 1001 (codes "df -h")
      ∷ attempt 1002 (codes "uptime")
      ∷ attempt 1003 (codes "df -h")
      ∷ [])
    ≡ attempt 1001 (codes "df -h")
      ∷ attempt 1002 (codes "uptime")
      ∷ attempt 1003 (codes "df -h")
      ∷ []
unfolding text_eq
granted_alternating_example =
    granted_alternating rested
      (attempt 1001 (codes "df -h")
        ∷ attempt 1002 (codes "uptime")
        ∷ attempt 1003 (codes "df -h")
        ∷ [])
      (refl, (refl, (refl, tt)))

abbrev quiet_log : EventLog ℕ (Unit {0})
quiet_log = record { write = λ snap l. (l, none) }

abbrev no_json : Json (StateData ℕ)
no_json = record { marshal = λ d. none; unmarshal = λ text d. (d, true) }

abbrev suggested : CycleRecord ℕ
unfolding new_cycle_record
suggested =
    new_cycle_record (loaded 10 20 30) (codes "suggest") (codes "slow") (codes "") (codes "uptime")

abbrev with_cycle : CycleRecord ℕ → State ℕ
with_cycle c = record {
  fields = record { version = pos 1; history = []; cycles = c ∷ []; cycle_num = pos 1 };
  file = none;
  writable = true;
}

abbrev fresh : Orchestrator ℕ (Unit {0})
fresh = record {
  logger = tt;
  last_snap = loaded 0 0 0;
  dry_run = false;
  exec_guard = record {
    last_cmd = [];
    last_exec_at = 0;
    cooldown = 300 * second;
    last_result = none;
  };
  locked = false;
}

abbrev noon : World
noon = record { checked = 2000 * second; stamped = 2000 * second; machine = calm }

handle_observed-IsDone_example :
    (after : Orchestrator ℕ (Unit {0}) × Effects) × (handle_observed
        (state_store no_json)
        quiet_log
        noon
        (with_cycle suggested)
        (loaded 1 2 3)
        fresh
      ≡ some after)
    × (after.0.last_snap ≡ loaded 1 2 3)
    × IsDone noon false suggested (loaded 1 2 3) fresh.exec_guard (after.0.exec_guard, after.1)
unfolding State.last_cycles State.last_items suggested
handle_observed-IsDone_example =
    handle_observed-IsDone (state_store no_json) quiet_log noon (with_cycle suggested)
      (loaded 1 2 3) fresh suggested [] refl refl

newest : State.last_cycles (pos 1) (with_cycle suggested) ≡ some (suggested ∷ [])
unfolding State.last_cycles State.last_items
newest = refl

abbrev outcome : Orchestrator ℕ (Unit {0}) × Effects
outcome =
    (handle_observed-IsDone (state_store no_json) quiet_log noon (with_cycle suggested)
      (loaded 1 2 3) fresh suggested [] refl newest).0

handle_observed-IsSafe_example : IsSafe false outcome.1
handle_observed-IsSafe_example =
    handle_observed-IsSafe (state_store no_json) quiet_log noon (with_cycle suggested)
      (loaded 1 2 3) fresh
      (handle_observed-IsDone (state_store no_json) quiet_log noon (with_cycle suggested)
        (loaded 1 2 3) fresh suggested [] refl newest).1

-- A decision to log with a confidence of 0.1, and a command.
abbrev hint : Decision ℕ
hint = record {
  analysis = codes "calm";
  action = codes "log";
  command = codes "uptime";
  reason = [];
  confidence = 100;
}

unconfirmed_executes_example :
    (validate_decision hint ≡ inr hint)
    × (after : Orchestrator ℕ (Unit {0}) × Effects) × (handle_observed
          (state_store no_json)
          quiet_log
          noon
          (with_cycle (record (to_record (loaded 1 2 3) hint) { cycle_num = pos 1 }))
          (loaded 1 2 3)
          fresh
        ≡ some after)
    × (after.1.published ≡ (execute_command calm (codes "uptime")).0 ∷ [])
unfolding State.last_cycles State.last_items trim_space text_eq allow is_valid_action
unconfirmed_executes_example =
    unconfirmed_executes (state_store no_json) quiet_log noon
      (with_cycle (record (to_record (loaded 1 2 3) hint) { cycle_num = pos 1 })) (loaded 1 2 3)
      (loaded 1 2 3) fresh hint (pos 1) [] refl refl refl refl refl refl refl refl refl
