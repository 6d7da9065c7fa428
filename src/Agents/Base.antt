-- ===== src/Agents/Base.antt =====
-- BaseAgent of runtime/agents/agent.go. Each method holds the lock throughout, so it is one step.
pub mod Counts
use jarvinx.Shared.{ℕ, ◌≡◌, refl, Bool, true, false, List, [], ◌∷◌}
use jarvinx.Shared.Int.{ℤ, pos, inc}
use jarvinx.Shared.Clock.{Time, Duration}
use jarvinx.Shared.Text.{Text}

pub record AgentStatus : Type 0 where
  pub name : Text
  pub enabled : Bool
  pub last_run : Time
  pub last_error : Text
  pub run_count : ℤ
  pub error_count : ℤ
  pub alert_count : ℤ
  pub schedule : Duration

pub record BaseAgent : Type 0 where
  pub name : Text
  pub schedule : Duration
  pub enabled : Bool
  pub last_run : Time
  pub last_error : Text
  pub run_count : ℤ
  pub error_count : ℤ
  pub alert_count : ℤ

unfoldable pub new_base_agent : Text → Duration → BaseAgent
new_base_agent name schedule = record {
  name = name;
  schedule = schedule;
  enabled = true;
  last_run = 0;
  last_error = [];
  run_count = pos 0;
  error_count = pos 0;
  alert_count = pos 0;
}

unfoldable pub enable : BaseAgent → BaseAgent
enable b = record b { enabled = true }

unfoldable pub disable : BaseAgent → BaseAgent
disable b = record b { enabled = false }

unfoldable pub status : BaseAgent → AgentStatus
status b = record {
  name = b.name;
  enabled = b.enabled;
  last_run = b.last_run;
  last_error = b.last_error;
  run_count = b.run_count;
  error_count = b.error_count;
  alert_count = b.alert_count;
  schedule = b.schedule;
}

unfoldable pub record_success : Time → BaseAgent → BaseAgent
record_success now b = record b { last_run = now; run_count = inc b.run_count; last_error = [] }

unfoldable pub record_error : Time → Text → BaseAgent → BaseAgent
record_error now error b = record b {
  last_run = now;
  run_count = inc b.run_count;
  error_count = inc b.error_count;
  last_error = error;
}

unfoldable pub record_alert : Time → BaseAgent → BaseAgent
record_alert now b = record b {
  last_run = now;
  run_count = inc b.run_count;
  alert_count = inc b.alert_count;
  last_error = [];
}

-- What happens to an agent.
pub data Event : Type 0 where
  succeeds : Time → Event
  errs : Time → Text → Event
  alerts : Time → Event
  enables : Event
  disables : Event

unfoldable pub step : Event → BaseAgent → BaseAgent
unfolding record_success record_error record_alert enable disable
step (succeeds now) b = record_success now b
step (errs now error) b = record_error now error b
step (alerts now) b = record_alert now b
step enables b = enable b
step disables b = disable b

-- The agent after a history, newest event first.
unfoldable pub after : List Event → BaseAgent → BaseAgent
after [] b = b
after (e ∷ es) b = step e (after es b)
