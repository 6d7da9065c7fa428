-- ===== src/Agents/Records.antt =====
-- The alerts of runtime/agents/alert_agent.go and the report of runtime/agents/daily_report.go, over
-- the type `F` of float64. A message keeps the values that its text is formatted from.
use jarvinx.Shared.{ℕ, List}
use jarvinx.Shared.Int.{ℤ}
use jarvinx.Shared.Clock.{Time}
use jarvinx.Shared.Text.{Text}

pub data AlertLevel : Type 0 where
  alert_warning alert_critical : AlertLevel

pub record ReportData (F : Type 0) : Type 0 where
  pub date : Time
  pub total_cycles : ℕ
  pub actions : List (Text × ℕ)
  pub cpu_avg : F
  pub cpu_max : F
  pub ram_avg : F
  pub ram_max : F
  pub disk_max : F
  pub alert_count : ℕ
  pub execute_count : ℕ

pub data Message (F : Type 0) : Type 0 where
  sustained_load : Text → F → ℤ → Message F
  disk_usage : F → Message F
  daily_report : ReportData F → Message F

pub record Alert (F : Type 0) : Type 0 where
  pub timestamp : Time
  pub level : AlertLevel
  pub metric : Text
  pub value : F
  pub threshold : F
  pub message : Message F
  pub cycles_above : ℤ
