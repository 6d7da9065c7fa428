-- ===== src/Agents/Alert/Scenarios.antt =====
-- Runs of runtime/agents/agent.go, runtime/agents/notifier.go and runtime/agents/alert_agent.go.
use jarvinx.Shared.{ℕ, ◌≡◌, refl, false, List, [], ◌∷◌, Option, some, arith, All, length}
use jarvinx.Shared.Int.{pos, inc, ◌-ℤ◌}
use jarvinx.Shared.Float.{thousandths}
use jarvinx.Shared.Text.{codes}
use jarvinx.Memory.Records.{Snapshot, loaded}
use jarvinx.Agents.Base.{Event, succeeds, errs, alerts, disables}
use jarvinx.Agents.Records.{Alert, alert_critical, disk_usage}
use jarvinx.Agents.Notifier.{discord, ntfy, NotifierDispatcher, Request}
use jarvinx.Agents.Alert.{
  AlertAgent, cpu_metric, ram_metric, cpu_above, ram_above, new_alert_agent, analyze, after,
  sustained,
}
use jarvinx.Agents.Alert.Load.{IsRuled, load_rules}
use jarvinx.Agents.Alert.Sound.{IsTrue, analyze-IsTrue}

abbrev life : List Event
life = succeeds 9 ∷ disables ∷ errs 5 (codes "timeout") ∷ alerts 2 ∷ []

abbrev two_channels : NotifierDispatcher
two_channels = record {
  notifiers = discord (codes "https://d") ∷ ntfy (codes "https://n") (codes "t") ∷ [];
  dry_run = false;
}

abbrev full_disk : Alert ℕ
full_disk = record {
  timestamp = 0;
  level = alert_critical;
  metric = codes "DISK";
  value = 95000;
  threshold = 90000;
  message = disk_usage 95000;
  cycles_above = pos 0;
}

abbrev all_ok : ℕ → Request ℕ → Option ℕ
all_ok i r = some 200

abbrev watcher : AlertAgent ℕ
unfolding new_alert_agent
watcher = new_alert_agent 80000 85000 90000 (pos 2) (pos 5) (codes "alerts.jsonl") two_channels

abbrev busy : Snapshot ℕ
busy = loaded 91000 86000 10000

load_rules_example :
    let a =
      new_alert_agent {F = ℕ} 80000 85000 90000
        (pos 2)
        (pos 5)
        (codes "alerts.jsonl")
        two_channels in
    IsRuled cpu_metric cpu_above a busy (busy ∷ [])
    × IsRuled ram_metric ram_above a busy (busy ∷ [])
load_rules_example =
    load_rules 80000 85000 90000 (pos 2) (pos 5) (codes "alerts.jsonl") two_channels busy
      (busy ∷ []) (omega arith)

analyze-IsTrue_example : All (IsTrue busy watcher) (analyze busy watcher).1
analyze-IsTrue_example = analyze-IsTrue busy watcher

-- The second busy snapshot in a row raises an alert for CPU and one for RAM.
second_alerts : length (analyze busy (after (busy ∷ []) watcher)).1 ≡ 2
unfolding analyze after sustained watcher inc ◌-ℤ◌
second_alerts = refl
