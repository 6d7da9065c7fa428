-- ===== src/Agents/Alert/Load.antt =====
-- The CPU and the RAM alerts of runtime/agents/alert_agent.go, over whole histories.
use jarvinx.Shared.{◌+◌, ◌<◌, ◌≡◌, refl, Bool, List, ◌∷◌, map, length}
use jarvinx.Shared.Int.{ℤ, two63}
use jarvinx.Shared.Float.{Float64}
use jarvinx.Shared.Text.{Text}
use jarvinx.Memory.Records.{Snapshot}
use jarvinx.Agents.Notifier.{NotifierDispatcher}
use jarvinx.Agents.Alert.{
  AlertAgent, cpu_metric, ram_metric, new_alert_agent, cpu_above, ram_above, after,
}
use jarvinx.Agents.Alert.Track.{rule, IsSpaced}
use jarvinx.Agents.Alert.Rule.{
  emits, alert_cycles, cpu_tracker, ram_tracker, step_cpu, step_ram, metric_rule,
}

module _ {F : Type 0} ⦃fl : Float64 F⦄ where
  -- After the history h, the agent raises an alert of the metric at x exactly by `rule`, from the
  -- snapshots at the threshold and the cycles of the earlier alerts; and its alerts are spaced.
  abbrev pub IsRuled :
      Text
      → (AlertAgent F → Snapshot F → Bool)
      → AlertAgent F
      → Snapshot F
      → List (Snapshot F)
      → Type 0
  IsRuled metric above a x h =
      (emits metric x (after h a)
        ≡ rule a.min_cycles a.cooldown (above a x) (map (above a) h) (alert_cycles metric a h))
      × IsSpaced a.cooldown (alert_cycles metric a (x ∷ h))

  -- On every history of snapshots that the cycle counter can number, a new agent raises a CPU alert
  -- exactly when the CPU has been at its threshold or above for `min_cycles` consecutive snapshots, the
  -- current one included, and `cooldown` cycles have passed since its last CPU alert; so two CPU alerts
  -- are never less than the cooldown apart. The same holds of RAM alerts, on their own counters.
  pub load_rules :
      (cpu ram disk : F) (min_cycles cooldown : ℤ) (file : Text) (d : NotifierDispatcher)
      (x : Snapshot F) (h : List (Snapshot F))
      → length h + 1000 < two63
      → let a = new_alert_agent cpu ram disk min_cycles cooldown file d in
        IsRuled cpu_metric cpu_above a x h × IsRuled ram_metric ram_above a x h
  unfolding new_alert_agent cpu_above cpu_tracker ram_above ram_tracker
  load_rules cpu ram disk min_cycles cooldown file d x h l =
      let a = new_alert_agent cpu ram disk min_cycles cooldown file d in
      (
        metric_rule cpu_metric cpu_above cpu_tracker (λ a s. refl) step_cpu a refl refl x h l,
        metric_rule ram_metric ram_above ram_tracker (λ a s. refl) step_ram a refl refl x h l,
      )
