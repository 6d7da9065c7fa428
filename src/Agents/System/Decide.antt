-- ===== src/Agents/System/Decide.antt =====
-- What a run of runtime/agents/system_agent.go records.
use jarvinx.Shared.{◌≡◌, if◌then◌else◌}
use jarvinx.Shared.Float.{Float64}
use jarvinx.Shared.Text.{Text, codes, text_eq}
use jarvinx.Memory.Records.{Snapshot, CycleRecord}
use jarvinx.Memory.Store.{Store}
use jarvinx.Llm.Parser.{Decision}

module _ {F : Type 0} ⦃fl : Float64 F⦄ where
  -- The triggers of a cycle: the metrics if it executes, and else 0.
  abbrev pub triggers_of : Text → Snapshot F → F × F × F
  triggers_of action snap =
      if text_eq action (codes "execute")
      then (snap.cpu_percent, snap.mem_percent, snap.disk_percent)
      else (fl.decimal 0 0, fl.decimal 0 0, fl.decimal 0 0)

  -- A cycle that tells of a snapshot and a decision, before a store numbers it.
  pub record IsRecordOf (snap : Snapshot F) (d : Decision F) (r : CycleRecord F) : Type 0 where
    pub snapshot : r.snapshot ≡ snap
    pub timestamp : r.timestamp ≡ snap.timestamp
    pub action : r.action ≡ d.action
    pub analysis : r.analysis ≡ d.analysis
    pub reason : r.reason ≡ d.reason
    pub command : r.command ≡ d.command
    pub confidence : r.confidence ≡ d.confidence
    pub trigger_cpu : r.trigger_cpu ≡ (triggers_of d.action snap).0
    pub trigger_ram : r.trigger_ram ≡ (triggers_of d.action snap).1
    pub trigger_disk : r.trigger_disk ≡ (triggers_of d.action snap).2

module _ {F : Type 0} ⦃fl : Float64 F⦄ {S : Type 0} (store : Store F S) where
  -- A store after one cycle and then one snapshot were added to it and it was saved once.
  abbrev pub recorded : CycleRecord F → Snapshot F → S → S
  recorded r snap s = (store.save (store.add snap (store.add_cycle r s).0).0).0
