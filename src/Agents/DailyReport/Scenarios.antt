-- ===== src/Agents/DailyReport/Scenarios.antt =====
-- Runs of runtime/agents/daily_report.go.
use jarvinx.Shared.{ℕ, ◌*◌, ◌≤◌, ◌≡◌, refl, arith, true, List, [], ◌∷◌, none, some, length, last_of}
use jarvinx.Shared.Int.{pos}
use jarvinx.Shared.Float.{thousandths}
use jarvinx.Shared.Text.{codes}
use jarvinx.Memory.Records.{CycleRecord, loaded, new_cycle_record}
use jarvinx.Memory.State.{State, StateData, Json, state_store}
use jarvinx.Memory.State.Window.{add_all_cycles, numbered}
use jarvinx.Llm.Context.{Format}
use jarvinx.Agents.DailyReport.{report_on, build_report}
use jarvinx.Agents.DailyReport.Numbers.{IsCountOf, build_report-newest}

abbrev plain : Format ℕ
plain = record { fixed = λ n x. []; int = λ n. []; float = λ n. n * 1000 }

abbrev no_json : Json (StateData ℕ)
no_json = record { marshal = λ d. none; unmarshal = λ text d. (d, true) }

abbrev new : State ℕ
new = record {
  fields = record { version = pos 1; history = []; cycles = []; cycle_num = pos 0 };
  file = none;
  writable = true;
}

abbrev alert : CycleRecord ℕ
unfolding new_cycle_record
alert = new_cycle_record (loaded 90 20 30) (codes "alert") (codes "hot") (codes "") (codes "")

build_report-newest_example :
    (cycles : List (CycleRecord ℕ)) × (cycles ≡ last_of 20 (numbered 0 (alert ∷ alert ∷ [])))
    × (build_report (state_store no_json) plain 7 (add_all_cycles (alert ∷ alert ∷ []) new)
        ≡ some (report_on plain 7 cycles))
    × IsCountOf cycles (report_on plain 7 cycles)
    × (length cycles ≤ 20)
build_report-newest_example =
    build_report-newest no_json plain 7 0 (alert ∷ alert ∷ []) new refl (omega arith) (omega arith)
