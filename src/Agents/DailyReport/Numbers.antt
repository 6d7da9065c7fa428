-- ===== src/Agents/DailyReport/Numbers.antt =====
-- The numbers of the report of runtime/agents/daily_report.go.
use jarvinx.Shared.{
  ℕ, ◌+◌, ◌≤◌, ◌<◌, ◌≡◌, refl, sym, ap, ◌∙◌, arith, List, [], ◌∷◌, ◌++◌, some, length, last_of,
}
use jarvinx.Shared.Int.{pos, two63}
use jarvinx.Shared.Clock.{Time}
use jarvinx.Shared.Float.{Float64}
use jarvinx.Shared.Text.{codes}
use jarvinx.Memory.Records.{CycleRecord}
use jarvinx.Memory.State.{State, StateData, Json, last_cycles, state_store}
use jarvinx.Memory.State.Window.{
  add_all_cycles, numbered, last_items-last_of, last_of-all, add_all_cycles-IsShort,
  add_all_cycles_fields,
}
use jarvinx.Llm.Context.{Format, count_of, count_actions}
use jarvinx.Llm.Context.Counting.{occurrences, count_of-new}
use jarvinx.Agents.Records.{ReportData}
use jarvinx.Agents.DailyReport.{Sums, added, sum_up, no_sums, reported, report_on, build_report}

module _ {F : Type 0} ⦃fl : Float64 F⦄ where
  sum_up-actions :
      (cycles : List (CycleRecord F)) (s : Sums F)
      → (sum_up s cycles).actions ≡ count_actions s.actions cycles
  unfolding sum_up added count_actions
  sum_up-actions [] s = refl
  sum_up-actions (c ∷ cycles) s = sum_up-actions cycles (added c s)

  -- The numbers of a report on some cycles.
  abbrev pub IsCountOf : List (CycleRecord F) → ReportData F → Type 0
  IsCountOf cycles data' =
      (data'.total_cycles ≡ length cycles)
      × (data'.alert_count ≡ occurrences (codes "alert") cycles)
      × (data'.execute_count ≡ occurrences (codes "execute") cycles)

  pub report_on-IsCountOf :
      (fmt : Format F) (now : Time) (cycles : List (CycleRecord F))
      → IsCountOf cycles (report_on fmt now cycles)
  unfolding report_on no_sums count_of
  report_on-IsCountOf fmt now [] = (refl, refl, refl)
  report_on-IsCountOf fmt now (c ∷ cycles) = (
    refl,
    ap (count_of (codes "alert")) (sum_up-actions (c ∷ cycles) no_sums)
        ∙ count_of-new (codes "alert") (c ∷ cycles),
    ap (count_of (codes "execute")) (sum_up-actions (c ∷ cycles) no_sums)
        ∙ count_of-new (codes "execute") (c ∷ cycles),
  )

  -- With the JSON state as its store, the report on the last 24 hours is one on the last twenty cycles,
  -- however many were recorded: its total is at most twenty, and it counts the alerts and the executions
  -- among those.
  pub build_report-newest :
      (json : Json (StateData F)) (fmt : Format F) (now : Time) (num : ℕ)
      (rs : List (CycleRecord F)) (start : State F)
      → start.fields.cycle_num ≡ pos num
      → num + length rs < two63
      → length start.fields.cycles ≤ 20
      → (cycles : List (CycleRecord F)) × (cycles
          ≡ last_of 20 (start.fields.cycles ++ numbered num rs))
        × (build_report (state_store json) fmt now (add_all_cycles rs start)
            ≡ some (report_on fmt now cycles))
        × IsCountOf cycles (report_on fmt now cycles)
        × (length cycles ≤ 20)
  unfolding build_report reported last_cycles
  build_report-newest json fmt now num rs start n b few =
      let cycles = (add_all_cycles rs start).fields.cycles in
      let short = add_all_cycles-IsShort rs start few in
      (
        cycles,
        sym (last_of-all 20 cycles short) ∙ (add_all_cycles_fields rs num start n b).1,
        ap (reported fmt now) (
            last_items-last_of 5760 cycles
            ∙ ap some (last_of-all 5760 cycles (omega (arith, short)))),
        report_on-IsCountOf fmt now cycles,
        short,
      )
