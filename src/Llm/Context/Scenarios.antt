-- ===== src/Llm/Context/Scenarios.antt =====
-- Runs of runtime/llm/context_builder.go.
use jarvinx.Shared.{ℕ, ◌*◌, ◌≤◌, ◌≡◌, true, false, List, [], ◌∷◌, ◌++◌, All, length, take}
use jarvinx.Shared.Clock.{LocalTime}
use jarvinx.Shared.Float.{thousandths}
use jarvinx.Shared.Text.{Text, codes}
use jarvinx.Memory.Records.{CycleRecord, loaded, new_cycle_record}
use jarvinx.Llm.Context.{Format, is_alert}
use jarvinx.Llm.Context.Counting.{occurrences}
use jarvinx.Llm.Context.Prompt.{build_adaptive_context}
use jarvinx.Llm.Context.Adaptive.{decision_lines}
use jarvinx.Llm.Context.Summary.{analyses, build_adaptive_context-IsSummary}
use jarvinx.Llm.Context.Lines.{occurs, decision_lines_lem}

abbrev plain : Format ℕ
plain = record { fixed = λ n x. []; int = λ n. []; float = λ n. n * 1000 }

abbrev utc : LocalTime
utc = record { hour = λ t. 8; minute = λ t. 0; weekday = λ t. 1; on_day = λ t h m. t }

abbrev cycle : Text → Text → CycleRecord ℕ
unfolding new_cycle_record
cycle action analysis = new_cycle_record (loaded 10 20 30) action analysis (codes "") (codes "")

abbrev past : List (CycleRecord ℕ)
past =
    cycle (codes "alert") (codes "hot")
    ∷ cycle (codes "log") (codes "fine")
    ∷ cycle (codes "log") (codes "fine")
    ∷ []

build_adaptive_context-IsSummary_example :
    let ctx = build_adaptive_context plain (λ counts. counts) utc 0 past [] 85000 90000 85000 in
    (ctx.cycle_count ≡ 3)
    × ((action : Text) → occurrences action past ≤ occurrences ctx.dominant_action past)
    × (ctx.recent_alerts ≡ take 3 (analyses past))
    × ((older newer : List (CycleRecord ℕ)) (c : CycleRecord ℕ)
        → past ≡ older ++ c ∷ newer
        → is_alert c ≡ true
        → All (λ r. is_alert r ≡ false) newer
        → ctx.stable_streak ≡ length newer)
build_adaptive_context-IsSummary_example =
    build_adaptive_context-IsSummary plain (λ counts. counts) utc 0 past [] 85000 90000 85000
      (λ counts P. (λ h. h, λ h. h))

decision_lines_lem_example :
    (occurs 10 (decision_lines (codes "a\nb" ∷ codes "c" ∷ [])) ≡ 2)
    × (length (decision_lines (codes "a\nb" ∷ codes "c" ∷ [])) ≤ 410)
decision_lines_lem_example = decision_lines_lem (codes "a\nb" ∷ codes "c" ∷ [])
