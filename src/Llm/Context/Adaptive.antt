-- ===== src/Llm/Context/Adaptive.antt =====
-- BuildAdaptiveSystemPrompt of runtime/llm/context_builder.go.
use jarvinx.Shared.{List, [], ◌∷◌, ◌++◌, leb, ◌==◌, if◌then◌else◌}
use jarvinx.Shared.Float.{Float64}
use jarvinx.Shared.Text.{Text}
use jarvinx.Llm.Context.{Format, bytes}
use jarvinx.Llm.Context.Prompt.{AdaptiveContext, sanitize_similar_decision}

-- A part that is written only for a text that is not empty.
unless_empty : Text → Text → Text
unless_empty [] part = []
unless_empty (_ ∷ _) part = part

-- `  - %s`, a line of a list.
unfoldable pub item : Text → Text
item s = bytes "  - " ++ s ++ bytes "\n"

alert_lines : List Text → Text
unfolding item
alert_lines [] = []
alert_lines (a ∷ alerts) = item a ++ alert_lines alerts

recent_part : List Text → Text
unfolding alert_lines
recent_part [] = []
recent_part (a ∷ alerts) = bytes "\nDernières alertes :\n" ++ alert_lines (a ∷ alerts)

unfoldable pub decision_lines : List Text → Text
unfolding item sanitize_similar_decision
decision_lines [] = []
decision_lines (d ∷ decisions) = item (sanitize_similar_decision d) ++ decision_lines decisions

unfoldable pub similar_part : List Text → Text
unfolding decision_lines
similar_part [] = []
similar_part (d ∷ decisions) =
    bytes "\n[HISTORICAL DATA]\n" ++ decision_lines (d ∷ decisions) ++ bytes "[/HISTORICAL DATA]\n"

-- A projection with its label, if there is one, before those that follow.
labelled : Text → Text → List Text → List Text
labelled label [] rest = rest
labelled label (c ∷ s) rest = (label ++ c ∷ s) ∷ rest

-- The items after the first of strings.Join with " | ".
joined : List Text → Text
joined [] = []
joined (s ∷ rest) = bytes " | " ++ s ++ joined rest

projection : List Text → Text
unfolding joined
projection [] = []
projection (s ∷ rest) = bytes "\nProjection : " ++ s ++ joined rest ++ bytes "\n"

module _ {F : Type 0} ⦃fl : Float64 F⦄ where
  rate_part : Format F → F → Text
  rate_part fmt rate =
      if fl.lt (fl.decimal 20 0) rate
      then bytes "⚠ Taux d'alerte élevé : "
        ++ fmt.fixed 0 rate
        ++ bytes "% des cycles — sois particulièrement vigilant.\n"
      else if fl.eq rate (fl.decimal 0 0)
      then bytes "✓ Système stable — aucune alerte récente.\n"
      else []

  trends_part : AdaptiveContext F → Text
  unfolding unless_empty labelled projection
  trends_part ctx =
      bytes "\nTendances observées :\n  CPU  : "
      ++ ctx.cpu_trend
      ++ bytes "\n  RAM  : "
      ++ ctx.ram_trend
      ++ bytes "\n  Disk : "
      ++ ctx.disk_trend
      ++ bytes "\n"
      ++ unless_empty ctx.correlation (bytes "  Corrélation : " ++ ctx.correlation ++ bytes "\n")
      ++ projection (
          labelled (bytes "CPU ") ctx.cpu_forecast (
            labelled (bytes "RAM ") ctx.ram_forecast
              (labelled (bytes "Disk ") ctx.disk_forecast [])))

  unfoldable pub build_adaptive_system_prompt : Format F → Text → AdaptiveContext F → Text
  unfolding unless_empty rate_part trends_part recent_part similar_part
  build_adaptive_system_prompt fmt base ctx =
      if ctx.cycle_count == 0
      then base
      else base
        ++ bytes "\n\n--- CONTEXTE ADAPTATIF ---\nAnalyse basée sur "
        ++ fmt.int ctx.cycle_count
        ++ bytes " cycles récents.\n"
        ++ unless_empty ctx.dominant_action
            (bytes "Action dominante : " ++ ctx.dominant_action ++ bytes "\n")
        ++ rate_part fmt ctx.alert_rate
        ++ bytes "Période : "
        ++ ctx.time_of_day
        ++ (if ctx.is_weekend then bytes ", weekend" else [])
        ++ bytes "\n"
        ++ trends_part ctx
        ++ (if leb 3 ctx.stable_streak
            then bytes "Stabilité : "
              ++ fmt.int ctx.stable_streak
              ++ bytes " cycles consécutifs sans alerte.\n"
            else [])
        ++ recent_part ctx.recent_alerts
        ++ similar_part ctx.similar_decisions
        ++ bytes "--- FIN CONTEXTE ---\nUtilise ce contexte pour affiner ton analyse."
