-- ===== src/Llm/Prompt.antt =====
-- runtime/llm/prompt.go. A string is the list of its bytes here.
use jarvinx.Shared.{List, [], ◌∷◌, ◌++◌, if◌then◌else◌}
use jarvinx.Shared.Clock.{Time, LocalTime}
use jarvinx.Shared.Float.{Float64}
use jarvinx.Shared.Text.{Text, codes, text_eq}
use jarvinx.Memory.Records.{Snapshot}
use jarvinx.Llm.Context.{Format, Counts, SystemContext, bytes}
use jarvinx.Llm.Context.Prompt.{build_adaptive_context}
use jarvinx.Llm.Context.Adaptive.{build_adaptive_system_prompt}

instructions : {F : Type 0} → Format F → F → F → F → Text
instructions fmt cpu ram disk =
    bytes "Tu es JARVINx, un agent de monitoring système autonome.\n"
    ++ bytes "Tu reçois l'état actuel d'un système ainsi que son historique récent.\n"
    ++ bytes "Tu retournes UNIQUEMENT un objet JSON valide.\n"
    ++ bytes "Aucun texte avant ou après le JSON. Aucun markdown. Aucun backtick.\n"
    ++ bytes "\n"
    ++ bytes "Format de réponse obligatoire :\n"
    ++ bytes "{\n"
    ++ bytes "  \"analysis\": \"description courte de l'état et des tendances observées\",\n"
    ++ bytes "  \"action\": \"log\" | \"alert\" | \"suggest\" | \"execute\",\n"
    ++ bytes "  \"command\": \"commande à exécuter (seulement si action=execute)\",\n"
    ++ bytes "  \"reason\": \"explication de ta décision basée sur les tendances\",\n"
    ++ bytes "  \"confidence\": ta certitude sur la décision, float entre 0.0 et 1.0\n"
    ++ bytes "}\n"
    ++ bytes "\n"
    ++ bytes "Rules:\n"
    ++ bytes "- \"log\"     : system stable, no worrying trend\n"
    ++ bytes "- \"alert\"   : critical threshold exceeded (CPU >"
    ++ fmt.fixed 0 cpu
    ++ bytes "%, RAM >"
    ++ fmt.fixed 0 ram
    ++ bytes "%, Disk >"
    ++ fmt.fixed 0 disk
    ++ bytes "%)\n"
    ++ bytes "- \"suggest\" : degraded trend over multiple cycles\n"
    ++ bytes "- \"execute\" : diagnostic needed\n"
    ++ bytes "\n"
    ++ bytes "Commands autorisées :\n"
    ++ bytes "- \"docker ps\"\n"
    ++ bytes "- \"docker stats\"\n"
    ++ bytes "- \"uptime\"\n"
    ++ bytes "- \"df -h\"\n"
    ++ bytes "- \"free -h\"\n"

windows_note : Text
windows_note =
    bytes "\n"
    ++ bytes "Note OS : Windows detected. Commands are auto-translated at runtime :\n"
    ++ bytes "- \"df -h\"   → wmic logicaldisk get size,freespace,caption\n"
    ++ bytes "- \"free -h\" → wmic OS get FreePhysicalMemory,TotalVisibleMemorySize\n"
    ++ bytes "- \"uptime\"  → net statistics workstation\n"
    ++ bytes "Utilise uniquement les noms listés ci-dessus, pas leurs équivalents Windows.\n"

unfoldable pub build_system_prompt : {F : Type 0} → Format F → F → F → F → Text → Text
unfolding instructions windows_note text_eq
build_system_prompt fmt cpu ram disk goos =
    let base = instructions fmt cpu ram disk in
    let noted = if text_eq goos (codes "windows") then base ++ windows_note else base in
    noted ++ bytes "\nAnalyse les TENDANCES, pas seulement l'instant présent."

-- The verb of a time as hour, minute and second.
module _ {F : Type 0} (clock : Time → Text) where
  history_lines : Format F → List (Snapshot F) → Text
  history_lines fmt [] = []
  history_lines fmt (snap ∷ snaps) =
      bytes "  "
      ++ clock snap.timestamp
      ++ bytes " → CPU: "
      ++ fmt.fixed 1 snap.cpu_percent
      ++ bytes "% | RAM: "
      ++ fmt.fixed 1 snap.mem_percent
      ++ bytes "% | Disk: "
      ++ fmt.fixed 1 snap.disk_percent
      ++ bytes "%\n"
      ++ history_lines fmt snaps

  history_part : Format F → List (Snapshot F) → Text
  unfolding history_lines
  history_part fmt [] = []
  history_part fmt (snap ∷ snaps) =
      bytes "Historique des observations récentes :\n"
      ++ history_lines fmt (snap ∷ snaps)
      ++ bytes "\n"

  unfoldable pub build_user_prompt : Format F → SystemContext F → Text
  unfolding history_part
  build_user_prompt fmt ctx =
      history_part fmt ctx.history
      ++ bytes "Observation actuelle à "
      ++ clock ctx.timestamp
      ++ bytes " :\n- CPU    : "
      ++ fmt.fixed 1 ctx.cpu_percent
      ++ bytes "%\n- RAM    : "
      ++ fmt.int ctx.mem_used
      ++ bytes " MB / "
      ++ fmt.int ctx.mem_total
      ++ bytes " MB ("
      ++ fmt.fixed 1 ctx.mem_percent
      ++ bytes "%)\n- DISQUE : "
      ++ fmt.int ctx.disk_used
      ++ bytes " GB / "
      ++ fmt.int ctx.disk_total
      ++ bytes " GB ("
      ++ fmt.fixed 1 ctx.disk_percent
      ++ bytes "%)\n\nAnalyse les tendances et retourne ta décision JSON."

unfoldable pub build_adaptive_prompt :
    {F : Type 0} ⦃fl : Float64 F⦄
    → Format F
    → (Counts → Counts)
    → LocalTime
    → Time
    → SystemContext F
    → Text
unfolding build_system_prompt build_adaptive_context build_adaptive_system_prompt
build_adaptive_prompt fmt order local now ctx =
    let base =
      build_system_prompt fmt ctx.cpu_threshold ctx.ram_threshold ctx.disk_threshold ctx.goos in
    let adaptive =
      build_adaptive_context fmt order local now ctx.cycles ctx.history ctx.cpu_threshold
        ctx.ram_threshold ctx.disk_threshold in
    build_adaptive_system_prompt fmt base
      (record adaptive { similar_decisions = ctx.similar_decisions })
