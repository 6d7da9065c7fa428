-- ===== src/Agents/File/Scenarios.antt =====
-- Runs of runtime/agents/file_agent.go.
use jarvinx.Shared.{ℕ, ◌*◌, ◌≡◌, false, List, [], ◌∷◌, some}
use jarvinx.Shared.Int.{pos}
use jarvinx.Shared.Clock.{Time, second}
use jarvinx.Shared.Float.{from_int, thousandths}
use jarvinx.Shared.Text.{Text, codes, text_eq}
use jarvinx.Tools.Files.{empty_stats}
use jarvinx.Agents.File.{Turn, new_file_agent, growth_alerts}
use jarvinx.Agents.File.Memory.{Run, after, grown, growth_alerts-after}

abbrev logs : List Text
logs = codes "/var/log" ∷ []

abbrev turn : ℕ → Text → Time → Turn ℕ
unfolding empty_stats
turn megabytes error time = record {
  ctx_done = false;
  stats = record (empty_stats (codes "/var/log")) { total_mb = megabytes * 1000; error = error };
  now = time;
  later = time;
}

-- The scan of the newest run failed.
abbrev past : List (Run ℕ)
past =
    ((λ n. turn 0 (codes "inaccessible") (600 * second)), 600 * second)
    ∷ ((λ n. turn 100 [] (300 * second)), 300 * second)
    ∷ []

growth_alerts-after_example :
    let a = after past (new_file_agent logs (pos 500) false) in
    growth_alerts
      (codes "/var/log")
      (turn 700 [] (900 * second))
      (a.prev_sizes (codes "/var/log"))
      a
    ≡ grown
        (pos 500)
        false
        (codes "/var/log")
        (turn 700 [] (900 * second))
        (some (100000, 300 * second))
unfolding text_eq from_int turn
growth_alerts-after_example =
    growth_alerts-after past logs (pos 500) false (codes "/var/log") (turn 700 [] (900 * second))
