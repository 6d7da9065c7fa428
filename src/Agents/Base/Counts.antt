-- ===== src/Agents/Base/Counts.antt =====
-- The counters of BaseAgent in runtime/agents/agent.go.
use jarvinx.Shared.{
  ℕ, ◌+◌, ◌≤◌, ◌<◌, ◌≡◌, refl, Bool, true, false, List, [], ◌∷◌, arith, if◌then◌else◌, length,
}
use jarvinx.Shared.Int.{pos, inc-pos, two63}
use jarvinx.Shared.Clock.{Duration}
use jarvinx.Shared.Text.{Text}
use jarvinx.Agents.Base.{
  Event, succeeds, errs, alerts, enables, disables, new_base_agent, status, step, after,
}

abbrev pub is_run : Event → Bool
is_run (succeeds _) = true
is_run (errs _ _) = true
is_run (alerts _) = true
is_run _ = false

abbrev pub is_error : Event → Bool
is_error (errs _ _) = true
is_error _ = false

abbrev pub is_alert : Event → Bool
is_alert (alerts _) = true
is_alert _ = false

abbrev pub count : (Event → Bool) → List Event → ℕ
count p [] = 0
count p (e ∷ es) = let rest = count p es in if p e then rest + 1 else rest

-- Whether an agent is enabled after a history, and the error that it shows.
abbrev pub enabled_by : List Event → Bool
enabled_by [] = true
enabled_by (enables ∷ es) = true
enabled_by (disables ∷ es) = false
enabled_by (_ ∷ es) = enabled_by es

abbrev pub error_by : List Event → Text
error_by [] = []
error_by (errs _ error ∷ es) = error
error_by (succeeds _ ∷ es) = []
error_by (alerts _ ∷ es) = []
error_by (_ ∷ es) = error_by es

count-le-length : (p : Event → Bool) (es : List Event) → count p es ≤ length es
count-le-length p [] = omega arith
count-le-length p (e ∷ es) = ground (arith, count-le-length p es)

-- After any events, fewer than an int can count, a new agent's status has the numbers of its runs,
-- of those that failed and of those that raised an alert; it is enabled as the last Enable or
-- Disable left it, and shows the error of its last run, or none.
pub status-after :
    (name : Text) (schedule : Duration) (es : List Event)
    → length es < two63
    → let s = status (after es (new_base_agent name schedule)) in
      (s.run_count ≡ pos (count is_run es))
      × (s.error_count ≡ pos (count is_error es))
      × (s.alert_count ≡ pos (count is_alert es))
      × (s.enabled ≡ enabled_by es)
      × (s.last_error ≡ error_by es)
unfolding status after step new_base_agent
status-after name schedule [] h = (refl, refl, refl, refl, refl)
status-after name schedule (e ∷ es) h = ground (
  arith,
  status-after name schedule es,
  inc-pos (count is_run es),
  inc-pos (count is_error es),
  inc-pos (count is_alert es),
  count-le-length is_run es,
  count-le-length is_error es,
  count-le-length is_alert es,
)
