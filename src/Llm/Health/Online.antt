-- ===== src/Llm/Health/Online.antt =====
-- When runtime/llm/health.go finds nothing wrong.
use jarvinx.Shared.{
  ◌≡◌, refl, true, false, ◌⊎◌, inl, inr, List, Option, none, some, ◌==◌, Bool-cases,
}
use jarvinx.Shared.Text.{Text}
use jarvinx.Llm.Health.{
  HealthError, unreachable, answers_with, invalid_answer, no_such_model, TagsAnswer, no_answer,
  tags_answer, HealthStatus, offline, has_model, listed, check_answer,
}

abbrev IsChecked : Text → HealthStatus → Type 0
IsChecked model h =
    ((h.error ≡ none) × (h.online ≡ true) × (has_model model h.models ≡ true))
    ⊎ ((error : HealthError) × (h.error ≡ some error) × (has_model model h.models ≡ false))

listed-IsChecked :
    (model : Text) (models : Option (List Text)) → IsChecked model (listed model models)
unfolding listed offline has_model
listed-IsChecked model none = inr (invalid_answer, refl, refl)
listed-IsChecked model (some models) = elim (Bool-cases (has_model model models)) [
  | inl has ↦ rw has (inl (refl, refl, refl))
  | inr lacks ↦ rw lacks (inr (no_such_model model models, refl, refl))
]

-- The check of an answer finds nothing wrong and says that the server is online and lists the model, or
-- it gives an error and lists no such model.
check_answer-IsChecked :
    (decode : Text → Option (List Text)) (model : Text) (answer : TagsAnswer)
    → IsChecked model (check_answer decode model answer)
unfolding check_answer offline has_model
check_answer-IsChecked decode model no_answer = inr (unreachable, refl, refl)
check_answer-IsChecked decode model (tags_answer status body) = elim (Bool-cases (status == 200)) [
  | inl ok ↦ rw (ok, IsChecked) (listed-IsChecked model (decode body))
  | inr other ↦ rw (other, IsChecked) (inr (answers_with status, refl, refl))
]
