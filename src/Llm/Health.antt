-- ===== src/Llm/Health.antt =====
-- runtime/llm/health.go. The answer to the request is a parameter, and `decode` is encoding/json: it
-- gives the names of the models. Display prints and is not modelled.
mod Online
use jarvinx.Shared.{
  ℕ, Bool, true, false, not, ◌||◌, List, [], ◌∷◌, ◌++◌, Option, none, some, ◌==◌, if◌then◌else◌,
}
use jarvinx.Shared.Text.{Text, codes, text_eq}

-- What the check found wrong; its text is formatted from this
-- and the address.
pub data HealthError : Type 0 where
  unreachable : HealthError
  answers_with : ℕ → HealthError
  invalid_answer : HealthError
  no_such_model : Text → List Text → HealthError

pub record HealthStatus : Type 0 where
  pub online : Bool
  pub version : Text
  pub models : List Text
  pub error : Option HealthError

-- No answer, or one with a status and a body.
pub data TagsAnswer : Type 0 where
  no_answer : TagsAnswer
  tags_answer : ℕ → Text → TagsAnswer

unfoldable pub offline : HealthError → HealthStatus
offline error = record { online = false; version = []; models = []; error = some error }

unfoldable pub has_model : Text → List Text → Bool
unfolding text_eq
has_model model [] = false
has_model model (m ∷ models) = text_eq m model || has_model model models

unfoldable pub listed : Text → Option (List Text) → HealthStatus
unfolding has_model offline
listed model none = offline invalid_answer
listed model (some models) = record {
  online = true;
  version = [];
  models = models;
  error = if has_model model models then none else some (no_such_model model models);
}

unfoldable pub check_answer : (Text → Option (List Text)) → Text → TagsAnswer → HealthStatus
unfolding listed offline
check_answer decode model no_answer = offline unreachable
check_answer decode model (tags_answer status body) =
    if status == 200 then listed model (decode body) else offline (answers_with status)

unfoldable pub check_ollama :
    (Text → Option (List Text)) → (Text → TagsAnswer) → Text → Text → HealthStatus
unfolding check_answer
check_ollama decode get base_url model =
    check_answer decode model (get (base_url ++ codes "/api/tags"))
