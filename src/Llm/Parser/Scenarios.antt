-- ===== src/Llm/Parser/Scenarios.antt =====
-- Runs of runtime/llm/parser.go, on numbers of thousandths.
use jarvinx.Shared.{ℕ, ◌≡◌, ◌≢◌, refl, [], ◌∷◌, ◌++◌, none, inl, inr, if◌then◌else◌}
use jarvinx.Shared.Float.{thousandths}
use jarvinx.Shared.Text.{codes, text_eq}
use jarvinx.Llm.Parser.{
  Decision, Decoder, parse_decision, parse_and_validate, find_objects, fallback_decision,
  clean_llm_output,
}
use jarvinx.Llm.Parser.Safe.{IsSafe, parse_decision-IsSafe}
use jarvinx.Llm.Parser.Clean.{braced, parse_decision-braced}

abbrev proposal : ℕ → Decision ℕ
proposal confidence = record {
  analysis = codes "busy";
  action = codes " Execute";
  command = codes "uptime";
  reason = [];
  confidence = confidence;
}

-- A decoder that reads two objects.
abbrev two_objects : Decoder ℕ
two_objects = record {
  decode_map = λ s. text_eq s (codes "{sure}");
  decode_decision = λ s.
      if text_eq s (codes "{sure}")
      then inr (proposal 900)
      else if text_eq s (codes "{unsure}")
      then inr (proposal 500)
      else inl (codes "syntax");
  unicode_lower = λ c. c;
}

abbrev kept : Decision ℕ
kept = record (proposal 900) { action = codes "execute" }

finds_inner : find_objects none (codes "{a{b}c} {d") ≡ codes "{b}" ∷ []
unfolding find_objects
finds_inner = refl

fenced : clean_llm_output (codes "```json\n{x} \n```") ≡ codes "{x}"
unfolding clean_llm_output
fenced = refl

downgrades :
    (parse_decision two_objects (codes "{unsure}")).0
    ≡ record (proposal 500) { action = codes "suggest"; command = [] }
unfolding parse_decision
downgrades = refl

sure_is_valid : parse_and_validate two_objects (codes "{sure}") ≡ inr kept
unfolding parse_and_validate
sure_is_valid = refl

parse_decision-IsSafe_example :
    IsSafe (parse_decision two_objects (codes "I do not know")).0
    × ((parse_decision two_objects (codes "I do not know")).1 ≢ none
        → (parse_decision two_objects (codes "I do not know")).0
          ≡ fallback_decision (codes "I do not know"))
parse_decision-IsSafe_example = parse_decision-IsSafe two_objects (codes "I do not know")

parse_decision-braced_example :
    parse_decision two_objects (codes "So: " ++ (braced (codes "sure") ++ codes " ok"))
    ≡ (kept, none)
parse_decision-braced_example =
    parse_decision-braced two_objects (codes "So: ") (codes "sure") (codes " ok")
      (refl, (refl, (refl, (refl, tt)))) (refl, (refl, (refl, tt))) sure_is_valid
