-- ===== src/Llm/Ollama/Scenarios.antt =====
-- Runs of ThinkWithDecision of runtime/llm/ollama.go, on numbers of thousandths.
use jarvinx.Shared.{ℕ, ◌*◌, ◌≡◌, refl, none, some, inl, inr, arith, leb}
use jarvinx.Shared.Int.{pos}
use jarvinx.Shared.Clock.{second}
use jarvinx.Shared.Float.{thousandths}
use jarvinx.Shared.Text.{codes}
use jarvinx.Llm.Breaker.{state_open, new_circuit_breaker}
use jarvinx.Llm.Parser.{Decoder, fallback_decision}
use jarvinx.Llm.Chat.{OllamaClient, unanswered, answered, ollama_request, think}
use jarvinx.Llm.Ollama.{Surroundings, Answer, default_retry_config, think_with_decision}
use jarvinx.Llm.Ollama.Retry.{IsSound, think_with_decision-IsSound}
use jarvinx.Llm.Ollama.Outage.{IsDown, think_with_decision-trips}

abbrev no_json : Decoder ℕ
no_json = record {
  decode_map = λ s. leb 99 0;
  decode_decision = λ s. inl (codes "syntax");
  unicode_lower = λ c. c;
}

abbrev down : Surroundings
down = record {
  cancelled = λ i. none;
  net = λ i r. unanswered (codes "connection refused");
  clock = λ i. i * second;
  draw = λ i n. 0;
  decode_response = inr;
}

-- The server talks, but not in JSON.
abbrev chatty : Surroundings
chatty = record down { net = λ i r. answered 200 (inr (codes "Hello")) }

abbrev client : OllamaClient
client = record {
  base_url = codes "http://localhost:11434";
  model = codes "llama3";
  circuit = new_circuit_breaker (pos 3) (30 * second);
}

is_down : IsDown down client (codes "s") (codes "u")
unfolding think
is_down i = (refl, ollama_request (codes "connection refused"), refl)

think_with_decision-trips_example :
    (a : Answer ℕ) × (think_with_decision no_json down client
        (codes "s")
        (codes "u")
        default_retry_config
      ≡ some a)
    × (a.decision ≡ fallback_decision (codes "all attempts failed"))
    × (a.attempts ≡ pos 3)
    × (a.circuit.state ≡ state_open)
think_with_decision-trips_example =
    think_with_decision-trips no_json down client (codes "s") (codes "u") default_retry_config 3
      (30 * second) 3 (omega arith) (omega arith) refl refl (inr (omega arith)) is_down

think_with_decision-IsSound_example :
    (a : Answer ℕ) × (think_with_decision no_json chatty client
        (codes "s")
        (codes "u")
        default_retry_config
      ≡ some a)
    × IsSound a
think_with_decision-IsSound_example =
    think_with_decision-IsSound no_json chatty client (codes "s") (codes "u") default_retry_config
      (inr (omega arith))
