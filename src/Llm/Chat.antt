-- ===== src/Llm/Chat.antt =====
-- Think of runtime/llm/ollama.go: one request to the language model.
use jarvinx.Shared.{ℕ, Bool, false, List, [], ◌∷◌, ◌++◌, ◌⊎◌, inl, inr, ◌==◌, if◌then◌else◌}
use jarvinx.Shared.Text.{Text, codes}
use jarvinx.Llm.Breaker
use jarvinx.Llm.Breaker.{CircuitBreaker}

pub record OllamaMessage : Type 0 where
  pub role : Text
  pub content : Text

pub record OllamaRequest : Type 0 where
  pub model : Text
  pub messages : List OllamaMessage
  pub stream : Bool

pub record OllamaClient : Type 0 where
  pub base_url : Text
  pub model : Text
  pub circuit : CircuitBreaker

unfoldable pub new_ollama_client : Text → Text → OllamaClient
unfolding Breaker.default_circuit_breaker
new_ollama_client base_url model = record {
  base_url = base_url;
  model = model;
  circuit = Breaker.default_circuit_breaker;
}

-- What became of a request: it could not be made, it got no response, or it got a status and a body,
-- whose reading can fail. Each error is its text.
pub data Exchange : Type 0 where
  unmade : Text → Exchange
  unanswered : Text → Exchange
  answered : ℕ → Text ⊎ Text → Exchange

pub data ThinkError : Type 0 where
  create_request : Text → ThinkError
  ollama_request : Text → ThinkError
  ollama_status : ℕ → ThinkError
  read_response : Text → ThinkError
  unmarshal_response : Text → ThinkError

-- Decoding the body of a response to the content of its message; the left side is the error.
abbrev pub ResponseDecoder : Type 0
ResponseDecoder = Text → Text ⊎ Text

content_of : Text ⊎ Text → ThinkError ⊎ Text
content_of (inl error) = inl (unmarshal_response error)
content_of (inr content) = inr content

body_of : ResponseDecoder → Text ⊎ Text → ThinkError ⊎ Text
unfolding content_of
body_of decode (inl error) = inl (read_response error)
body_of decode (inr raw) = content_of (decode raw)

answer_of : ResponseDecoder → Exchange → ThinkError ⊎ Text
unfolding body_of
answer_of decode (unmade error) = inl (create_request error)
answer_of decode (unanswered error) = inl (ollama_request error)
answer_of decode (answered status body) =
    if status == 200 then body_of decode body else inl (ollama_status status)

-- The URL and the payload of the request that Think posts.
unfoldable pub chat_request : OllamaClient → Text → Text → Text × OllamaRequest
chat_request c system user = (
  c.base_url ++ codes "/api/chat",
  record {
    model = c.model;
    messages =
        record { role = codes "system"; content = system }
        ∷ record { role = codes "user"; content = user }
        ∷ [];
    stream = false;
  },
)

unfoldable pub think :
    ResponseDecoder
    → (Text × OllamaRequest → Exchange)
    → OllamaClient
    → Text
    → Text
    → ThinkError ⊎ Text
unfolding answer_of chat_request
think decode net c system user = answer_of decode (net (chat_request c system user))
