-- ===== src/Llm/Embedder.antt =====
-- runtime/llm/embedder.go. The answer to a request is a parameter, and so is encoding/json. `S` is the
-- type of float32.
use jarvinx.Shared.{
  ℕ, Bool, true, false, List, [], ◌∷◌, ◌++◌, Option, none, some, ◌⊎◌, inl, inr, ◌==◌, if◌then◌else◌,
}
use jarvinx.Shared.Clock.{Time}
use jarvinx.Shared.Text.{Text, codes}
use jarvinx.Llm.Breaker
use jarvinx.Llm.Breaker.{CircuitBreaker, default_circuit_breaker}

-- What became of a request: its body could not be encoded, it could not be made, it was not answered, or
-- it was, with a status and a body, which may fail to be read.
pub data Exchange : Type 0 where
  not_encoded : Exchange
  not_made : Exchange
  unanswered : Exchange
  answered : ℕ → Option Text → Exchange

-- A call: when the breaker is asked, when a failure is recorded, and what becomes of a request.
pub record Call (R : Type 0) : Type 0 where
  pub asked_at : Time
  pub failed_at : Time
  pub net : R → Exchange

pub record EmbedRequest : Type 0 where
  pub url : Text
  pub model : Text
  pub prompt : Text

pub record OllamaEmbedder : Type 0 where
  pub base_url : Text
  pub model : Text
  pub circuit : CircuitBreaker

unfoldable pub new_ollama_embedder : Text → Text → OllamaEmbedder
unfolding default_circuit_breaker
new_ollama_embedder base_url model = record {
  base_url = base_url;
  model = model;
  circuit = default_circuit_breaker;
}

pub data EmbedError : Type 0 where
  embed_refused : Breaker.Error → EmbedError
  embed_not_encoded embed_not_made embed_unanswered : EmbedError
  embed_status : ℕ → EmbedError
  embed_unread embed_undecoded embed_empty : EmbedError

module _ {S : Type 0} where
  unfoldable pub vector_of : Option (List S) → EmbedError ⊎ List S
  vector_of none = inl embed_undecoded
  vector_of (some []) = inl embed_empty
  vector_of (some (x ∷ xs)) = inr (x ∷ xs)

  unfoldable pub read_vector : (Text → Option (List S)) → Option Text → EmbedError ⊎ List S
  unfolding vector_of
  read_vector decode none = inl embed_unread
  read_vector decode (some raw) = vector_of (decode raw)

  -- What an exchange gives, and whether the error is one that the breaker is told.
  unfoldable pub heard : (Text → Option (List S)) → Exchange → (EmbedError × Bool) ⊎ List S
  unfolding read_vector
  heard decode not_encoded = inl (embed_not_encoded, false)
  heard decode not_made = inl (embed_not_made, false)
  heard decode unanswered = inl (embed_unanswered, true)
  heard decode (answered status body) =
      if status == 200
      then elim (read_vector decode body) [ inl error ↦ inl (error, true) | inr v ↦ inr v ]
      else inl (embed_status status, true)

  unfoldable pub told :
      Time → OllamaEmbedder → (EmbedError × Bool) ⊎ List S → OllamaEmbedder × (EmbedError ⊎ List S)
  unfolding Breaker.record_failure Breaker.record_success
  told failed_at e (inl (error, false)) = (e, inl error)
  told failed_at e (inl (error, true)) =
      (record e { circuit = Breaker.record_failure failed_at e.circuit }, inl error)
  told failed_at e (inr v) = (record e { circuit = Breaker.record_success e.circuit }, inr v)

  unfoldable pub asked :
      (Text → Option (List S))
      → Call EmbedRequest
      → Text
      → OllamaEmbedder
      → Option Breaker.Error
      → OllamaEmbedder × (EmbedError ⊎ List S)
  unfolding heard told
  asked decode call text e (some error) = (e, inl (embed_refused error))
  asked decode call text e none = told call.failed_at e (
      heard decode (
        call.net
          (record { url = e.base_url ++ codes "/api/embeddings"; model = e.model; prompt = text })))

  unfoldable pub embed :
      (Text → Option (List S))
      → Call EmbedRequest
      → Text
      → OllamaEmbedder
      → OllamaEmbedder × (EmbedError ⊎ List S)
  unfolding asked Breaker.allow
  embed decode call text e =
      let (circuit, refused) = Breaker.allow call.asked_at e.circuit in
      asked decode call text (record e { circuit = circuit }) refused
