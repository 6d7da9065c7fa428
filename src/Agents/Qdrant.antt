-- ===== src/Agents/Qdrant.antt =====
-- runtime/agents/qdrant_agent.go. The answers to the requests are parameters, and so is encoding/json.
-- `S` is the type of float32; the search and a run stand in Search. What is only logged is not kept. A
-- request whose body cannot fail to be encoded is never `not_encoded`.
pub mod Search
pub mod Relevant
pub mod Found
mod Scenarios
use jarvinx.Shared.{
  ℕ, ◌*◌, Bool, true, false, List, [], ◌∷◌, ◌++◌, map, Option, none, some, ◌⊎◌, inl, inr, ◌==◌,
  if◌then◌else◌, length,
}
use jarvinx.Shared.Int.{ℤ, pos}
use jarvinx.Shared.Clock.{Time, second}
use jarvinx.Shared.Float.{Float64}
use jarvinx.Shared.Text.{Text, codes}
use jarvinx.Memory.Records.{Snapshot, CycleRecord}
use jarvinx.Memory.Store.{Store}
use jarvinx.Llm.Breaker
use jarvinx.Llm.Breaker.{CircuitBreaker, default_circuit_breaker}
use jarvinx.Llm.Context.{Format}
use jarvinx.Llm.Embedder.{
  Exchange, not_encoded, not_made, unanswered, answered, Call, EmbedRequest, EmbedError,
  OllamaEmbedder, new_ollama_embedder, embed,
}
use jarvinx.Agents.Base
use jarvinx.Agents.Base.{BaseAgent}

-- What is stored with a decision.
pub record Payload (F : Type 0) : Type 0 where
  pub action : Text
  pub analysis : Text
  pub reason : Text
  pub confidence : F
  pub cycle_num : ℤ
  pub instance_id : Text
  pub trigger_cpu : F
  pub trigger_ram : F
  pub trigger_disk : F
  pub timestamp : Time

-- The identifier is kept as what it is hashed from.
pub record Point (F S : Type 0) : Type 0 where
  pub id : Text × ℤ
  pub vector : List S
  pub payload : Payload F

-- The requests, each with the address of the server.
pub data QdrantRequest (F S : Type 0) : Type 0 where
  check_collection : Text → QdrantRequest F S
  create_collection : Text → ℕ → QdrantRequest F S
  put_point : Text → Point F S → QdrantRequest F S
  search_points : Text → List S → ℕ → QdrantRequest F S

pub data QdrantError : Type 0 where
  qdrant_refused : Breaker.Error → QdrantError
  qdrant_not_encoded qdrant_not_made qdrant_unanswered qdrant_undecoded : QdrantError
  qdrant_status : ℕ → QdrantError

-- A hit of a search; a field of its payload is there if it has the right type.
pub record SearchHit (F S : Type 0) : Type 0 where
  pub score : S
  pub action : Option Text
  pub analysis : Option Text
  pub reason : Option Text
  pub confidence : Option F

-- What the text on a similar decision is formatted from.
pub record Similar (F S : Type 0) : Type 0 where
  pub action : Text
  pub analysis : Text
  pub reason : Text
  pub score : S
  pub confidence : F

pub record QdrantAgent (F S : Type 0) : Type 0 where
  pub base : BaseAgent
  pub qdrant_url : Text
  pub embedder : OllamaEmbedder
  pub qdrant_circuit : CircuitBreaker
  pub instance_id : Text
  pub coll_ready : Bool
  pub last_similar : List (Similar F S)

-- The calls of a run, in their order.
pub record Calls (F S : Type 0) : Type 0 where
  pub embed_decision : Call EmbedRequest
  pub collection : Call (QdrantRequest F S)
  pub put : Call (QdrantRequest F S)
  pub embed_snapshot : Call EmbedRequest
  pub search : Call (QdrantRequest F S)

unfoldable pub new_qdrant_agent : {F S : Type 0} → Text → Text → Text → Text → QdrantAgent F S
unfolding Base.new_base_agent new_ollama_embedder default_circuit_breaker
new_qdrant_agent qdrant_url ollama_url embed_model instance_id = record {
  base = Base.new_base_agent (codes "qdrant") (15 * second);
  qdrant_url = qdrant_url;
  embedder = new_ollama_embedder ollama_url embed_model;
  qdrant_circuit = default_circuit_breaker;
  instance_id = instance_id;
  coll_ready = false;
  last_similar = [];
}

-- The answer, or the error and whether the breaker is told of it.
unfoldable pub answer_of : Exchange → (QdrantError × Bool) ⊎ (ℕ × Option Text)
answer_of not_encoded = inl (qdrant_not_encoded, false)
answer_of not_made = inl (qdrant_not_made, false)
answer_of unanswered = inl (qdrant_unanswered, true)
answer_of (answered status body) = inr (status, body)

-- The answer if its status is 200.
unfoldable pub ok_answer : Exchange → (QdrantError × Bool) ⊎ Option Text
unfolding answer_of
ok_answer exchange = elim (answer_of exchange) [
  | inl error ↦ inl error
  | inr (status, body) ↦ if status == 200 then inr body else inl (qdrant_status status, true)
]

-- The breaker after an outcome.
unfoldable pub tell :
    {A : Type 0} → Time → (QdrantError × Bool) ⊎ A → CircuitBreaker → CircuitBreaker
unfolding Breaker.record_failure Breaker.record_success
tell failed_at (inl (error, false)) cb = cb
tell failed_at (inl (error, true)) cb = Breaker.record_failure failed_at cb
tell failed_at (inr a) cb = Breaker.record_success cb

-- The text of a decision that is embedded.
unfoldable pub decision_text : {F : Type 0} → CycleRecord F → Text
decision_text c = codes "[" ++ c.action ++ codes "] " ++ c.analysis ++ codes ". " ++ c.reason

module _ {F S : Type 0} where
  unfoldable pub told :
      {A : Type 0}
      → Option Breaker.Error
      → Time
      → (QdrantError × Bool) ⊎ A
      → QdrantAgent F S
      → QdrantAgent F S × (QdrantError ⊎ A)
  unfolding tell
  told (some error) failed_at outcome a = (a, inl (qdrant_refused error))
  told none failed_at outcome a = (
    record a { qdrant_circuit = tell failed_at outcome a.qdrant_circuit },
    elim outcome [ inl error ↦ inl error.0 | inr x ↦ inr x ],
  )

  -- A call that the breaker guards: its requests are sent if the breaker allows it, and it is told.
  unfoldable pub guarded :
      {A : Type 0}
      → Call (QdrantRequest F S)
      → ((QdrantRequest F S → Exchange) → (QdrantError × Bool) ⊎ A)
      → QdrantAgent F S
      → QdrantAgent F S × (QdrantError ⊎ A)
  unfolding told Breaker.allow
  guarded call ask a =
      let (circuit, refused) = Breaker.allow call.asked_at a.qdrant_circuit in
      told refused call.failed_at (ask call.net) (record a { qdrant_circuit = circuit })

  -- The requests of ensureCollection.
  unfoldable pub created :
      Text → ℕ → (QdrantRequest F S → Exchange) → (QdrantError × Bool) ⊎ Unit {0}
  unfolding answer_of ok_answer
  created url dim net = elim (answer_of (net (check_collection url))) [
    | inl error ↦ inl error
    | inr (status, body) ↦
        if status == 200
        then inr tt
        else if status == 404
        then elim (ok_answer (net (create_collection url dim))) [
          | inl error ↦ inl error
          | inr body' ↦ inr tt
        ]
        else inl (qdrant_status status, true)
  ]

  unfoldable pub ensure_collection :
      Call (QdrantRequest F S) → ℕ → QdrantAgent F S → QdrantAgent F S × (QdrantError ⊎ Unit {0})
  unfolding guarded created
  ensure_collection call dim a = guarded call (created a.qdrant_url dim) a

  unfoldable pub readied :
      QdrantAgent F S × (QdrantError ⊎ Unit {0}) → QdrantAgent F S × (QdrantError ⊎ Unit {0})
  readied (a, inl error) = (a, inl error)
  readied (a, inr done) = (record a { coll_ready = true }, inr done)

  unfoldable pub unless_ready :
      Bool
      → Call (QdrantRequest F S)
      → ℕ
      → QdrantAgent F S
      → QdrantAgent F S × (QdrantError ⊎ Unit {0})
  unfolding ensure_collection readied
  unless_ready true call dim a = (a, inr tt)
  unless_ready false call dim a = readied (ensure_collection call dim a)

  unfoldable pub ensure_collection_once :
      Call (QdrantRequest F S) → ℕ → QdrantAgent F S → QdrantAgent F S × (QdrantError ⊎ Unit {0})
  unfolding unless_ready
  ensure_collection_once call dim a = unless_ready a.coll_ready call dim a

  unfoldable pub point_of : Text → CycleRecord F → List S → Point F S
  point_of instance_id c vector = record {
    id = (instance_id, c.cycle_num);
    vector = vector;
    payload = record {
      action = c.action;
      analysis = c.analysis;
      reason = c.reason;
      confidence = c.confidence;
      cycle_num = c.cycle_num;
      instance_id = instance_id;
      trigger_cpu = c.trigger_cpu;
      trigger_ram = c.trigger_ram;
      trigger_disk = c.trigger_disk;
      timestamp = c.timestamp;
    };
  }

  unfoldable pub upsert :
      Call (QdrantRequest F S)
      → CycleRecord F
      → List S
      → QdrantAgent F S
      → QdrantAgent F S × (QdrantError ⊎ Option Text)
  unfolding guarded ok_answer point_of
  upsert call c vector a =
      guarded call
        (λ net. ok_answer (net (put_point a.qdrant_url (point_of a.instance_id c vector)))) a

  unfoldable pub stored :
      Calls F S
      → CycleRecord F
      → List S
      → QdrantAgent F S × (QdrantError ⊎ Unit {0})
      → QdrantAgent F S
  unfolding upsert
  stored calls c vector (a, inl error) = a
  stored calls c vector (a, inr done) = (upsert calls.put c vector a).0

  unfoldable pub on_vector :
      Calls F S
      → CycleRecord F
      → QdrantAgent F S
      → OllamaEmbedder × (EmbedError ⊎ List S)
      → QdrantAgent F S
  unfolding stored ensure_collection_once
  on_vector calls c a (embedder, inl error) = record a { embedder = embedder }
  on_vector calls c a (embedder, inr vector) =
      stored calls c vector
        (ensure_collection_once calls.collection (length vector) (record a { embedder = embedder }))
