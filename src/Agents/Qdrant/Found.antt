-- ===== src/Agents/Qdrant/Found.antt =====
-- A run of runtime/agents/qdrant_agent.go when both services answer.
use jarvinx.Shared.{
  ℕ, ◌≡◌, refl, ap, sym, ◌∙◌, Bool, true, false, List, ◌∷◌, Option, none, some, ◌⊎◌, inr, length,
  arith,
}
use mathlib.Core.Path.{subst}
use jarvinx.Shared.Int.{pos}
use jarvinx.Shared.Clock.{Time}
use jarvinx.Shared.Float.{Float64}
use jarvinx.Shared.Text.{Text}
use jarvinx.Memory.Records.{Snapshot, CycleRecord}
use jarvinx.Memory.Store.{Store}
use jarvinx.Llm.Breaker
use jarvinx.Llm.Breaker.{CircuitBreaker, CircuitState, state_closed, state_open, state_half_open}
use jarvinx.Llm.Context.{Format}
use jarvinx.Llm.Embedder
use jarvinx.Llm.Embedder.{
  Exchange, answered, Call, EmbedRequest, EmbedError, OllamaEmbedder, embed, asked, heard,
  read_vector, vector_of,
}
use jarvinx.Agents.Qdrant.{
  QdrantRequest, put_point, check_collection, search_points, point_of, QdrantError, SearchHit,
  QdrantAgent, Calls, ok_answer, answer_of, created, tell, told, guarded, stored, on_vector,
  readied, ensure_collection, unless_ready, ensure_collection_once, upsert, decision_text,
}
use jarvinx.Agents.Qdrant.Search.{
  decode_hits, hits_of, search, keep_similar, on_query, query_text, if_ready, store_decision,
  update_similar_decisions, finished, run,
}
use jarvinx.Agents.Qdrant.Relevant.{relevant, similar_to-relevant}

abbrev is_open : CircuitState → Bool
is_open state_open = true
is_open state_closed = false
is_open state_half_open = false

-- A breaker that lets calls through.
abbrev pub IsPassing : CircuitBreaker → Type 0
IsPassing cb = is_open cb.state ≡ false

allow-IsPassing :
    (now : Time) (cb : CircuitBreaker) → IsPassing cb → Breaker.allow now cb ≡ (cb, none)
unfolding Breaker.allow
allow-IsPassing now cb h = ground arith

record_success-IsPassing :
    (cb : CircuitBreaker) → IsPassing cb → IsPassing (Breaker.record_success cb)
unfolding Breaker.record_success
record_success-IsPassing cb h = ground arith

-- Every request of a call is answered with status 200 and this body.
abbrev pub IsAnswered : {R : Type 0} → Call R → Text → Type 0
IsAnswered {R} call body = (request : R) → call.net request ≡ answered 200 (some body)

module _ {S : Type 0} (vector : Text → Option (List S)) where
  heard-answered :
      (body : Text) (x : S) (xs : List S)
      → vector body ≡ some (x ∷ xs)
      → heard vector (answered 200 (some body)) ≡ inr (x ∷ xs)
  unfolding heard read_vector vector_of
  heard-answered body x xs e = rw e refl

  asked-answered :
      (call : Call EmbedRequest) (text body : Text) (x : S) (xs : List S) (e : OllamaEmbedder)
      → IsAnswered call body
      → vector body ≡ some (x ∷ xs)
      → asked vector call text e none
        ≡ (record e { circuit = Breaker.record_success e.circuit }, inr (x ∷ xs))
  unfolding asked Embedder.told
  asked-answered call text body x xs e answers decodes =
      rw (answers, heard-answered body x xs decodes) refl

  embed-answered :
      (call : Call EmbedRequest) (text body : Text) (x : S) (xs : List S) (e : OllamaEmbedder)
      → IsPassing e.circuit
      → IsAnswered call body
      → vector body ≡ some (x ∷ xs)
      → embed vector call text e
        ≡ (record e { circuit = Breaker.record_success e.circuit }, inr (x ∷ xs))
  unfolding embed
  embed-answered call text body x xs e passes answers decodes =
      rw (allow-IsPassing call.asked_at e.circuit passes)
        (asked-answered call text body x xs e answers decodes)

module _ {F S : Type 0} where
  guarded-answered :
      {A : Type 0} (call : Call (QdrantRequest F S))
      (ask : (QdrantRequest F S → Exchange) → (QdrantError × Bool) ⊎ A) (x : A)
      (a : QdrantAgent F S)
      → IsPassing a.qdrant_circuit
      → ask call.net ≡ inr x
      → guarded call ask a
        ≡ (record a { qdrant_circuit = Breaker.record_success a.qdrant_circuit }, inr x)
  unfolding guarded told tell
  guarded-answered call ask x a passes e =
      rw (allow-IsPassing call.asked_at a.qdrant_circuit passes, e) refl

  -- An agent whose calls pass.
  abbrev pub IsUsable : QdrantAgent F S → Type 0
  IsUsable a = IsPassing a.embedder.circuit × IsPassing a.qdrant_circuit

  -- An agent that has its collection as well.
  abbrev IsReady : QdrantAgent F S → Type 0
  IsReady a = IsUsable a × (a.coll_ready ≡ true)

  created-answered :
      (url : Text) (dim : ℕ) (net : QdrantRequest F S → Exchange) (body : Text)
      → ((request : QdrantRequest F S) → net request ≡ answered 200 (some body))
      → created url dim net ≡ inr tt
  unfolding created answer_of
  created-answered url dim net body answers = rw (created, answers (check_collection url)) refl

  unless_ready-answered :
      (ready : Bool) (call : Call (QdrantRequest F S)) (dim : ℕ) (body : Text) (a : QdrantAgent F S)
      → a.coll_ready ≡ ready
      → IsUsable a
      → IsAnswered call body
      → (b : QdrantAgent F S) × (unless_ready ready call dim a ≡ (b, inr tt)) × IsReady b
  unfolding unless_ready ensure_collection readied
  unless_ready-answered true call dim body a e (embeds, passes) answers =
      (a, refl, ((embeds, passes), e))
  unless_ready-answered false call dim body a e (embeds, passes) answers = (
    record a { qdrant_circuit = Breaker.record_success a.qdrant_circuit; coll_ready = true },
    rw
        (guarded-answered call (created a.qdrant_url dim) tt a passes
          (created-answered a.qdrant_url dim call.net body answers))
        refl,
    ((embeds, record_success-IsPassing a.qdrant_circuit passes), refl),
  )

  upsert-answered :
      (call : Call (QdrantRequest F S)) (c : CycleRecord F) (v : List S) (body : Text)
      (a : QdrantAgent F S)
      → IsReady a
      → IsAnswered call body
      → IsReady (upsert call c v a).0
  unfolding upsert ok_answer answer_of
  upsert-answered call c v body a ((embeds, passes), ready) answers =
      let request = put_point a.qdrant_url (point_of a.instance_id c v) in
      subst (λ r. IsReady r.0)
        (sym (
          guarded-answered call (λ net. ok_answer (net request)) (some body) a passes
            (ap ok_answer (answers request))))
        ((embeds, record_success-IsPassing a.qdrant_circuit passes), ready)

  on_vector-answered :
      (calls : Calls F S) (c : CycleRecord F) (v : List S) (b2 b3 : Text) (a : QdrantAgent F S)
      (embedder : OllamaEmbedder)
      → IsPassing embedder.circuit
      → IsPassing a.qdrant_circuit
      → IsAnswered calls.collection b2
      → IsAnswered calls.put b3
      → IsReady (on_vector calls c a (embedder, inr v))
  unfolding on_vector ensure_collection_once
  on_vector-answered calls c v b2 b3 a embedder embeds passes collects puts =
      let (b, settled, ready) =
        unless_ready-answered a.coll_ready calls.collection (length v) b2
          (record a { embedder = embedder }) refl (embeds, passes) collects in
      subst (λ r. IsReady (stored calls c v r)) (sym settled)
        (unfold stored in upsert-answered calls.put c v b3 b ready puts)

-- Both services answer every request of a run: these hits to the search, and some vectors.
pub record IsServed {F S : Type 0} (vector : Text → Option (List S))
    (decode : Text → Option (List (SearchHit F S))) (calls : Calls F S)
    (hits : List (SearchHit F S)) : Type 0 where
  pub decision :
      (body : Text) × (x : S) × (xs : List S) × IsAnswered calls.embed_decision body
      × (vector body ≡ some (x ∷ xs))
  pub collection : (body : Text) × IsAnswered calls.collection body
  pub put : (body : Text) × IsAnswered calls.put body
  pub snapshot :
      (body : Text) × (x : S) × (xs : List S) × IsAnswered calls.embed_snapshot body
      × (vector body ≡ some (x ∷ xs))
  pub search : (body : Text) × IsAnswered calls.search body × (decode body ≡ some hits)

module _ {F S : Type 0} ⦃fl : Float64 F⦄ ⦃fs : Float64 S⦄
    (decode : Text → Option (List (SearchHit F S))) (vector : Text → Option (List S))
    (fmt : Format F) where
  store_decision-served :
      (calls : Calls F S) (hits : List (SearchHit F S)) (c : CycleRecord F)
      (cs : List (CycleRecord F)) (a : QdrantAgent F S)
      → IsServed vector decode calls hits
      → IsUsable a
      → IsReady (store_decision decode vector fmt calls (c ∷ cs) a)
  unfolding store_decision
  store_decision-served calls hits c cs a served (embeds, passes) =
      let (body, x, xs, answers, decodes) = served.decision in
      let (b2, collects) = served.collection in
      let (b3, puts) = served.put in
      subst (λ r. IsReady (on_vector calls c a r))
        (sym (
          embed-answered vector calls.embed_decision (decision_text c) body x xs a.embedder embeds
            answers decodes))
        (on_vector-answered calls c (x ∷ xs) b2 b3 a
          (record a.embedder { circuit = Breaker.record_success a.embedder.circuit })
          (record_success-IsPassing a.embedder.circuit embeds) passes collects puts)

  hits_of-answered :
      (body : Text) (hits : List (SearchHit F S))
      → decode body ≡ some hits
      → hits_of decode (answered 200 (some body)) ≡ inr hits
  unfolding hits_of ok_answer answer_of decode_hits
  hits_of-answered body hits e = rw (hits_of, decode_hits, e) refl

  on_query-answered :
      (calls : Calls F S) (body : Text) (hits : List (SearchHit F S)) (query : List S)
      (a : QdrantAgent F S) (embedder : OllamaEmbedder)
      → IsPassing a.qdrant_circuit
      → IsAnswered calls.search body
      → decode body ≡ some hits
      → (on_query decode calls a (embedder, inr query)).last_similar ≡ relevant hits
  unfolding on_query search keep_similar
  on_query-answered calls body hits query a embedder passes answers decodes =
      let request = search_points a.qdrant_url query 3 in
      rw
        (guarded-answered calls.search (λ net. hits_of decode (net request)) hits
          (record a { embedder = embedder }) passes
          (ap (hits_of decode) (answers request) ∙ hits_of-answered body hits decodes))
        (similar_to-relevant hits)

  if_ready-answered :
      (ready : Bool) (calls : Calls F S) (hits : List (SearchHit F S)) (snap : Snapshot F)
      (a : QdrantAgent F S)
      → ready ≡ true
      → IsServed vector decode calls hits
      → IsUsable a
      → (if_ready decode vector fmt ready calls snap a).last_similar ≡ relevant hits
  unfolding if_ready
  if_ready-answered false calls hits snap a e served usable = absurd (ground arith)
  if_ready-answered true calls hits snap a e served (embeds, passes) =
      let (body, x, xs, answers, decodes) = served.snapshot in
      let (found, shows, decoded) = served.search in
      subst (λ r. (on_query decode calls a r).last_similar ≡ relevant hits)
        (sym (
          embed-answered vector calls.embed_snapshot (query_text decode vector fmt snap) body x xs
            a.embedder embeds answers decodes))
        (on_query-answered calls found hits (x ∷ xs) a
          (record a.embedder { circuit = Breaker.record_success a.embedder.circuit }) passes shows
          decoded)

  -- When there is a newest cycle, neither breaker of the agent is open and both services answer every
  -- request of the run, the run ends and leaves exactly the similar decisions of the hits that the
  -- search was answered with: one for each hit whose score is not below 0.6, in their order.
  pub run-finds :
      {St : Type 0} (store : Store F St) (state : St) (calls : Calls F S) (snap : Snapshot F)
      (now : Time) (a : QdrantAgent F S) (hits : List (SearchHit F S)) (c : CycleRecord F)
      (cs : List (CycleRecord F))
      → store.last_cycles (pos 1) state ≡ some (c ∷ cs)
      → IsUsable a
      → IsServed vector decode calls hits
      → (a' : QdrantAgent F S) × (run decode vector fmt store state calls snap now a ≡ some a')
        × (a'.last_similar ≡ relevant hits)
  unfolding run update_similar_decisions finished
  run-finds store state calls snap now a hits c cs read usable served =
      let stored' = store_decision decode vector fmt calls (c ∷ cs) a in
      let (usable', ready) = store_decision-served calls hits c cs a served usable in
      (
        finished decode vector fmt now
            (update_similar_decisions decode vector fmt calls snap stored'),
        rw (run, read) refl,
        if_ready-answered stored'.coll_ready calls hits snap stored' ready served usable',
      )
