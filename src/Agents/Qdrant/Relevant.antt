-- ===== src/Agents/Qdrant/Relevant.antt =====
-- The similar decisions that a run of runtime/agents/qdrant_agent.go leaves.
use jarvinx.Shared.{
  if◌then◌else◌, map, ℕ, ◌≡◌, refl, ap, ◌∙◌, Bool, true, false, List, [], ◌∷◌, Option, none, some,
  ◌⊎◌, inl, inr, ◌==◌, ==_iff, length, Bool-cases, Option-cases,
}
use mathlib.Core.Path.{subst}
use jarvinx.Shared.Int.{pos}
use jarvinx.Shared.Clock.{Time}
use jarvinx.Shared.Float.{Float64}
use jarvinx.Shared.Text.{Text}
use jarvinx.Memory.Records.{Snapshot, CycleRecord}
use jarvinx.Memory.Store.{Store}
use jarvinx.Llm.Breaker
use jarvinx.Llm.Context.{Format}
use jarvinx.Llm.Embedder.{
  Exchange, not_encoded, not_made, unanswered, answered, Call, EmbedError, OllamaEmbedder, embed,
}
use jarvinx.Agents.Qdrant.{
  QdrantRequest, QdrantError, SearchHit, Similar, QdrantAgent, Calls, search_points, ok_answer,
  told, guarded, stored, on_vector, readied, ensure_collection, unless_ready,
  ensure_collection_once, upsert, decision_text,
}
use jarvinx.Agents.Qdrant.Search.{
  similar_of, text_or, number_or, is_low, if_ready, similar_to, decode_hits, hits_of, search,
  keep_similar, on_query, query_text, store_decision, update_similar_decisions, finished, run,
}

module _ {F S : Type 0} where
  told-last_similar :
      {A : Type 0} (refused : Option Breaker.Error) (failed_at : Time)
      (outcome : (QdrantError × Bool) ⊎ A) (a : QdrantAgent F S)
      → (told refused failed_at outcome a).0.last_similar ≡ a.last_similar
  unfolding told
  told-last_similar (some error) failed_at outcome a = refl
  told-last_similar none failed_at outcome a = refl

  ensure_collection-last_similar :
      (call : Call (QdrantRequest F S)) (dim : ℕ) (a : QdrantAgent F S)
      → (ensure_collection call dim a).0.last_similar ≡ a.last_similar
  unfolding ensure_collection guarded
  ensure_collection-last_similar call dim a = told-last_similar _ _ _ _

  readied-last_similar :
      (r : QdrantAgent F S × (QdrantError ⊎ Unit {0}))
      → (readied r).0.last_similar ≡ r.0.last_similar
  unfolding readied
  readied-last_similar (a, inl error) = refl
  readied-last_similar (a, inr done) = refl

  unless_ready-last_similar :
      (ready : Bool) (call : Call (QdrantRequest F S)) (dim : ℕ) (a : QdrantAgent F S)
      → (unless_ready ready call dim a).0.last_similar ≡ a.last_similar
  unfolding unless_ready
  unless_ready-last_similar true call dim a = refl
  unless_ready-last_similar false call dim a =
      readied-last_similar (ensure_collection call dim a)
      ∙ ensure_collection-last_similar call dim a

  stored-last_similar :
      (calls : Calls F S) (c : CycleRecord F) (vector : List S)
      (r : QdrantAgent F S × (QdrantError ⊎ Unit {0}))
      → (stored calls c vector r).last_similar ≡ r.0.last_similar
  unfolding stored upsert guarded
  stored-last_similar calls c vector (a, inl error) = refl
  stored-last_similar calls c vector (a, inr done) = told-last_similar _ _ _ _

  on_vector-last_similar :
      (calls : Calls F S) (c : CycleRecord F) (a : QdrantAgent F S)
      (r : OllamaEmbedder × (EmbedError ⊎ List S))
      → (on_vector calls c a r).last_similar ≡ a.last_similar
  unfolding on_vector ensure_collection_once
  on_vector-last_similar calls c a (embedder, inl error) = refl
  on_vector-last_similar calls c a (embedder, inr vector) =
      let a' = record a { embedder = embedder } in
      stored-last_similar calls c vector
        (unless_ready a.coll_ready calls.collection (length vector) a')
      ∙ unless_ready-last_similar a.coll_ready calls.collection (length vector) a'

abbrev or_empty : Option Text → Text
or_empty none = []
or_empty (some t) = t

text_or-or_empty : (t : Option Text) → text_or t ≡ or_empty t
unfolding text_or
text_or-or_empty none = refl
text_or-or_empty (some t) = refl

module _ {F : Type 0} ⦃fl : Float64 F⦄ where
  abbrev or_zero : Option F → F
  or_zero none = fl.decimal 0 0
  or_zero (some x) = x

  number_or-or_zero : (x : Option F) → number_or x ≡ or_zero x
  unfolding number_or
  number_or-or_zero none = refl
  number_or-or_zero (some x) = refl

module _ {F S : Type 0} ⦃fl : Float64 F⦄ ⦃fs : Float64 S⦄ where
  -- The hits whose score is not below 0.6, in their order.
  abbrev pub scored : List (SearchHit F S) → List (SearchHit F S)
  scored [] = []
  scored (hit ∷ hits) =
      let rest = scored hits in if fs.lt hit.score (fs.decimal 6 1) then rest else hit ∷ rest

  -- What is shown of a hit: a text that is missing is empty, and a confidence is 0.
  abbrev pub shown : SearchHit F S → Similar F S
  shown hit = record {
    action = or_empty hit.action;
    analysis = or_empty hit.analysis;
    reason = or_empty hit.reason;
    score = hit.score;
    confidence = or_zero hit.confidence;
  }

  abbrev pub relevant : List (SearchHit F S) → List (Similar F S)
  relevant hits = map shown (scored hits)

  shown-similar_of : (hit : SearchHit F S) → similar_of hit ≡ shown hit
  unfolding similar_of
  shown-similar_of hit =
      rw
        (
          text_or-or_empty hit.action,
          text_or-or_empty hit.analysis,
          text_or-or_empty hit.reason,
          number_or-or_zero hit.confidence,
        )
        refl

  pub similar_to-relevant : (hits : List (SearchHit F S)) → similar_to hits ≡ relevant hits
  unfolding similar_to is_low
  similar_to-relevant [] = refl
  similar_to-relevant (hit ∷ hits) = elim (Bool-cases (fs.lt hit.score (fs.decimal 6 1))) [
    | inl low ↦ rw low (similar_to-relevant hits)
    | inr high ↦ rw (high, similar_to-relevant hits, shown-similar_of hit) refl
  ]

module _ {F S : Type 0} ⦃fl : Float64 F⦄ ⦃fs : Float64 S⦄
    (decode : Text → Option (List (SearchHit F S))) where
  -- Some list is the similar decisions of the hits in an answer with status 200.
  abbrev pub IsOf : Exchange → List (Similar F S) → Type 0
  IsOf exchange similar =
      (body : Text) × (hits : List (SearchHit F S)) × (exchange ≡ answered 200 (some body))
      × (decode body ≡ some hits)
      × (similar ≡ relevant hits)

  abbrev IsOfOutcome : {E : Type 0} → Exchange → E ⊎ List (SearchHit F S) → Type 0
  IsOfOutcome exchange (inl error) = Unit
  IsOfOutcome exchange (inr hits) = IsOf exchange (similar_to hits)

  hits_of-IsOf : (exchange : Exchange) → IsOfOutcome exchange (hits_of decode exchange)
  unfolding hits_of ok_answer decode_hits
  hits_of-IsOf not_encoded = tt
  hits_of-IsOf not_made = tt
  hits_of-IsOf unanswered = tt
  hits_of-IsOf (answered status none) = elim (Bool-cases (status == 200)) [
    | inl ok ↦ rw (ok, IsOfOutcome) tt
    | inr other ↦ rw (other, IsOfOutcome) tt
  ]
  hits_of-IsOf (answered status (some body)) = elim (Bool-cases (status == 200)) [
    | inl ok ↦ elim (Option-cases (decode body)) [
      | inl garbled ↦ rw (ok, IsOfOutcome, garbled) tt
      | inr (hits, decoded) ↦
          rw (ok, IsOfOutcome, decoded)
            (
              body,
              hits,
              ap (λ s. answered s (some body)) ((==_iff status 200).0 ok),
              decoded,
              similar_to-relevant hits,
            )
    ]
    | inr other ↦ rw (other, IsOfOutcome) tt
  ]

  -- What a run may leave: the similar decisions that were there, or those of an answer to a request of
  -- the search.
  abbrev pub IsKeptOrFound :
      (QdrantRequest F S → Exchange) → List (Similar F S) → List (Similar F S) → Type 0
  IsKeptOrFound net before after =
      (after ≡ before) ⊎ ((request : QdrantRequest F S) × IsOf (net request) after)

  told-IsKeptOrFound :
      (refused : Option Breaker.Error) (failed_at : Time) (net : QdrantRequest F S → Exchange)
      (request : QdrantRequest F S) (outcome : (QdrantError × Bool) ⊎ List (SearchHit F S))
      (a : QdrantAgent F S)
      → IsOfOutcome (net request) outcome
      → let (a', answer) = told refused failed_at outcome a in
        IsKeptOrFound net a.last_similar
          (keep_similar (
            a',
            elim answer [ inl error ↦ inl error | inr hits ↦ inr (similar_to hits) ],
          )).last_similar
  unfolding told keep_similar
  told-IsKeptOrFound (some error) failed_at net request outcome a sound = inl refl
  told-IsKeptOrFound none failed_at net request (inl error) a sound = inl refl
  told-IsKeptOrFound none failed_at net request (inr hits) a sound = inr (request, sound)

  on_query-IsKeptOrFound :
      (calls : Calls F S) (a : QdrantAgent F S) (r : OllamaEmbedder × (EmbedError ⊎ List S))
      → IsKeptOrFound calls.search.net a.last_similar (on_query decode calls a r).last_similar
  unfolding on_query search guarded
  on_query-IsKeptOrFound calls a (embedder, inl error) = inl refl
  on_query-IsKeptOrFound calls a (embedder, inr query) =
      let request = search_points a.qdrant_url query 3 in
      let (circuit, refused) = Breaker.allow calls.search.asked_at a.qdrant_circuit in
      told-IsKeptOrFound refused calls.search.failed_at calls.search.net request
        (hits_of decode (calls.search.net request))
        (record a { embedder = embedder; qdrant_circuit = circuit })
        (hits_of-IsOf (calls.search.net request))

  module _ (vector : Text → Option (List S)) (fmt : Format F) where
    if_ready-IsKeptOrFound :
        (ready : Bool) (calls : Calls F S) (snap : Snapshot F) (a : QdrantAgent F S)
        → IsKeptOrFound calls.search.net a.last_similar
            (if_ready decode vector fmt ready calls snap a).last_similar
    unfolding if_ready
    if_ready-IsKeptOrFound true calls snap a =
        on_query-IsKeptOrFound calls a
          (embed vector calls.embed_snapshot (query_text decode vector fmt snap) a.embedder)
    if_ready-IsKeptOrFound false calls snap a = inl refl

    store_decision-last_similar :
        (calls : Calls F S) (cycles : List (CycleRecord F)) (a : QdrantAgent F S)
        → (store_decision decode vector fmt calls cycles a).last_similar ≡ a.last_similar
    unfolding store_decision
    store_decision-last_similar calls [] a = refl
    store_decision-last_similar calls (last ∷ cycles) a =
        on_vector-last_similar calls last a
          (embed vector calls.embed_decision (decision_text last) a.embedder)

    -- A run that LastCycles does not crash ends, and whatever fails the agent then has either the similar
    -- decisions that it had before, or those of the hits in an answer to its search that has status 200
    -- and decodes: one for each hit whose score is not below 0.6, in their order, with the fields of the
    -- hit, a missing text being empty and a missing confidence 0.
    pub run-IsKeptOrFound :
        {St : Type 0} (store : Store F St) (state : St) (calls : Calls F S) (snap : Snapshot F)
        (now : Time) (a : QdrantAgent F S) (cycles : List (CycleRecord F))
        → store.last_cycles (pos 1) state ≡ some cycles
        → (a' : QdrantAgent F S) × (run decode vector fmt store state calls snap now a ≡ some a')
          × IsKeptOrFound calls.search.net a.last_similar a'.last_similar
    unfolding run update_similar_decisions finished
    run-IsKeptOrFound store state calls snap now a cycles read =
        let stored' = store_decision decode vector fmt calls cycles a in
        let asked' = update_similar_decisions decode vector fmt calls snap stored' in
        (
          finished decode vector fmt now asked',
          rw (run, read) refl,
          subst (λ before. IsKeptOrFound calls.search.net before asked'.last_similar)
              (store_decision-last_similar calls cycles a)
              (if_ready-IsKeptOrFound stored'.coll_ready calls snap stored'),
        )
