-- ===== src/Agents/Qdrant/Search.antt =====
-- The search for similar decisions and a run, of runtime/agents/qdrant_agent.go. `decode`
-- and `vector` are encoding/json.
use jarvinx.Shared.{
  ℕ, Bool, true, false, List, [], ◌∷◌, ◌++◌, Option, none, some, ◌⊎◌, inl, inr, if◌then◌else◌,
}
use jarvinx.Shared.Int.{pos}
use jarvinx.Shared.Clock.{Time}
use jarvinx.Shared.Float.{Float64}
use jarvinx.Shared.Text.{Text, codes}
use jarvinx.Memory.Records.{Snapshot, CycleRecord}
use jarvinx.Memory.Store.{Store}
use jarvinx.Llm.Context.{Format}
use jarvinx.Llm.Embedder.{Exchange, Call, EmbedError, OllamaEmbedder, embed}
use jarvinx.Agents.Base
use jarvinx.Agents.Base.{BaseAgent}
use jarvinx.Agents.Qdrant.{
  QdrantRequest, search_points, QdrantError, qdrant_undecoded, SearchHit, Similar, QdrantAgent,
  Calls, ok_answer, guarded, on_vector, decision_text,
}

unfoldable pub text_or : Option Text → Text
text_or none = []
text_or (some t) = t

module _ {F S : Type 0} where
  unfoldable pub keep_similar :
      QdrantAgent F S × (QdrantError ⊎ List (Similar F S)) → QdrantAgent F S
  keep_similar (a, inl error) = a
  keep_similar (a, inr similar) = record a { last_similar = similar }

unfoldable pub number_or : {F : Type 0} ⦃fl : Float64 F⦄ → Option F → F
number_or ⦃fl⦄ none = fl.decimal 0 0
number_or (some x) = x

module _ {S : Type 0} ⦃fs : Float64 S⦄ where
  -- hit.Score < minSimilarityScore, which is the float32 nearest to 0.6.
  unfoldable pub is_low : S → Bool
  is_low score = fs.lt score (fs.decimal 6 1)

module _ {F S : Type 0} ⦃fl : Float64 F⦄ ⦃fs : Float64 S⦄ where
  unfoldable pub similar_of : SearchHit F S → Similar F S
  unfolding text_or number_or
  similar_of hit = record {
    action = text_or hit.action;
    analysis = text_or hit.analysis;
    reason = text_or hit.reason;
    score = hit.score;
    confidence = number_or hit.confidence;
  }

  unfoldable pub similar_to : List (SearchHit F S) → List (Similar F S)
  unfolding similar_of is_low
  similar_to [] = []
  similar_to (hit ∷ hits) =
      let rest = similar_to hits in if is_low hit.score then rest else similar_of hit ∷ rest

  module _ (decode : Text → Option (List (SearchHit F S))) where
    unfoldable pub decode_hits : Option Text → (QdrantError × Bool) ⊎ List (SearchHit F S)
    decode_hits none = inl (qdrant_undecoded, true)
    decode_hits (some body) = elim (decode body) [
      | none ↦ inl (qdrant_undecoded, true)
      | some hits ↦ inr hits
    ]

    unfoldable pub hits_of : Exchange → (QdrantError × Bool) ⊎ List (SearchHit F S)
    unfolding ok_answer decode_hits
    hits_of exchange = elim (ok_answer exchange) [
      | inl error ↦ inl error
      | inr body ↦ decode_hits body
    ]

    unfoldable pub search :
        Call (QdrantRequest F S)
        → List S
        → ℕ
        → QdrantAgent F S
        → QdrantAgent F S × (QdrantError ⊎ List (Similar F S))
    unfolding guarded hits_of similar_to
    search call query k a =
        let (a', answer) =
          guarded call (λ net. hits_of (net (search_points a.qdrant_url query k))) a in
        (a', elim answer [ inl error ↦ inl error | inr hits ↦ inr (similar_to hits) ])

    unfoldable pub on_query :
        Calls F S → QdrantAgent F S → OllamaEmbedder × (EmbedError ⊎ List S) → QdrantAgent F S
    unfolding search keep_similar
    on_query calls a (embedder, inl error) = record a { embedder = embedder }
    on_query calls a (embedder, inr query) =
        keep_similar (search calls.search query 3 (record a { embedder = embedder }))

    module _ (vector : Text → Option (List S)) (fmt : Format F) where
      percent : F → Text
      percent x = fmt.fixed 1 x ++ codes "%"

      unfoldable pub query_text : Snapshot F → Text
      unfolding percent
      query_text snap =
          codes "[observe] CPU:"
          ++ percent snap.cpu_percent
          ++ codes " RAM:"
          ++ percent snap.mem_percent
          ++ codes " Disk:"
          ++ percent snap.disk_percent
          ++ codes "."

      unfoldable pub store_decision :
          Calls F S → List (CycleRecord F) → QdrantAgent F S → QdrantAgent F S
      unfolding on_vector embed decision_text
      store_decision calls [] a = a
      store_decision calls (last ∷ cycles) a =
          on_vector calls last a (embed vector calls.embed_decision (decision_text last) a.embedder)

      unfoldable pub if_ready : Bool → Calls F S → Snapshot F → QdrantAgent F S → QdrantAgent F S
      unfolding on_query embed query_text
      if_ready false calls snap a = a
      if_ready true calls snap a =
          on_query calls a (embed vector calls.embed_snapshot (query_text snap) a.embedder)

      unfoldable pub update_similar_decisions :
          Calls F S → Snapshot F → QdrantAgent F S → QdrantAgent F S
      unfolding if_ready
      update_similar_decisions calls snap a = if_ready a.coll_ready calls snap a

      unfoldable pub finished : Time → QdrantAgent F S → QdrantAgent F S
      unfolding Base.record_success
      finished now a = record a { base = Base.record_success now a.base }

      -- The agent after a run, on the cycles and the snapshot that it sees. `none`: LastCycles
      -- panicked.
      unfoldable pub run :
          {St : Type 0}
          → Store F St
          → St
          → Calls F S
          → Snapshot F
          → Time
          → QdrantAgent F S
          → Option (QdrantAgent F S)
      unfolding store_decision update_similar_decisions finished
      run store state calls snap now a = elim (store.last_cycles (pos 1) state) [
        | none ↦ none
        | some cycles ↦
            some
              (finished now (update_similar_decisions calls snap (store_decision calls cycles a)))
      ]
