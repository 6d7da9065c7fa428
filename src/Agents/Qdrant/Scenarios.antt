-- ===== src/Agents/Qdrant/Scenarios.antt =====
-- Runs of runtime/agents/qdrant_agent.go.
use jarvinx.Shared.{ℕ, ◌*◌, ◌≡◌, refl, true, [], ◌∷◌, none, some}
use jarvinx.Shared.Clock.{second}
use jarvinx.Shared.Float.{thousandths}
use jarvinx.Shared.Text.{codes}
use jarvinx.Memory.Records.{CycleRecord, loaded, new_cycle_record}
use jarvinx.Memory.Store.{Store, noop_store}
use jarvinx.Llm.Context.{Format}
use jarvinx.Llm.Breaker.{new_circuit_breaker, default_circuit_breaker}
use jarvinx.Llm.Embedder.{new_ollama_embedder, Exchange, unanswered, answered, Call}
use jarvinx.Agents.Qdrant.{SearchHit, QdrantAgent, Calls, new_qdrant_agent}
use jarvinx.Agents.Qdrant.Search.{run}
use jarvinx.Agents.Qdrant.Found.{run-finds}
use jarvinx.Agents.Qdrant.Relevant.{relevant, IsKeptOrFound, run-IsKeptOrFound}

abbrev plain : Format ℕ
plain = record { fixed = λ n x. []; int = λ n. []; float = λ n. n * 1000 }

abbrev hit : ℕ → SearchHit ℕ ℕ
hit score = record {
  score = score;
  action = some (codes "log");
  analysis = none;
  reason = none;
  confidence = some 900;
}

abbrev a_call : {R : Type 0} → Exchange → Call R
a_call exchange = record { asked_at = second; failed_at = second; net = λ request. exchange }

abbrev calls : Calls ℕ ℕ
calls = record {
  embed_decision = a_call unanswered;
  collection = a_call unanswered;
  put = a_call unanswered;
  embed_snapshot = a_call (answered 200 (some (codes "[1]")));
  search = a_call (answered 200 (some (codes "hits")));
}

abbrev ready : QdrantAgent ℕ ℕ
unfolding new_qdrant_agent
ready =
    record (new_qdrant_agent (codes "http://q") (codes "http://o") (codes "nomic") (codes "1")) {
      coll_ready = true;
    }

run-IsKeptOrFound_example :
    (a' : QdrantAgent ℕ ℕ) × (run
        (λ body. some (hit 800 ∷ hit 500 ∷ []))
        (λ body. some (1 ∷ []))
        plain
        noop_store
        tt
        calls
        (loaded 10 20 30)
        second
        ready
      ≡ some a')
    × IsKeptOrFound (λ body. some (hit 800 ∷ hit 500 ∷ [])) calls.search.net [] a'.last_similar
unfolding ready
run-IsKeptOrFound_example =
    run-IsKeptOrFound (λ body. some (hit 800 ∷ hit 500 ∷ [])) (λ body. some (1 ∷ [])) plain
      noop_store tt calls (loaded 10 20 30) second ready [] refl

abbrev served : Calls ℕ ℕ
served = record {
  embed_decision = a_call (answered 200 (some (codes "[1]")));
  collection = a_call (answered 200 (some []));
  put = a_call (answered 200 (some []));
  embed_snapshot = a_call (answered 200 (some (codes "[1]")));
  search = a_call (answered 200 (some (codes "hits")));
}

abbrev newest : CycleRecord ℕ
unfolding new_cycle_record
newest = new_cycle_record (loaded 10 20 30) (codes "log") (codes "calm") (codes "") (codes "")

abbrev one_cycle : Store ℕ (Unit {0})
one_cycle = record noop_store { last_cycles = λ n s. some (newest ∷ []) }

-- Its collection is not made yet.
abbrev unready : QdrantAgent ℕ ℕ
unfolding new_qdrant_agent new_ollama_embedder default_circuit_breaker new_circuit_breaker
unready = new_qdrant_agent (codes "http://q") (codes "http://o") (codes "nomic") (codes "1")

run-finds_example :
    (a' : QdrantAgent ℕ ℕ) × (run
        (λ body. some (hit 800 ∷ hit 500 ∷ []))
        (λ body. some (1 ∷ []))
        plain
        one_cycle
        tt
        served
        (loaded 10 20 30)
        second
        unready
      ≡ some a')
    × (a'.last_similar ≡ relevant (hit 800 ∷ hit 500 ∷ []))
unfolding unready
run-finds_example =
    run-finds (λ body. some (hit 800 ∷ hit 500 ∷ [])) (λ body. some (1 ∷ [])) plain one_cycle tt
      served (loaded 10 20 30) second unready (hit 800 ∷ hit 500 ∷ []) newest [] refl (refl, refl)
      (record {
        decision = (codes "[1]", 1, [], λ request. refl, refl);
        collection = ([], λ request. refl);
        put = ([], λ request. refl);
        snapshot = (codes "[1]", 1, [], λ request. refl, refl);
        search = (codes "hits", λ request. refl, refl);
      })
