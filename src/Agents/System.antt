-- ===== src/Agents/System.antt =====
-- runtime/agents/system_agent.go: the agent that asks the language model. The texts of the prompts and
-- of the errors are formatted by functions that are parameters; the store is any implementation.
pub mod Decide
mod Scenarios
use jarvinx.Shared.{ℕ, ◌*◌, Bool, List, [], ◌∷◌, Option, none, some, if◌then◌else◌}
use jarvinx.Shared.Int.{ℤ, pos}
use jarvinx.Shared.Clock.{Time, second}
use jarvinx.Shared.Float.{Float64}
use jarvinx.Shared.Text.{Text, codes, text_eq}
use jarvinx.Memory.Records.{Snapshot, CycleRecord, new_cycle_record}
use jarvinx.Memory.Store.{Store, StoreError}
use jarvinx.Llm.Context.{SystemContext}
use jarvinx.Llm.Parser.{Decision, Decoder}
use jarvinx.Llm.Chat.{OllamaClient, new_ollama_client}
use jarvinx.Llm.Ollama.{
  RetryConfig, Surroundings, Answer, CallError, default_retry_config, think_with_decision,
}
use jarvinx.Agents.Base
use jarvinx.Agents.Base.{BaseAgent}

pub record SystemAgent (F : Type 0) : Type 0 where
  pub base : BaseAgent
  pub client : OllamaClient
  pub retry : RetryConfig
  pub cpu_threshold : F
  pub ram_threshold : F
  pub disk_threshold : F

unfoldable pub new_system_agent : {F : Type 0} → Text → Text → F → F → F → SystemAgent F
unfolding Base.new_base_agent new_ollama_client
new_system_agent base_url model cpu ram disk = record {
  base = Base.new_base_agent (codes "system") (15 * second);
  client = new_ollama_client base_url model;
  retry = default_retry_config;
  cpu_threshold = cpu;
  ram_threshold = ram;
  disk_threshold = disk;
}

-- The platform and the texts: the system and the user prompt, and the text of an error.
pub record Texts (F : Type 0) : Type 0 where
  pub goos : Text
  pub system_prompt : SystemContext F → Text
  pub user_prompt : SystemContext F → Text
  pub describe : CallError → Text

-- What a run returns and leaves: its error, and the errors of the store that it logs.
pub record Ran (F S : Type 0) : Type 0 where
  pub agent : SystemAgent F
  pub store : S
  pub error : Option CallError
  pub logged : List StoreError

noted : Option StoreError → List StoreError → List StoreError
noted none errors = errors
noted (some error) errors = error ∷ errors

counted : {F : Type 0} → Texts F → Time → Option CallError → BaseAgent → BaseAgent
unfolding Base.record_success Base.record_error
counted texts now none b = Base.record_success now b
counted texts now (some error) b = Base.record_error now (texts.describe error) b

module _ {F : Type 0} ⦃fl : Float64 F⦄ where
  -- The record of a decision: what triggered it is kept only for an execution.
  unfoldable pub to_record : Snapshot F → Decision F → CycleRecord F
  unfolding new_cycle_record
  to_record snap d =
      let r = record (new_cycle_record snap d.action d.analysis d.reason d.command) {
        confidence = d.confidence;
      } in
      if text_eq d.action (codes "execute")
      then record r {
        trigger_cpu = snap.cpu_percent;
        trigger_ram = snap.mem_percent;
        trigger_disk = snap.disk_percent;
      }
      else r

  module _ {S : Type 0} (store : Store F S) where
    -- AddCycle, Add and Save, each error logged and passed over.
    unfoldable pub remember : Snapshot F → CycleRecord F → S → S × List StoreError
    unfolding noted
    remember snap r s =
        let (s1, e1) = store.add_cycle r s in
        let (s2, e2) = store.add snap s1 in
        let (s3, e3) = store.save s2 in (s3, noted e1 (noted e2 (noted e3 [])))

    finished : Texts F → Time → Snapshot F → S → SystemAgent F → Answer F → Ran F S
    unfolding counted to_record remember
    finished texts now snap s a answer =
        let (s', errors) = remember snap (to_record snap answer.decision) s in
        record {
          agent = record a {
            base = counted texts now answer.error a.base;
            client = record a.client { circuit = answer.circuit };
          };
          store = s';
          error = answer.error;
          logged = errors;
        }

    context_of :
        Texts F
        → List Text
        → Snapshot F
        → List (Snapshot F)
        → List (CycleRecord F)
        → SystemAgent F
        → SystemContext F
    context_of texts similar snap history cycles a = record {
      timestamp = snap.timestamp;
      cpu_percent = snap.cpu_percent;
      mem_used = snap.mem_used;
      mem_total = snap.mem_total;
      mem_percent = snap.mem_percent;
      disk_used = snap.disk_used;
      disk_total = snap.disk_total;
      disk_percent = snap.disk_percent;
      history = history;
      cycles = cycles;
      cpu_threshold = a.cpu_threshold;
      ram_threshold = a.ram_threshold;
      disk_threshold = a.disk_threshold;
      goos = texts.goos;
      similar_decisions = similar;
    }

    asked : Decoder F → Surroundings → Texts F → SystemAgent F → SystemContext F → Option (Answer F)
    unfolding think_with_decision
    asked dec w texts a ctx =
        think_with_decision dec w a.client (texts.system_prompt ctx) (texts.user_prompt ctx) a.retry

    -- `none` is a panic: of a read of the store, or of the sleep between two attempts.
    unfoldable pub run :
        Decoder F
        → Surroundings
        → Texts F
        → Time
        → List Text
        → Snapshot F
        → S
        → SystemAgent F
        → Option (Ran F S)
    unfolding finished context_of asked
    run dec w texts now similar snap s a = elim (store.last (pos 10) s) [
      | none ↦ none
      | some history ↦ elim (store.last_cycles (pos 20) s) [
        | none ↦ none
        | some cycles ↦
            elim (asked dec w texts a (context_of texts similar snap history cycles a)) [
              | none ↦ none
              | some answer ↦ some (finished texts now snap s a answer)
            ]
      ]
    ]
