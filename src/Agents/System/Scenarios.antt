-- ===== src/Agents/System/Scenarios.antt =====
-- A run of runtime/agents/system_agent.go, on numbers of thousandths.
use jarvinx.Shared.{ℕ, ◌*◌, [], none, inr, leb}
use jarvinx.Shared.Int.{pos}
use jarvinx.Shared.Clock.{second}
use jarvinx.Shared.Float.{thousandths}
use jarvinx.Shared.Text.{codes}
use jarvinx.Memory.State
use jarvinx.Memory.State.{Json, State, StateData}
use jarvinx.Llm.Parser.{Decoder}
use jarvinx.Llm.Chat.{answered}
use jarvinx.Llm.Ollama.{Surroundings}
use jarvinx.Agents.System.{SystemAgent, Texts, new_system_agent}

abbrev always_uptime : Decoder ℕ
always_uptime = record {
  decode_map = λ s. leb 0 1;
  decode_decision = λ s. inr (record {
    analysis = codes "busy";
    action = codes "execute";
    command = codes "uptime";
    reason = [];
    confidence = 800;
  });
  unicode_lower = λ c. c;
}

abbrev up : Surroundings
up = record {
  cancelled = λ i. none;
  net = λ i r. answered 200 (inr (codes "{}"));
  clock = λ i. i * second;
  draw = λ i n. 0;
  decode_response = inr;
}

abbrev texts : Texts ℕ
texts = record {
  goos = codes "linux";
  system_prompt = λ c. codes "system";
  user_prompt = λ c. codes "user";
  describe = λ e. codes "failed";
}

abbrev no_json : Json (StateData ℕ)
no_json = record { marshal = λ d. none; unmarshal = λ text d. (d, leb 0 1) }

abbrev blank : State ℕ
blank = record {
  fields = record { version = pos 1; history = []; cycles = []; cycle_num = pos 0 };
  file = none;
  writable = leb 0 1;
}

abbrev agent : SystemAgent ℕ
unfolding new_system_agent
agent = new_system_agent (codes "http://localhost:11434") (codes "llama3") 80000 85000 90000
