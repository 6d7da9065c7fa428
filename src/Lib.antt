-- ===== src/Lib.antt =====
-- JARVINx watches one machine: agents take snapshots of it, a language model decides what to do,
-- and an orchestrator carries out the few commands that are allowed. The Go program stands in
-- runtime/; this library models the parts that hold its logic, one module per part.
--
-- The parts and how they interact:
-- - Memory: Records (the snapshots and cycles of runtime/memory/state.go), Store (the interfaces
--   of runtime/memory/store.go as records of operations, runtime/memory/noop_store.go), State
--   (runtime/memory/state.go, the JSON state), Sqlite (runtime/memory/sqlite_store.go),
--   DoubleWrite (runtime/memory/double_write_store.go, over any two stores) and Logger
--   (runtime/memory/logger.go, which implements the interface of the event log).
-- - Llm: Breaker (runtime/llm/circuit_breaker.go), Parser (runtime/llm/parser.go), Chat (Think of
--   runtime/llm/ollama.go) and Ollama (the retries of runtime/llm/ollama.go), whose
--   ThinkWithDecision asks the breaker, retries, and parses the reply; Context
--   (runtime/llm/context_builder.go, what the prompt says of the recent past) and Prompt
--   (runtime/llm/prompt.go, the texts of the prompts); Embedder (runtime/llm/embedder.go)
--   and Health (runtime/llm/health.go).
-- - Agents: Base (runtime/agents/agent.go), Notifier (runtime/agents/notifier.go), Alert
--   (runtime/agents/alert_agent.go), which hands its alerts to the notifiers, System
--   (runtime/agents/system_agent.go), which asks Llm.Ollama and records a cycle in a store,
--   Docker (runtime/agents/docker_agent.go), File (runtime/agents/file_agent.go), which watches
--   directories through Tools.Files, DailyReport (runtime/agents/daily_report.go), which reads a
--   store and sends through the notifiers, Qdrant (runtime/agents/qdrant_agent.go), which stores
--   decisions as vectors and searches them through Llm.Embedder, and Registry
--   (runtime/agents/registry.go), which switches
--   agents by name.
-- - Tools: Shell (runtime/tools/shell.go), the whitelist of commands and their execution, Docker
--   (runtime/tools/docker.go), the containers as the daemon tells them, Files
--   (runtime/tools/filesystem.go), Network (runtime/tools/network.go), Processes
--   (runtime/tools/process.go) and Observation (runtime/tools/system.go), the readings of the machine.
-- - Core: Scheduler (runtime/core/scheduler.go), which observes the machine at each tick through
--   Tools.Observation and Tools.Network and publishes a snapshot, Bus (runtime/core/bus.go) and
--   Orchestrator (runtime/core/orchestrator.go), which reads the newest cycle of a store and executes
--   its command through Tools.Shell.
-- - Config: runtime/config/config.go, Env (runtime/config/env.go: Dotenv is LoadEnv, Settings is
--   FromEnv) and Validate (runtime/config/validate.go), the checks made before the start.
-- - Web: runtime/web/. RateLimit (runtime/web/ratelimit.go); of runtime/web/server.go: Responses
--   (the requests, the replies and what they encode), Server (its state), Reads (the handlers that
--   only read; Past has those of the reports and of the history), Alerts (handleAlerts), Changes
--   (the handlers that change something), Routes and Middleware, which puts the check of the origin
--   around the check of the token around the routes. The server shows the JSON state, the registry,
--   the logs, the report and the execute guard, and switches agents through the registry.
-- - Shared: Booleans and lists on native numbers, Go's int, time, float64 and strings, and what the
--   program uses of strconv, strings and bufio.
--
-- A method keeps its name in snake case. A method that changes its receiver returns the new
-- record; one that holds a lock throughout is one step, and the readings of the clock are its
-- arguments. A panic is `none`. An error keeps what its text is formatted from. The steps of the
-- goroutines of the bus are taken in any order.
--
-- Numbers: an int is an integer with the wrap-around of 64 bits (Shared.Int), instants and
-- durations are natural numbers of nanoseconds, lengths and counts of elements are natural numbers,
-- float64 is an interface without laws (Shared.Float), so the theorems hold of NaN as well, and a
-- string is the list of its code points, or of its bytes in Llm.Context, Llm.Prompt, Config.Env and
-- where files and bodies are read. Runs of the code use numbers of thousandths for float64, and the rate limiter
-- is also looked at in exact arithmetic. The loops with a bound are those over the attempts of
-- ThinkWithDecision, a recursion on their number, and the reversal of a slice in place, which takes
-- as many turns as there are elements at most.
--
-- Parameters, with nothing assumed of them unless a theorem says so: encoding/json, HTTP, the
-- vector database, the context, math/rand, net/url, the database, the file system, the Docker
-- daemon, the processes of the operating system and its readings, the order that sorting gives to
-- equal items, the formatting of numbers by fmt, the parsing of floats and durations, the time
-- zone and the order in which a map yields its entries.
--
-- Not modelled: the tickers of the registry, the scheduler and the daily report, the SQL of the
-- history queries of runtime/memory/sqlite_store.go, the wiring and the terminal
-- (runtime/core/runtime.go, runtime/core/cli.go, runtime/cmd/) and what is printed; net/http
-- itself and the files under runtime/web/static/; the dashboard is another program.
pub mod Shared
pub mod Llm
pub mod Memory
pub mod Agents
pub mod Tools
pub mod Core
pub mod Config
pub mod Web
