-- ===== src/Llm.antt =====
-- runtime/llm: the client side of the language model.
pub mod Breaker
pub mod Parser
pub mod Chat
pub mod Ollama
pub mod Context
pub mod Prompt
pub mod Health
pub mod Embedder
