-- ===== src/Core.antt =====
-- runtime/core: the bus, the orchestrator and what drives them.
pub mod Orchestrator
pub mod Bus
pub mod Scheduler
