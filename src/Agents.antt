-- ===== src/Agents.antt =====
-- runtime/agents: the agents, their registry and the notifications.
pub mod Base
pub mod Records
pub mod Notifier
pub mod Alert
pub mod System
pub mod Registry
pub mod DailyReport
pub mod Docker
pub mod Qdrant
pub mod File
