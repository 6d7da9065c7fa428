-- ===== src/Tools.antt =====
-- runtime/tools: what the program does to the machine.
pub mod Shell
pub mod Docker
pub mod Files
pub mod Network
pub mod Processes
pub mod Observation
