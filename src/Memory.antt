-- ===== src/Memory.antt =====
-- runtime/memory: what the program remembers.
pub mod Records
pub mod Store
pub mod State
pub mod Sqlite
pub mod DoubleWrite
pub mod Logger
