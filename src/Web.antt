-- ===== src/Web.antt =====
-- runtime/web/: the server of the dashboard.
pub mod RateLimit
mod Scenarios
pub mod Responses
pub mod Server
pub mod Reads
pub mod Alerts
pub mod Changes
pub mod Routes
pub mod Middleware
