-- ===== src/Tests.antt =====
-- Sample data, and the theorems at it.
pub mod Sample
pub mod Turns
pub mod Streamed
pub mod Start
pub mod Replay
pub mod Stream
pub mod Recovery
pub mod Heartbeat
pub mod Accounts
pub mod Diagnostics
pub mod RateLimit
pub mod Codex
