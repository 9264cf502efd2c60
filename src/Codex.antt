-- ===== src/Codex.antt =====
-- app/services/codex: the client side of the Codex app-server.
pub mod Json
pub mod Events
pub mod Translate
pub mod Collector
pub mod Turn
pub mod Diagnostics
pub mod Pages
