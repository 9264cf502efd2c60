-- ===== src/Turns.antt =====
-- Turns as durable jobs: app/services/turns, with app/models/turn.py and app/models/enums.py.
pub mod Status
pub mod Table
pub mod Lease
pub mod Locks
pub mod Runner
pub mod Stream
pub mod Recovery
pub mod Probe
pub mod Heartbeat
