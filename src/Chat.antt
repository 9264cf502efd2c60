-- ===== src/Chat.antt =====
-- The chat RPC (app/rpc/chat): the frames a client is sent, the rows and the journal of a chat, and
-- the pipeline from the events of a Codex turn to both.
pub mod Frames
pub mod Log
pub mod Stream
pub mod Request
pub mod Start
pub mod Replay
