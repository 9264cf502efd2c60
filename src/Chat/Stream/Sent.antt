-- ===== src/Chat/Stream/Sent.antt =====
-- What a client is sent of a turn: every event, in order, with only the bounds between the tokens
-- drawn anew, and few bytes waiting.
use codex_server.Base.{List}
use codex_server.Base.Text.{Text}
