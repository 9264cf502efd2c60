-- ===== src/Chat/Stream/Finish/Broken.antt =====
-- A call of `stream_turn` that is broken off keeps all of the text so far, in partial rows.
use codex_server.Base.{◌≡◌, Bool, true, false, Option, none, List, ◌++◌}
use codex_server.Base.Text.{Text}
use codex_server.Turns.Status.{completed}
use codex_server.Chat.Log.{
  Exc, Message, codex_turn_terminal, stale_turn_stream, timeout_error, cancelled_error, exception,
}
use codex_server.Chat.Log.Rows.{Rows, rows}
use codex_server.Chat.Stream.Wire.{Wire}
use codex_server.Chat.Stream.{StreamState}
use codex_server.Chat.Stream.Cut.{Log, texts, ArePartial}

-- The exceptions that break a turn off with its partial text saved.
abbrev pub breaks_off : Exc → Bool
breaks_off (codex_turn_terminal completed detail) = false
breaks_off (codex_turn_terminal status detail) = true
breaks_off stale_turn_stream = true
breaks_off timeout_error = true
breaks_off cancelled_error = true
breaks_off (exception exc_type text) = false

-- The rows behind those of the start are partial, and have all of the buffer.
abbrev pub IsWhole : Rows → Text → Rows → Type 0
IsWhole start buffer now =
    (parts : List Message) × (now.messages ≡ start.messages ++ parts)
    × (texts parts ≡ buffer)
    × ArePartial start.next parts

module _ (start : Rows) where
  abbrev Saves : Text → StreamState → Type 0
  Saves buffer s = IsWhole start buffer (rows s.db)

  -- What `_persist_visible_partial` leaves.
  abbrev IsKept : Text → Option Exc × StreamState → Type 0
  IsKept buffer r = (r.0 ≡ none) × Saves buffer r.1
