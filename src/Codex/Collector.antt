-- ===== src/Codex/Collector.antt =====
-- app/services/codex/collector.py: what a caller keeps of the events of a turn.
use codex_server.Base.{Bool, true, false, List, [], ◌∷◌, ◌++◌}
use codex_server.Base.Text.{Text}
use codex_server.Codex.Json.{Fields}
use codex_server.Codex.Events.{
  Attachment, ChatEvent, token_event, tool_call_event, tool_result_event, done_event, error_event,
}

pub record StreamCollector : Type 0 where
  pub buffer : Text
  pub tool_calls : List (Text × Fields)
  pub attachments : List Attachment
  pub final_text : Text
  pub done_seen : Bool

abbrev pub empty : StreamCollector
empty = record {
  buffer = [];
  tool_calls = [];
  attachments = [];
  final_text = [];
  done_seen = false;
}

unfoldable pub absorb : ChatEvent → StreamCollector → StreamCollector
absorb (token_event delta) c = record c { buffer = c.buffer ++ delta }
absorb (tool_call_event name args) c = record c { tool_calls = c.tool_calls ++ (name, args) ∷ [] }
absorb (tool_result_event name text files error) c = record c {
  attachments = c.attachments ++ files;
}
absorb (done_event text) c = record c { final_text = text; done_seen = true }
absorb (error_event code detail) c = c

-- The collector behind a list of events.
unfoldable pub absorb_all : List ChatEvent → StreamCollector → StreamCollector
unfolding absorb
absorb_all [] c = c
absorb_all (e ∷ es) c = absorb_all es (absorb e c)
