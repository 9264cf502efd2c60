-- ===== src/Codex/Events.antt =====
-- app/services/codex/events/types.py: the typed events of a turn. A tool's name and error are
-- validated here, as the constructors of the source do.
use codex_server.Base.{Option, none, some, List, []}
use codex_server.Base.Text.{Text}
use codex_server.Codex.Json.{
  Json, null, string, object, Fields, at, get, as_text, as_text_or_none, ◌>>=◌,
}

pub data AttachmentKind : Type 0 where
  image audio file : AttachmentKind

pub record Attachment : Type 0 where
  pub kind : AttachmentKind
  pub source : Text
  pub caption : Text

pub record ToolError : Type 0 where
  pub message : Text
  pub code : Option Text

pub data ChatEvent : Type 0 where
  token_event : (delta : Text) → ChatEvent
  tool_call_event : (name : Text) (args : Fields) → ChatEvent
  tool_result_event : (name text : Text) → List Attachment → Option ToolError → ChatEvent
  done_event : (final_text : Text) → ChatEvent
  error_event : (code : Text) (detail : Option Text) → ChatEvent

-- The validator `_coerce_error` of `ToolResultEvent`, and the validation behind it.
coerce_error : Json → Option (Option ToolError)
coerce_error null = some none
coerce_error (string []) = some none
coerce_error (string t) = some (some (record { message = t; code = none }))
coerce_error (object d) = at "message" d >>= as_text >>= λ message.
    as_text_or_none (get "code" d) >>= λ code.
    some (some (record { message = message; code = code }))
coerce_error _ = none

-- `ToolResultEvent(name=…, text=…, attachments=…, error=…)`.
pub tool_result : Json → Json → List Attachment → Json → Option ChatEvent
unfolding coerce_error
tool_result name text attachments error = as_text name >>= λ n.
    as_text text >>= λ t. coerce_error error >>= λ e. some (tool_result_event n t attachments e)
