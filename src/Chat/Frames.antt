-- ===== src/Chat/Frames.antt =====
-- app/rpc/chat/mappers.py: the frames (`chat_pb2.ChatEvent`) of the events of a turn, with what is
-- taken out of their texts.
pub mod Redact
use codex_server.Base.{
  ℕ, Bool, true, false, ◌&&◌, ◌||◌, not, Option, none, some, List, [], ◌∷◌, ◌++◌, map,
  if◌then◌else◌, leb, ◌==◌, is_some, is_nil,
}
use codex_server.Base.Text.{Text, codes, text_eq, strip_prefix}
use codex_server.Codex.Json.{Fields}
use codex_server.Codex.Events.{
  AttachmentKind, Attachment, ToolError, ChatEvent, token_event, tool_call_event, tool_result_event,
  done_event, error_event as error_occurred,
}

-- `_PRESIGNED_MARKER`, `_REDACTED_URL` and `_GENERATED_PREFIX`.
abbrev pub presigned_marker : Text
presigned_marker = codes "X-Amz-Signature="

abbrev pub redacted_url : Text
redacted_url = codes "[link expired or unavailable]"

abbrev pub generated_prefix : Text
generated_prefix = codes "/home/codex/.codex/generated_images/"

-- `sub in text`.
abbrev pub contains : Text → Text → Bool
contains sub [] = is_some (strip_prefix sub [])
contains sub (c ∷ t) = is_some (strip_prefix sub (c ∷ t)) || contains sub t

-- `c.isspace()`.
abbrev pub is_space : ℕ → Bool
is_space c =
    (leb 9 c && leb c 13)
    || ((leb 28 c && leb c 32)
        || (c == 133
            || (c == 160
                || (c == 5760
                    || ((leb 8192 c && leb c 8202)
                        || (c == 8232
                            || (c == 8233 || (c == 8239 || (c == 8287 || c == 12288)))))))))

abbrev pub push_word : Text → List Text → List Text
push_word word words = if is_nil word then words else word ∷ words

-- `text.split()`: the word that the text begins with, and those behind it.
split_from : Text → Text × List Text
split_from [] = ([], [])
split_from (c ∷ t) =
    let (word, words) = split_from t in
    if is_space c then ([], push_word word words) else (c ∷ word, words)

pub split : Text → List Text
unfolding split_from
split t = let (word, words) = split_from t in push_word word words

-- `" ".join(words)`.
unfoldable pub join_words : List Text → Text
join_words [] = []
join_words (w ∷ []) = w
join_words (w ∷ (v ∷ words)) = w ++ (codes " " ++ join_words (v ∷ words))

abbrev pub redact_word : Text → Text
redact_word w = if contains presigned_marker w then redacted_url else w

unfoldable pub redact_for_user : Text → Text
redact_for_user text =
    if contains presigned_marker text then join_words (map redact_word (split text)) else text

-- A row of `messages` as a frame carries it: its id and its text.
pub record MessageFrame : Type 0 where
  pub id : ℕ
  pub text : Text

pub data Frame : Type 0 where
  token : (delta : Text) → Frame
  tool_call : (name : Text) (args : Fields) → Frame
  tool_result_frame : (name text : Text) → List Attachment → Option ToolError → Frame
  done : (chat_id : ℕ) (final_text : Text) → Option MessageFrame → Frame
  error : (code : Text) (detail : Option Text) → Frame

pub attachment_to_pb : Attachment → Attachment
attachment_to_pb a = elim (strip_prefix generated_prefix a.source) [
  | none ↦ a
  | some rest ↦ record a { source = codes "/generated/" ++ rest }
]

pub redact_error : Option ToolError → Option ToolError
redact_error none = none
redact_error (some e) = some (record e { message = redact_for_user e.message })

-- `redact_for_user(detail) if detail else detail`.
pub redact_detail : Option Text → Option Text
redact_detail none = none
redact_detail (some detail) = some (if is_nil detail then detail else redact_for_user detail)

unfoldable pub chat_event_to_pb : ChatEvent → Frame
unfolding attachment_to_pb redact_error redact_detail
chat_event_to_pb (token_event delta) = token delta
chat_event_to_pb (tool_call_event name args) = tool_call name args
chat_event_to_pb (tool_result_event name text files e) =
    tool_result_frame name text (map attachment_to_pb files) (redact_error e)
chat_event_to_pb (error_occurred code detail) = error code (redact_detail detail)
chat_event_to_pb (done_event final_text) = done 0 final_text none

-- An empty text if the client has it from the tokens.
unfoldable pub final_text_for_done_frame : (final_text streamed_text : Text) → Text
final_text_for_done_frame final_text streamed_text =
    if not (is_nil streamed_text) && text_eq final_text streamed_text then [] else final_text
