-- ===== src/Codex/Translate.antt =====
-- app/services/codex/events/translate.py: a notification of the app-server becomes at most one
-- typed event. What Python's `str`, `mimetypes.guess_type` and `orjson.loads` answer are parameters.
pub mod Reconcile
use codex_server.Base.{
  Bool, true, false, not, Option, none, some, List, [], ◌∷◌, ◌++◌, if◌then◌else◌, length, ◌||◌,
  is_some, all, is_nil,
}
use codex_server.Base.Text.{Text, codes, text_eq, strip_prefix}
use codex_server.Base.Text.Decimal.{is_space}
use codex_server.Codex.Json.{
  Json, null, flag, number, string, object, array, Items, nil, cons, Fields, end, field, at, get,
  get_or, is_truthy, as_text, as_dict, as_text_or_none, or_else, is_string, ◌>>=◌, as_items,
}
use codex_server.Codex.Events.{
  Attachment, image, ChatEvent, token_event, tool_call_event, done_event, error_event, tool_result,
}

-- `Notification` of app/services/codex/transport.py.
pub record Notification : Type 0 where
  pub method : Text
  pub params : Fields
  pub turn_id : Option Text

abbrev one_of : Text → List Text → Bool
one_of t [] = false
one_of t (u ∷ us) = text_eq t u || one_of t us

abbrev hidden_items : List Text
hidden_items =
    codes "userMessage"
    ∷ codes "hookPrompt"
    ∷ codes "plan"
    ∷ codes "reasoning"
    ∷ codes "collabAgentToolCall"
    ∷ codes "enteredReviewMode"
    ∷ codes "exitedReviewMode"
    ∷ codes "contextCompaction"
    ∷ []

-- `s.endswith(t)`: the reversed texts are compared.
abbrev pub reverse : Text → Text → Text
reverse [] acc = acc
reverse (c ∷ t) acc = reverse t (c ∷ acc)

abbrev pub ends_with : Text → Text → Bool
ends_with s t = is_some (strip_prefix (reverse t []) (reverse s []))

-- `_agent_message_to_token`.
unfoldable pub agent_message_to_token : (text accumulated : Text) → Option ChatEvent
agent_message_to_token [] accumulated = none
agent_message_to_token (c ∷ text) accumulated =
    if ends_with accumulated (c ∷ text) then none else elim (strip_prefix accumulated (c ∷ text)) [
      | none ↦ none
      | some delta ↦ some (token_event delta)
    ]

image_attachment : Json → Option (List Attachment)
image_attachment source =
    as_text source >>= λ s. some (record { kind = image; source = s; caption = [] } ∷ [])

abbrev caption_of : Json → Text
caption_of (string t) = t
caption_of _ = []

-- One block of `contentItems`: the text parts and the attachments behind it.
abbrev Content : Type 0
Content = List Text × List Attachment

content_item : Text → Json → Content → Option Content
content_item tool (object d) (parts, files) = at "type" d >>= λ type.
    if is_string (codes "inputText") type
    then (at "text" d >>= as_text >>= λ t. some (parts ++ t ∷ [], files))
    else if is_string (codes "inputImage") type
    then (at "imageUrl" d >>= as_text >>= λ url.
        some (parts, files ++ record { kind = image; source = url; caption = tool } ∷ []))
    else some (parts, files)
content_item tool _ c = none

content_items : Text → Items → Content → Option Content
unfolding content_item
content_items tool nil c = some c
content_items tool (cons x xs) c = content_item tool x c >>= content_items tool xs

generic_tool_call : Fields → Option (Option ChatEvent)
generic_tool_call item = elim (get "toolName" item) [
  | null ↦ some none
  | name ↦ as_text name >>= λ n. as_dict (get_or (object end) "arguments" item) >>= λ args.
      some (some (tool_call_event n args))
]

generic_tool_result : Fields → Option (Option ChatEvent)
generic_tool_result item = elim (get "toolName" item) [
  | null ↦ some none
  | name ↦ tool_result name (get_or (string []) "output" item) [] (get "error" item) >>= λ e.
      some (some e)
]

-- `"\n\n".join(p for p in text_parts if p.strip())`.
abbrev join_parts : List Text → Text
join_parts [] = []
join_parts (p ∷ ps) =
    let rest = join_parts ps in
    if all is_space p then rest else if is_nil rest then p else p ++ (codes "\n\n" ++ rest)

dynamic_tool_call_to_event : Fields → Option ChatEvent
unfolding content_items
dynamic_tool_call_to_event item = at "tool" item >>= as_text >>= λ tool.
    at "contentItems" item >>= as_items >>= λ items. content_items tool items ([], []) >>= λ c.
    tool_result (string tool) (string (join_parts c.0)) c.1 (get "error" item)

abbrev mcp_label : Fields → Json
mcp_label item = or_else (get "tool" item) (string (codes "mcp"))

module _ (py_str : Json → Text) (guess_type : Text → Option Text) (loads : Text → Option Json) where
  -- `" ".join(str(c) for c in cmd)`.
  join_words : Items → Text
  join_words nil = []
  join_words (cons x nil) = py_str x
  join_words (cons x (cons y xs)) = py_str x ++ (codes " " ++ join_words (cons y xs))

  command_args : Fields → Option Fields
  unfolding join_words
  command_args item = at "command" item >>= λ cmd.
      some (field "command" (elim cmd [ array xs ↦ string (join_words xs) | other ↦ other ]) end)

  attachment_from_dict : Fields → Option Attachment
  attachment_from_dict d = elim (get "path" d) [
    | string path ↦
        if is_nil path
        then none
        else (guess_type path >>= λ mime.
            if is_some (strip_prefix (codes "image/") mime)
            then some
                (record { kind = image; source = path; caption = caption_of (get "caption" d) })
            else none)
    | _ ↦ none
  ]

  -- One block of `content`, read for its attachment.
  block_attachment : Json → Option Attachment
  unfolding attachment_from_dict
  block_attachment (object d) =
      if is_string (codes "text") (get "type" d)
      then (as_text (or_else (get "text" d) (string [])) >>= λ text.
          loads text >>= as_dict >>= attachment_from_dict)
      else none
  block_attachment _ = none

  first_attachment : Items → List Attachment
  unfolding block_attachment
  first_attachment nil = []
  first_attachment (cons x xs) = elim (block_attachment x) [
    | none ↦ first_attachment xs
    | some a ↦ a ∷ []
  ]

  -- What `for block in v` goes through, as far as dictionaries can be among it: the keys of a
  -- dictionary and the characters of a text are none.
  abbrev iterated : Json → Option Items
  iterated (array xs) = some xs
  iterated (object d) = some nil
  iterated (string t) = some nil
  iterated _ = none

  mcp_attachments : Fields → Option (List Attachment)
  unfolding first_attachment attachment_from_dict
  mcp_attachments item = elim (get "result" item) [
    | object result ↦
        let content = iterated (or_else (get "content" result) (array nil)) >>= λ xs.
        some (first_attachment xs) in
        elim (as_dict (get "structuredContent" result)) [
          | none ↦ content
          | some d ↦ elim (attachment_from_dict d) [ none ↦ content | some a ↦ some (a ∷ []) ]
        ]
    | _ ↦ some []
  ]

  -- `_BUILTINS`, at `to_started`: the label and the arguments.
  builtin_started : Text → Fields → Option (Option ChatEvent)
  unfolding command_args
  builtin_started type item =
      if text_eq type (codes "commandExecution")
      then (command_args item >>= λ args. some (some (tool_call_event (codes "shell") args)))
      else if text_eq type (codes "fileChange")
      then (at "changes" item >>= λ v.
          some (some (tool_call_event (codes "file_change") (field "changes" v end))))
      else if text_eq type (codes "webSearch")
      then (at "query" item >>= λ v.
          some (some (tool_call_event (codes "web_search") (field "query" v end))))
      else if text_eq type (codes "mcpToolCall")
      then (as_text (mcp_label item) >>= λ name. at "server" item >>= λ server.
          at "tool" item >>= λ tool.
          some (some (tool_call_event name (field "server" server (field "tool" tool end)))))
      else if text_eq type (codes "imageGeneration")
      then some (
          some (
            tool_call_event (codes "image_generation")
              (field "prompt" (get_or (string []) "revisedPrompt" item) end)))
      else if text_eq type (codes "imageView")
      then (at "path" item >>= λ v.
          some (some (tool_call_event (codes "image_view") (field "path" v end))))
      else some none

  abbrev is_builtin : Text → Bool
  is_builtin type = one_of type (
      codes "commandExecution"
      ∷ codes "fileChange"
      ∷ codes "webSearch"
      ∷ codes "mcpToolCall"
      ∷ codes "imageGeneration"
      ∷ codes "imageView"
      ∷ [])

  -- `_BUILTINS`, at `to_completed`.
  builtin_completed : Text → Fields → Option ChatEvent
  unfolding mcp_attachments image_attachment
  builtin_completed type item =
      let error = get "error" item in
      let prompt = get_or (string []) "revisedPrompt" item in
      let saved = get "savedPath" item in
      if text_eq type (codes "commandExecution")
      then tool_result (string (codes "shell")) (or_else (get "aggregatedOutput" item) (string []))
          [] error
      else if text_eq type (codes "fileChange")
      then tool_result (string (codes "file_change")) (string []) [] error
      else if text_eq type (codes "webSearch")
      then tool_result (string (codes "web_search")) (string []) [] error
      else if text_eq type (codes "mcpToolCall")
      then (mcp_attachments item >>= λ files. tool_result (mcp_label item) (string []) files error)
      else if text_eq type (codes "imageGeneration")
      then ((if is_truthy saved then image_attachment saved else some []) >>= λ files.
          tool_result (string (codes "image_generation")) prompt files error)
      else (at "path" item >>= image_attachment >>= λ files.
          tool_result (string (codes "image_view")) (string []) files error)

  -- The value of `item["type"]` as a key: what is no text equals no known type, and a list or a
  -- dictionary cannot be looked up.
  abbrev type_of : Fields → Option Text
  type_of item = at "type" item >>= λ type. elim type [
    | string t ↦ some t
    | array xs ↦ none
    | object d ↦ none
    | _ ↦ some []
  ]

  on_item_started : Fields → Option (Option ChatEvent)
  unfolding builtin_started
  on_item_started item = type_of item >>= λ type.
      if text_eq type (codes "agentMessage") || one_of type hidden_items
      then some none
      else if is_builtin type
      then builtin_started type item
      else generic_tool_call item

  on_item_completed : Fields → (accumulated : Text) → Option (Option ChatEvent)
  unfolding builtin_completed
  on_item_completed item accumulated = type_of item >>= λ type.
      if text_eq type (codes "agentMessage")
      then (at "text" item >>= λ v.
          if is_truthy v
          then (as_text v >>= λ text. some (agent_message_to_token text accumulated))
          else some none)
      else if one_of type hidden_items
      then some none
      else if text_eq type (codes "dynamicToolCall")
      then (dynamic_tool_call_to_event item >>= λ e. some (some e))
      else if is_builtin type
      then (builtin_completed type item >>= λ e. some (some e))
      else generic_tool_result item

  -- `turn/completed`.
  on_turn_completed : Fields → (accumulated : Text) → Option ChatEvent
  on_turn_completed params accumulated = as_dict (get_or (object end) "turn" params) >>= λ turn.
      let error = get "error" turn in
      if is_truthy error
      then (as_dict error >>= λ e. as_text_or_none (get "message" e) >>= λ detail.
          some (error_event (codes "codex_error") detail))
      else if is_string (codes "failed") (get "status" turn)
      then some (error_event (codes "codex_error") (some (codes "Codex turn failed")))
      else (as_text (get_or (string accumulated) "finalText" params) >>= λ text.
          some (done_event text))

  -- `none` is an exception; `some none` is a notification that yields no event.
  unfoldable pub translate_notification :
      Notification → (accumulated : Text) → Option (Option ChatEvent)
  unfolding on_item_started on_item_completed on_turn_completed generic_tool_call
      generic_tool_result dynamic_tool_call_to_event
  translate_notification note accumulated =
      if text_eq note.method (codes "turn/started")
      then some none
      else if text_eq note.method (codes "item/agentMessage/delta")
      then (at "delta" note.params >>= λ delta.
          if is_truthy delta
          then (as_text delta >>= λ t. some (some (token_event t)))
          else some none)
      else if text_eq note.method (codes "item/started")
      then (at "item" note.params >>= as_dict >>= on_item_started)
      else if text_eq note.method (codes "item/completed")
      then (at "item" note.params >>= as_dict >>= λ item. on_item_completed item accumulated)
      else if text_eq note.method (codes "turn/completed")
      then (on_turn_completed note.params accumulated >>= λ e. some (some e))
      else some none
