-- ===== src/Chat/Stream/Finish/Examples.antt =====
-- A turn of a few events through `stream_turn`: it ends by itself, or Codex stops to answer.
use codex_server.Base.{arith, ℕ, ◌≡◌, refl, true, false, none, some, List, [], ◌∷◌, ◌++◌}
use codex_server.Base.Text.{codes}
use codex_server.Codex.Events.{ChatEvent, token_event, done_event, tool_call_event}
use codex_server.Codex.Json.{end}
use codex_server.Codex.Collector.{absorb}
use codex_server.Chat.Frames.{chat_event_to_pb}
use codex_server.Chat.Frames.Redact.{redact_for_user-hides}
use codex_server.Chat.Frames.{presigned_marker, contains, redact_for_user}
use codex_server.Chat.Log.{
  Db, Tx, Message, user, append, persist_attachments, touch_last_msg_at, unique_local_paths,
  persist_paths, no_meta,
}
use codex_server.Chat.Log.Rows.{rows}
use codex_server.Chat.Stream.{
  Call, Arrival, count, loop, round, dispatch, on_token, on_done, on_other, check_steer_boundary,
  persist_segment, persist_partial, persist_body, segment_delta,
}
use codex_server.Chat.Stream.Final.{ends_final, finals}
use codex_server.Chat.Stream.Finish.{
  Aftermath, stream_turn, settle, complete, finalize_turn_persist,
}
use codex_server.Chat.Stream.Finish.Returned.{stream_turn-final}
use codex_server.Chat.Stream.Finish.Saved.{stream_turn-saves, IsAnswer}

abbrev tx : Tx
tx = record { now = 120; resolve = λ t. none; stores = λ t. true; failure = none }

abbrev arrives : (steers : ℕ) → ChatEvent → Arrival
arrives steers e = record { event = e; publish_raises = none; peek = count steers; tx = tx }

abbrev pub call : Call
call = record {
  chat_id = 3;
  user_pk = 1;
  voice_reply = false;
  client_id = none;
  turn_id = some 7;
  thread_id = some (codes "thread");
  codex_turn_id = some (codes "turn");
  coalesce_bytes = 4;
  idle_detail = codes "idle>300.0s";
}

abbrev question : Message
question = record { id = 20; chat_id = 3; role = user; text = codes "hello?"; meta = no_meta }

abbrev pub db : Db
db = record {
  messages = question ∷ [];
  next_message = 21;
  uploads = [];
  next_upload = 1;
  chats = record { id = 3; last_msg_at = 100 } ∷ [];
  turns = record { rows = []; saved = []; hooks = []; published = [] };
  events = [];
}

-- The second token fills the buffer, and the client has steered meanwhile.
abbrev half : List Arrival
half =
    arrives 0 (token_event (codes "ab"))
    ∷ arrives 1 (token_event (codes "cd"))
    ∷ arrives 1 (tool_call_event (codes "shell") end)
    ∷ arrives 1 (token_event (codes "e"))
    ∷ []

abbrev pub whole_turn : List Arrival
whole_turn = half ++ arrives 1 (done_event []) ∷ []

abbrev pub after : Aftermath
after = record { save = tx; note = tx }

redact_for_user-hides_example :
    contains presigned_marker (redact_for_user (codes "GET https://s3/a?X-Amz-Signature=1f failed"))
    ≡ false
redact_for_user-hides_example =
    redact_for_user-hides (codes "GET https://s3/a?X-Amz-Signature=1f failed")

stream_turn-saves_example :
    (m : Message) × ((stream_turn whole_turn none after call db).1.db.messages ≡ question ∷ m ∷ [])
    × IsAnswer call (codes "abcde") m
unfolding loop round dispatch on_token on_done on_other check_steer_boundary persist_segment
    persist_partial persist_body append touch_last_msg_at persist_attachments unique_local_paths
    persist_paths segment_delta absorb chat_event_to_pb
stream_turn-saves_example =
    stream_turn-saves whole_turn none after call db (omega arith, tt) refl refl refl

stream_turn-final_example :
    let s = (stream_turn whole_turn none after call db).1 in
    (ends_final s.frames ≡ true) × (finals s.frames ≡ 1)
unfolding loop round dispatch on_token on_done on_other check_steer_boundary persist_segment
    persist_partial persist_body append touch_last_msg_at persist_attachments unique_local_paths
    persist_paths segment_delta absorb chat_event_to_pb stream_turn settle complete
    finalize_turn_persist
stream_turn-final_example =
    stream_turn-final whole_turn none after call db (refl, (refl, (refl, (refl, (refl, tt))))) refl
