-- ===== src/Chat/Stream.antt =====
-- app/rpc/chat/stream.py: the pipeline from the events of a Codex turn to the frames of its client
-- and the rows of its chat. What `run_turn` gives comes as a list of `Arrival`s, each with what its
-- surroundings answer while the event is handled, and the exception, if any, that ends it.
pub mod Finish
pub mod Wire
pub mod Rounds
pub mod Final
pub mod Pieces
pub mod Sent
pub mod Cut
pub mod Segments
pub mod Kept
use codex_server.Base.{
  ℕ, suc, ◌+◌, Bool, true, false, ◌&&◌, Option, none, some, List, [], ◌∷◌, ◌++◌, if◌then◌else◌, leb,
  ltb, length, drop, is_nil, inl, inr, ◌⊎◌, is_some,
}
use codex_server.Base.Text.{Text}
use codex_server.Codex.Json.{Fields}
use codex_server.Codex.Events.{
  Attachment, ChatEvent, token_event, tool_call_event, tool_result_event, done_event, error_event,
}
use codex_server.Codex.Collector.{StreamCollector, empty, absorb}
use codex_server.Chat.Frames.{Frame, token, done, chat_event_to_pb}
use codex_server.Chat.Log.{
  Message, no_meta, assistant, Meta, Db, EventKind, turn_completed, turn_failed, Payload, saved,
  reported, Exc, Tx, persist_attachments, append, emit, in_transaction,
}

-- The arguments of `stream_turn`, and the settings that it reads.
pub record Call : Type 0 where
  pub chat_id : ℕ
  pub user_pk : ℕ
  pub voice_reply : Bool
  pub client_id : Option Text
  pub turn_id : Option ℕ
  pub thread_id : Option Text
  pub codex_turn_id : Option Text
  pub coalesce_bytes : ℕ
  pub idle_detail : Text

-- The calls of other components that leave nothing in the tables of this model.
pub data Effect : Type 0 where
  interrupt : (thread_id turn_id : Text) → Effect
  quarantine : (thread_id : Text) → Effect
  attach_tts : (message_id : ℕ) (text : Text) → Effect

-- `_StreamState` with the variables of the call: the tokens that wait, the frames sent, the events
-- published on the bus, the tables.
pub record StreamState : Type 0 where
  pub collector : StreamCollector
  pub events_count : ℕ
  pub segment_buffer_offset : ℕ
  pub segment_tool_count : ℕ
  pub seen_steer_count : ℕ
  pub partial_msg_ids : List ℕ
  pub pending_text : List Text
  pub pending_size : ℕ
  pub frames : List Frame
  pub bus : List ChatEvent
  pub effects : List Effect
  pub db : Db

abbrev pub opened : Db → StreamState
opened db = record {
  collector = empty;
  events_count = 0;
  segment_buffer_offset = 0;
  segment_tool_count = 0;
  seen_steer_count = 0;
  partial_msg_ids = [];
  pending_text = [];
  pending_size = 0;
  frames = [];
  bus = [];
  effects = [];
  db = db;
}

-- What `peek_steer_count` answers.
pub data Peek : Type 0 where
  count : ℕ → Peek
  peek_raises : Exc → Peek

pub record Arrival : Type 0 where
  pub event : ChatEvent
  pub publish_raises : Option Exc
  pub peek : Peek
  pub tx : Tx

-- How a statement ends, or the loop, or the call.
pub data Verdict : Type 0 where
  goes_on breaks returns : Verdict
  throws : Exc → Verdict

-- `len(delta.encode("utf-8"))`.
abbrev pub utf8_bytes : Text → ℕ
utf8_bytes [] = 0
utf8_bytes (c ∷ t) =
    (if ltb c 128 then 1 else if ltb c 2048 then 2 else if ltb c 65536 then 3 else 4) + utf8_bytes t

abbrev pub concat : List Text → Text
concat [] = []
concat (t ∷ ts) = t ++ concat ts

abbrev pub cut_segment : StreamState → StreamState
cut_segment s = record s {
  segment_buffer_offset = length (s.collector.buffer);
  segment_tool_count = length (s.collector.tool_calls);
}

abbrev pub send : Frame → StreamState → StreamState
send frame s = record s { frames = s.frames ++ frame ∷ [] }

-- `_flush_token_buffer`, with the frame sent.
abbrev pub flush : (pending_text : List Text) → StreamState → StreamState
flush [] s = s
flush (t ∷ ts) s = send (token (concat (t ∷ ts))) (record s { pending_text = []; pending_size = 0 })

abbrev pub flush_token_buffer : StreamState → StreamState
flush_token_buffer s = flush s.pending_text s

unfoldable pub segment_delta : StreamState → Text × List (Text × Fields)
segment_delta s = (
  drop s.segment_buffer_offset s.collector.buffer,
  drop s.segment_tool_count s.collector.tool_calls,
)

-- The body of `_persist_assistant_turn` up to the commit.
pub persist_body :
    Tx
    → Call
    → Text
    → List (Text × Fields)
    → List Attachment
    → (partial : Bool) → Option Text
    → (emit_journal : Bool) → Db
    → Message × Db
persist_body tx call text calls files partial client_id emit_journal db =
    let (ids, db1) = persist_attachments tx call.chat_id call.user_pk files db in
    let meta : Meta = record no_meta {
      partial = partial;
      calls = calls;
      upload_ids = ids;
      client_id = if partial then none else client_id;
    } in
    let (msg, db2) = append tx.now call.chat_id assistant text meta db1 in
    let payload : Payload = saved (length text) (length calls) (length ids) partial in
    (
      msg,
      if emit_journal
          then emit (if partial then turn_failed else turn_completed) call.chat_id call.user_pk
              payload db2
          else db2,
    )

abbrev pub keep_partial : StreamState → Exc ⊎ Message → Db → Option Exc × StreamState
keep_partial s (inl exc) db = (some exc, record s { db = db })
keep_partial s (inr msg) db =
    (none, cut_segment (record s { db = db; partial_msg_ids = s.partial_msg_ids ++ msg.id ∷ [] }))

-- A partial row of the segment, and a new segment behind it.
pub persist_partial :
    Tx → Call → Option Text → (emit_journal : Bool) → StreamState → Option Exc × StreamState
unfolding segment_delta persist_body
persist_partial tx call client_id emit_journal s =
    let (text, calls) = segment_delta s in
    let (r, db) =
      in_transaction tx (persist_body tx call text calls [] true client_id emit_journal) s.db in
    keep_partial s r db

-- `_persist_segment` and `_persist_visible_partial`.
pub persist_segment : Tx → Call → StreamState → Option Exc × StreamState
unfolding persist_partial
persist_segment tx call s =
    if is_nil (segment_delta s).0 then (none, s) else persist_partial tx call none false s

unfoldable pub persist_visible_partial : Tx → Call → StreamState → Option Exc × StreamState
unfolding persist_partial
persist_visible_partial tx call s =
    if is_nil (segment_delta s).0 && is_nil (segment_delta s).1
    then (none, s)
    else persist_partial tx call call.client_id true s

abbrev pub on_peek : Tx → Call → Peek → StreamState → Option Exc × StreamState
on_peek tx call (peek_raises exc) s = (some exc, s)
on_peek tx call (count cur) s =
    if leb cur s.seen_steer_count
    then (none, s)
    else persist_segment tx call (record s { seen_steer_count = cur })

pub check_steer_boundary : Arrival → Call → StreamState → Option Exc × StreamState
unfolding persist_segment
check_steer_boundary a call s =
    if is_some call.turn_id then on_peek a.tx call a.peek s else (none, s)

abbrev pub or_throws : Verdict → Option Exc × StreamState → Verdict × StreamState
or_throws v (none, s) = (v, s)
or_throws v (some exc, s) = (throws exc, s)

abbrev pub failure_of {ℓ} : {A : Type ℓ} → Exc ⊎ A → Option Exc
failure_of (inl exc) = some exc
failure_of (inr a) = none

-- `_emit_event`.
pub emit_event : Tx → Call → EventKind → Payload → StreamState → Option Exc × StreamState
emit_event tx call kind payload s =
    let (r, db) =
      in_transaction tx (λ db. (tt, emit kind call.chat_id call.user_pk payload db)) s.db in
    (failure_of r, record s { db = db })

pub on_error : Arrival → Call → Text → Option Text → StreamState → Verdict × StreamState
unfolding emit_event
on_error a call code detail s = or_throws returns (
    emit_event a.tx call turn_failed (reported code detail)
      (send (chat_event_to_pb (error_event code detail)) (flush_token_buffer s)))

pub on_done : Arrival → Call → StreamState → Verdict × StreamState
unfolding check_steer_boundary
on_done a call s = or_throws breaks (check_steer_boundary a call (flush_token_buffer s))

pub on_token : Arrival → Call → Text → StreamState → Verdict × StreamState
unfolding check_steer_boundary
on_token a call delta s =
    let waiting : StreamState = record s {
      pending_text = s.pending_text ++ delta ∷ [];
      pending_size = s.pending_size + utf8_bytes delta;
    } in
    if leb call.coalesce_bytes waiting.pending_size
    then or_throws goes_on (check_steer_boundary a call (flush_token_buffer waiting))
    else (goes_on, waiting)

pub on_other : Arrival → Call → StreamState → Verdict × StreamState
unfolding check_steer_boundary
on_other a call s =
    or_throws goes_on
      (check_steer_boundary a call (send (chat_event_to_pb a.event) (flush_token_buffer s)))

-- The `match` statement.
pub dispatch : Arrival → Call → ChatEvent → StreamState → Verdict × StreamState
unfolding on_error on_done on_token on_other
dispatch a call (error_event code detail) s = on_error a call code detail s
dispatch a call (done_event text) s = on_done a call s
dispatch a call (token_event delta) s =
    if ltb 0 call.coalesce_bytes then on_token a call delta s else on_other a call s
dispatch a call (tool_call_event name args) s = on_other a call s
dispatch a call (tool_result_event name text files e) s = on_other a call s

-- One round of the loop.
abbrev pub handle_event : Option Exc → Arrival → Call → StreamState → Verdict × StreamState
handle_event (some exc) a call s = (throws exc, s)
handle_event none a call s =
    dispatch a call a.event
      (record s { bus = s.bus ++ a.event ∷ []; collector = absorb a.event s.collector })

pub round : Arrival → Call → StreamState → Verdict × StreamState
round a call s =
    handle_event a.publish_raises a call (record s { events_count = suc (s.events_count) })

-- What the call goes on with behind a round: the rest of the loop, if the round goes on.
abbrev pub behind : Verdict → StreamState → Verdict × StreamState → Verdict × StreamState
behind goes_on s rest = rest
behind breaks s rest = (breaks, s)
behind returns s rest = (returns, s)
behind (throws exc) s rest = (throws exc, s)

-- The loop; `breaks` is also the end of the stream.
pub loop : List Arrival → Option Exc → Call → StreamState → Verdict × StreamState
unfolding round
loop [] none call s = (breaks, s)
loop [] (some exc) call s = (throws exc, s)
loop (a ∷ arrivals) ending call s =
    let (v, s') = round a call s in behind v s' (loop arrivals ending call s')
