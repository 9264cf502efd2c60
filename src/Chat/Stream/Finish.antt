-- ===== src/Chat/Stream/Finish.antt =====
-- The end of `stream_turn` (app/rpc/chat/stream.py): the handlers of its `try` statement, and the
-- completion behind it.
pub mod Returned
pub mod Saved
pub mod Broken
pub mod Examples
use codex_server.Base.{
  ℕ, Bool, false, ◌&&◌, ◌||◌, not, Option, none, some, List, [], ◌∷◌, ◌++◌, if◌then◌else◌, length,
  is_nil, ◌⊎◌, inl, inr, all,
}
use codex_server.Base.Text.{Text, codes}
use codex_server.Codex.Json.{Fields}
use codex_server.Codex.Events.{Attachment}
use codex_server.Turns.Status.{TurnStatus, completed, failed, cancelled, starting, running}
use codex_server.Turns.Table.{attach_assistant_message}
use codex_server.Chat.Frames.{Frame, done, error, MessageFrame, final_text_for_done_frame, is_space}
use codex_server.Chat.Log.{
  Message, no_meta, assistant, Meta, Db, thread_reset, turn_completed, turn_interrupted,
  turn_failed, saved, reported, reset, stream_dropped, interrupted, exc_raised, Exc,
  codex_turn_terminal, stale_turn_stream, timeout_error, cancelled_error, exception, Tx,
  persist_attachments, append, delete_many, emit, in_transaction,
}
use codex_server.Chat.Stream.{
  Call, Effect, interrupt, quarantine, attach_tts, StreamState, Arrival, Verdict, goes_on, breaks,
  returns, throws, send, or_throws, persist_visible_partial, emit_event, loop, opened,
}

-- The transactions behind the loop: the one that saves what the turn said, and the one that notes
-- how it ended.
pub record Aftermath : Type 0 where
  pub save : Tx
  pub note : Tx

-- `interrupt_best_effort` and `quarantine_thread`, which do nothing without their ids.
pub interrupts : (thread_id codex_turn_id : Option Text) → List Effect
interrupts (some thread) (some turn) =
    if is_nil thread || is_nil turn then [] else interrupt thread turn ∷ []
interrupts _ _ = []

abbrev pub interrupt_best_effort : Call → StreamState → StreamState
interrupt_best_effort call s = record s {
  effects = s.effects ++ interrupts call.thread_id call.codex_turn_id;
}

pub quarantines : (thread_id : Option Text) → List Effect
quarantines none = []
quarantines (some thread) = if is_nil thread then [] else quarantine thread ∷ []

abbrev pub quarantine_thread : Call → StreamState → StreamState
quarantine_thread call s = record s { effects = s.effects ++ quarantines call.thread_id }

abbrev pub attach : Option ℕ → (message_id : ℕ) → Db → Db
attach none message_id db = db
attach (some turn_id) message_id db = record db {
  turns = attach_assistant_message turn_id message_id db.turns;
}

-- The body of `_finalize_turn_persist` up to the commit.
pub finalize_body :
    Tx
    → Call
    → Text
    → List (Text × Fields)
    → List Attachment
    → (partial_msg_ids : List ℕ) → Db
    → Message × Db
finalize_body tx call text calls files partials db =
    let (ids, db1) = persist_attachments tx call.chat_id call.user_pk files db in
    let meta : Meta = record no_meta {
      partial = false;
      calls = calls;
      upload_ids = ids;
      client_id = call.client_id;
    } in
    let (msg, db2) = append tx.now call.chat_id assistant text meta db1 in
    (
      msg,
      emit turn_completed call.chat_id call.user_pk
          (saved (length text) (length calls) (length ids) false)
          (delete_many partials (attach call.turn_id msg.id db2)),
    )

abbrev pub or_text : Text → Text → Text
or_text t u = if is_nil t then u else t

abbrev pub clear_partials : StreamState → Exc ⊎ Message → Db → (Exc ⊎ Message) × StreamState
clear_partials s (inl exc) db = (inl exc, record s { db = db })
clear_partials s (inr msg) db = (inr msg, record s { db = db; partial_msg_ids = [] })

-- `_finalize_turn_persist` of what the collector has, with `partial_msg_ids.clear()`.
pub finalize_turn_persist : Tx → Call → StreamState → (Exc ⊎ Message) × StreamState
unfolding finalize_body
finalize_turn_persist tx call s =
    let c = s.collector in
    let (r, db) =
      in_transaction tx
        (finalize_body tx call (or_text c.final_text c.buffer) c.tool_calls c.attachments
          s.partial_msg_ids)
        s.db in
    clear_partials s r db

abbrev pub message_to_pb : Message → MessageFrame
message_to_pb m = record { id = m.id; text = m.text }

abbrev pub status_value : TurnStatus → Text
status_value starting = codes "STARTING"
status_value running = codes "RUNNING"
status_value completed = codes "COMPLETED"
status_value failed = codes "FAILED"
status_value cancelled = codes "CANCELLED"

-- `exc.detail or exc.status.value`.
abbrev pub raw_status : TurnStatus → Option Text → Text
raw_status status none = status_value status
raw_status status (some detail) = or_text detail (status_value status)

-- What has a final event behind it: the verdict of the statement before decides.
abbrev pub then_send : Frame → Option Exc × StreamState → Verdict × StreamState
then_send frame (none, s) = (returns, send frame s)
then_send frame (some exc, s) = (throws exc, s)

abbrev pub then_done : Call → Text → (Exc ⊎ Message) × StreamState → Verdict × StreamState
then_done call text (inl exc, s) = (throws exc, s)
then_done call text (inr msg, s) =
    (returns, send (done call.chat_id text (some (message_to_pb msg))) s)

-- `has_content` of `_event_from_probe_terminal`.
abbrev pub has_content : StreamState → Bool
has_content s =
    let c = s.collector in
    not (is_nil (or_text c.final_text c.buffer))
    || (not (is_nil c.tool_calls) || not (is_nil c.attachments))

-- `_event_from_probe_terminal` for a completed turn, and for another; with the event sent.
pub probe_completed : Aftermath → Call → StreamState → Verdict × StreamState
unfolding finalize_turn_persist
probe_completed after call s =
    let c = s.collector in
    let text = final_text_for_done_frame (or_text c.final_text c.buffer) c.buffer in
    if has_content s
    then then_done call text (finalize_turn_persist after.save call s)
    else (returns, send (done call.chat_id text none) s)

pub probe_terminal :
    Aftermath → Call → TurnStatus → (raw : Text) → StreamState → Verdict × StreamState
unfolding probe_completed
probe_terminal after call completed raw s = probe_completed after call s
probe_terminal after call _ raw s =
    then_send (error (codes "codex_reported_" ++ raw) (some raw))
      (persist_visible_partial after.save call s)

-- A verdict with `_emit_event` behind it, if the statements before have not raised.
abbrev pub then_note :
    (StreamState → Option Exc × StreamState) → Verdict × StreamState → Verdict × StreamState
then_note emits (throws exc, s) = (throws exc, s)
then_note emits (v, s) = or_throws v (emits s)

pub on_stale : Aftermath → Call → StreamState → Verdict × StreamState
on_stale after call s = then_note (emit_event after.note call thread_reset reset) (
    then_send (error (codes "turn_timeout") (some (codes "stale-turn-notifications"))) (
      persist_visible_partial after.save call
        (quarantine_thread call (interrupt_best_effort call s))))

pub on_timeout : Aftermath → Call → StreamState → Verdict × StreamState
on_timeout after call s =
    then_note
      (emit_event after.note call turn_failed
        (reported (codes "turn_timeout") (some call.idle_detail)))
      (then_send (error (codes "turn_timeout") (some call.idle_detail)) (
        persist_visible_partial after.save call
          (quarantine_thread call (interrupt_best_effort call s))))

abbrev pub then_cancelled : Aftermath → Call → Option Exc × StreamState → Verdict × StreamState
then_cancelled after call (some exc, s) = (throws exc, s)
then_cancelled after call (none, s) =
    or_throws (throws cancelled_error)
      (emit_event after.note call turn_interrupted (interrupted (length (s.collector.buffer))) s)

pub on_cancelled : Aftermath → Call → StreamState → Verdict × StreamState
on_cancelled after call s =
    then_cancelled after call
      (persist_visible_partial after.save call (interrupt_best_effort call s))

-- The handlers of the `try` statement.
pub handle_exception : Aftermath → Call → Exc → StreamState → Verdict × StreamState
unfolding probe_terminal on_stale on_timeout on_cancelled
handle_exception after call (codex_turn_terminal status detail) s =
    probe_terminal after call status (raw_status status detail) s
handle_exception after call stale_turn_stream s = on_stale after call s
handle_exception after call timeout_error s = on_timeout after call s
handle_exception after call cancelled_error s = on_cancelled after call s
handle_exception after call (exception exc_type text) s = or_throws returns (
    emit_event after.note call turn_failed (exc_raised exc_type)
      (send (error (codes "codex_error") (some text)) s))

-- The speech of a saved answer is left to a task.
abbrev pub speak : Call → (Exc ⊎ Message) × StreamState → (Exc ⊎ Message) × StreamState
speak call (inl exc, s) = (inl exc, s)
speak call (inr msg, s) = (
  inr msg,
  if call.voice_reply && not (all is_space (s.collector.final_text))
      then record s { effects = s.effects ++ attach_tts msg.id (s.collector.final_text) ∷ [] }
      else s,
)

-- Behind the loop.
pub complete : Aftermath → Call → StreamState → Verdict × StreamState
unfolding finalize_turn_persist
complete after call s =
    let c = s.collector in
    if c.done_seen
    then then_done call (final_text_for_done_frame c.final_text c.buffer)
        (speak call (finalize_turn_persist after.save call s))
    else or_throws returns (
        emit_event after.note call turn_failed stream_dropped (
          send
            (error (codes "stream_dropped") (some (codes "Codex stream ended without completion")))
            s))

pub settle : Aftermath → Call → Verdict × StreamState → Verdict × StreamState
unfolding handle_exception complete
settle after call (throws exc, s) = handle_exception after call exc s
settle after call (returns, s) = (returns, s)
settle after call (breaks, s) = complete after call s
settle after call (goes_on, s) = complete after call s

-- The whole call: `returns`, or the exception that the caller gets.
pub stream_turn : List Arrival → Option Exc → Aftermath → Call → Db → Verdict × StreamState
unfolding loop settle
stream_turn arrivals ending after call db =
    settle after call (loop arrivals ending call (opened db))
