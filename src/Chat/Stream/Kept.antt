-- ===== src/Chat/Stream/Kept.antt =====
-- What a call of `stream_turn` leaves in the table of messages: the answer alone, or, where it has
-- been broken off, all of the text so far in partial rows.
use codex_server.Base.{
  suc, ◌+◌, ◌≡◌, refl, sym, Bool, true, false, Option, none, some, List, [], ◌∷◌, ◌++◌, arith, leb,
  ltb, if◌then◌else◌,
}
use mathlib.Core.Path.{subst}
use mathlib.Core.List.{append-nil}
use codex_server.Base.Text.{Text}
use codex_server.Codex.Events.{
  ChatEvent, token_event, tool_call_event, tool_result_event, done_event, error_event,
}
use codex_server.Codex.Collector.{absorb}
use codex_server.Chat.Frames.{chat_event_to_pb}
use codex_server.Chat.Log.{Db, Exc, reported, turn_failed}
use codex_server.Chat.Log.Rows.{Rows, rows}
use codex_server.Chat.Stream.{
  Call, StreamState, Arrival, Verdict, goes_on, breaks, returns, flush, send, or_throws, emit_event,
  check_steer_boundary, on_error, on_done, on_token, on_other, dispatch, handle_event, round, loop,
  opened, utf8_bytes,
}
use codex_server.Chat.Stream.Rounds.{loop-P, Any, each-Any}
use codex_server.Chat.Stream.Segments.{absorb-IsCut, check-IsCut}
use codex_server.Chat.Stream.Cut.{log, log-emit_event, IsCut, log-flush}

module _ (start : Rows) where
  abbrev Keeps : Verdict × StreamState → Type 0
  Keeps r = IsCut start (log r.1)

  flush-IsCut :
      (ts : List Text) (s : StreamState) → IsCut start (log s) → IsCut start (log (flush ts s))
  flush-IsCut ts s h = subst (IsCut start) (sym (log-flush ts s)) h

  other-IsCut :
      (a : Arrival) (call : Call) (s : StreamState)
      → IsCut start (log s)
      → Keeps (on_other a call s)
  unfolding on_other
  other-IsCut a call s h =
      check-IsCut start a call goes_on (send (chat_event_to_pb a.event) (flush s.pending_text s))
        (flush-IsCut s.pending_text s h)

  done-IsCut :
      (a : Arrival) (call : Call) (s : StreamState) → IsCut start (log s) → Keeps (on_done a call s)
  unfolding on_done
  done-IsCut a call s h =
      check-IsCut start a call breaks (flush s.pending_text s) (flush-IsCut s.pending_text s h)

  or_throws-IsCut :
      (v : Verdict) (r : Option Exc × StreamState) (s : StreamState)
      → log r.1 ≡ log s
      → IsCut start (log s)
      → Keeps (or_throws v r)
  or_throws-IsCut v (none, s') s e h = subst (IsCut start) (sym e) h
  or_throws-IsCut v (some exc, s') s e h = subst (IsCut start) (sym e) h

  error-IsCut :
      (a : Arrival) (call : Call) (code : Text) (detail : Option Text) (s : StreamState)
      → IsCut start (log s)
      → Keeps (on_error a call code detail s)
  unfolding on_error
  error-IsCut a call code detail s h =
      let sent = send (chat_event_to_pb (error_event code detail)) (flush s.pending_text s) in
      or_throws-IsCut returns (emit_event a.tx call turn_failed (reported code detail) sent) sent
        (log-emit_event a.tx call turn_failed (reported code detail) sent)
        (flush-IsCut s.pending_text s h)

  if-Keeps :
      (b : Bool) (x y : Verdict × StreamState) → Keeps x → Keeps y → Keeps (if b then x else y)
  if-Keeps true x y p q = p
  if-Keeps false x y p q = q

  token-IsCut :
      (a : Arrival) (call : Call) (delta : Text) (s : StreamState)
      → IsCut start (log s)
      → Keeps (on_token a call delta s)
  unfolding on_token
  token-IsCut a call delta s h =
      let ts = s.pending_text ++ delta ∷ [] in
      let size = s.pending_size + utf8_bytes delta in
      let waiting : StreamState = record s { pending_text = ts; pending_size = size } in
      if-Keeps (leb call.coalesce_bytes size)
        (or_throws goes_on (check_steer_boundary a call (flush ts waiting))) (goes_on, waiting)
        (check-IsCut start a call goes_on (flush ts waiting) (flush-IsCut ts waiting h)) h

  dispatch-IsCut :
      (a : Arrival) (call : Call) (e : ChatEvent) (s : StreamState)
      → IsCut start (log s)
      → Keeps (dispatch a call e s)
  unfolding dispatch
  dispatch-IsCut a call (error_event code detail) s h = error-IsCut a call code detail s h
  dispatch-IsCut a call (done_event text) s h = done-IsCut a call s h
  dispatch-IsCut a call (token_event delta) s h =
      if-Keeps (ltb 0 call.coalesce_bytes) (on_token a call delta s) (on_other a call s)
        (token-IsCut a call delta s h) (other-IsCut a call s h)
  dispatch-IsCut a call (tool_call_event name args) s h = other-IsCut a call s h
  dispatch-IsCut a call (tool_result_event name text files e) s h = other-IsCut a call s h

  published-IsCut :
      (o : Option Exc) (a : Arrival) (call : Call) (s : StreamState)
      → IsCut start (log s)
      → Keeps (handle_event o a call s)
  published-IsCut (some exc) a call s h = h
  published-IsCut none a call s h =
      dispatch-IsCut a call a.event
        (record s { bus = s.bus ++ a.event ∷ []; collector = absorb a.event s.collector })
        (absorb-IsCut start a.event s (s.bus ++ a.event ∷ []) h)

  round-IsCut :
      (a : Arrival) (call : Call) (s : StreamState) → IsCut start (log s) → Keeps (round a call s)
  unfolding round
  round-IsCut a call s h =
      published-IsCut a.publish_raises a call (record s { events_count = suc (s.events_count) }) h

pub loop-IsCut :
    (arrivals : List Arrival) (ending : Option Exc) (call : Call) (db : Db)
    → IsCut (rows db) (log (loop arrivals ending call (opened db)).1)
loop-IsCut arrivals ending call db =
    loop-P (λ v s. IsCut (rows db) (log s)) Any call (λ a s q h. round-IsCut (rows db) a call s h)
      (λ s h. h) (λ exc s h. h) arrivals ending (opened db) (each-Any arrivals)
      ([], sym (append-nil db.messages), refl, refl, tt, omega arith, tt, omega arith)
