-- ===== src/Chat/Stream/Finish/Returned.antt =====
-- A call of `stream_turn` that returns has told its client how the turn ended.
use codex_server.Base.{
  all, not, ◌&&◌, ℕ, ◌+◌, ◌≤◌, ◌≡◌, refl, sym, ◌∙◌, Bool, true, false, Option, none, some, List, [],
  ◌∷◌, ◌++◌, arith, inl, inr, ◌⊎◌, if◌then◌else◌, All,
}
use mathlib.Core.Path.{subst}
use codex_server.Base.Text.{Text, codes}
use codex_server.Turns.Status.{completed, starting, running, failed, cancelled}
use codex_server.Chat.Frames.{is_space, Frame, done, final_text_for_done_frame, error}
use codex_server.Chat.Log.{
  codex_turn_terminal, stale_turn_stream, timeout_error, cancelled_error, exception, turn_failed,
  thread_reset, reset, stream_dropped, exc_raised, Message, Db, Exc, EventKind, Payload, Tx,
  cancelled_error, turn_interrupted, in_transaction, codex_turn_terminal, turn_failed,
}
use codex_server.Chat.Stream.{
  send, loop, opened, Effect, attach_tts, Call, StreamState, Verdict, goes_on, breaks, returns,
  throws, or_throws, emit_event, persist_visible_partial, Arrival, send, loop,
}
use codex_server.Chat.Stream.Wire.{Wire, wire, wire-persist_visible_partial, wire-emit_event}
use codex_server.Chat.Stream.Final.{
  is_final, ends_final, finals, ends_final-append, finals-append, Shape, Fits, loop-Shape,
}
use codex_server.Chat.Stream.Finish.{
  Aftermath, clear_partials, finalize_turn_persist, finalize_body, then_done, then_send, then_note,
  then_cancelled, speak, or_text, message_to_pb, probe_terminal, handle_exception, complete, settle,
  stream_turn, probe_completed, on_stale, TurnStatus, on_timeout, has_content, on_cancelled,
  raw_status, interrupt_best_effort,
}

wire-clear_partials :
    (s : StreamState) (r : Exc ⊎ Message) (db : Db) → wire (clear_partials s r db).1 ≡ wire s
wire-clear_partials s (inl exc) db = refl
wire-clear_partials s (inr msg) db = refl

wire-finalize_turn_persist :
    (tx : Tx) (call : Call) (s : StreamState) → wire (finalize_turn_persist tx call s).1 ≡ wire s
unfolding finalize_turn_persist
wire-finalize_turn_persist tx call s =
    let c = s.collector in
    let (r, db) =
      in_transaction tx
        (finalize_body tx call (or_text c.final_text c.buffer) c.tool_calls c.attachments
          s.partial_msg_ids)
        s.db in
    wire-clear_partials s r db

spoken :
    (b : Bool) (s : StreamState) (e : List Effect)
    → wire (if b then record s { effects = e } else s) ≡ wire s
spoken true s e = refl
spoken false s e = refl

wire-speak : (call : Call) (r : (Exc ⊎ Message) × StreamState) → wire (speak call r).1 ≡ wire r.1
wire-speak call (inl exc, s) = refl
wire-speak call (inr msg, s) =
    spoken (call.voice_reply && not (all is_space (s.collector.final_text))) s
      (s.effects ++ attach_tts msg.id (s.collector.final_text) ∷ [])

module _ (k : ℕ) where
  abbrev pub End : Verdict → Wire → Type 0
  End returns w = (ends_final w.frames ≡ true) × (finals w.frames ≤ 1 + k)
  End (throws exc) w = Unit
  End _ w = ⊥

  close-End :
      (f : Frame) (w : Wire)
      → is_final f ≡ true
      → finals w.frames ≤ k
      → End returns (record w { frames = w.frames ++ f ∷ [] })
  close-End f w e h = (ends_final-append w.frames f ∙ e, ground (arith, finals-append w.frames f))

  or_throws-End :
      (v : Verdict) (r : Option Exc × StreamState) (w : Wire)
      → wire r.1 ≡ w
      → End v w
      → End (or_throws v r).0 (wire (or_throws v r).1)
  or_throws-End v (none, s) w e h = subst (End v) (sym e) h
  or_throws-End v (some exc, s) w e h = tt

  then_send-End :
      (f : Frame) (r : Option Exc × StreamState) (w : Wire)
      → is_final f ≡ true
      → wire r.1 ≡ w
      → finals w.frames ≤ k
      → End (then_send f r).0 (wire (then_send f r).1)
  then_send-End f (none, s) w h e b =
      close-End f (wire s) h (subst (λ w. finals w.frames ≤ k) (sym e) b)
  then_send-End f (some exc, s) w h e b = tt

  then_note-End :
      (tx : Tx) (call : Call) (kind : EventKind) (p : Payload) (r : Verdict × StreamState)
      → End r.0 (wire r.1)
      → End
          (then_note (emit_event tx call kind p) r).0
          (wire (then_note (emit_event tx call kind p) r).1)
  then_note-End tx call kind p (throws exc, s) h = tt
  then_note-End tx call kind p (returns, s) h =
      or_throws-End returns (emit_event tx call kind p s) (wire s)
        (wire-emit_event tx call kind p s) h
  then_note-End tx call kind p (goes_on, s) h =
      or_throws-End goes_on (emit_event tx call kind p s) (wire s)
        (wire-emit_event tx call kind p s) h
  then_note-End tx call kind p (breaks, s) h =
      or_throws-End breaks (emit_event tx call kind p s) (wire s) (wire-emit_event tx call kind p s)
        h

  then_done-End :
      (call : Call) (text : Text) (r : (Exc ⊎ Message) × StreamState) (w : Wire)
      → wire r.1 ≡ w
      → finals w.frames ≤ k
      → End (then_done call text r).0 (wire (then_done call text r).1)
  then_done-End call text (inl exc, s) w e b = tt
  then_done-End call text (inr msg, s) w e b =
      close-End (done call.chat_id text (some (message_to_pb msg))) (wire s) refl
        (subst (λ w. finals w.frames ≤ k) (sym e) b)

  if-End :
      (b : Bool) (x y : Verdict × StreamState)
      → End x.0 (wire x.1)
      → End y.0 (wire y.1)
      → End (if b then x else y).0 (wire (if b then x else y).1)
  if-End true x y p q = p
  if-End false x y p q = q

  failed-End :
      (after : Aftermath) (call : Call) (f : Frame) (s : StreamState)
      → is_final f ≡ true
      → finals s.frames ≤ k
      → End
          (then_send f (persist_visible_partial after.save call s)).0
          (wire (then_send f (persist_visible_partial after.save call s)).1)
  failed-End after call f s h b =
      then_send-End f (persist_visible_partial after.save call s) (wire s) h
        (wire-persist_visible_partial after.save call s) b

  cancelled-End :
      (after : Aftermath) (call : Call) (r : Option Exc × StreamState)
      → End (then_cancelled after call r).0 (wire (then_cancelled after call r).1)
  cancelled-End after call (some exc, s) = tt
  cancelled-End after call (none, s) =
      or_throws-End (throws cancelled_error) (emit_event after.note call turn_interrupted _ s)
        (wire s) (wire-emit_event after.note call turn_interrupted _ s) tt

  probe-End :
      (after : Aftermath) (call : Call) (status : TurnStatus) (raw : Text) (s : StreamState)
      → finals s.frames ≤ k
      → End
          (probe_terminal after call status raw s).0
          (wire (probe_terminal after call status raw s).1)
  unfolding probe_terminal probe_completed
  probe-End after call completed raw s b =
      let c = s.collector in
      let text = final_text_for_done_frame (or_text c.final_text c.buffer) c.buffer in
      let r = finalize_turn_persist after.save call s in
      if-End (has_content s) (then_done call text r) (returns, send (done call.chat_id text none) s)
        (then_done-End call text r (wire s) (wire-finalize_turn_persist after.save call s) b)
        (close-End (done call.chat_id text none) (wire s) refl b)
  probe-End after call starting raw s b = failed-End after call _ s refl b
  probe-End after call running raw s b = failed-End after call _ s refl b
  probe-End after call failed raw s b = failed-End after call _ s refl b
  probe-End after call cancelled raw s b = failed-End after call _ s refl b

  handle-End :
      (after : Aftermath) (call : Call) (exc : Exc) (s : StreamState)
      → finals s.frames ≤ k
      → End (handle_exception after call exc s).0 (wire (handle_exception after call exc s).1)
  unfolding handle_exception on_stale on_timeout on_cancelled
  handle-End after call (codex_turn_terminal status detail) s b =
      probe-End after call status (raw_status status detail) s b
  handle-End after call stale_turn_stream s b =
      then_note-End after.note call thread_reset reset _ (failed-End after call _ _ refl b)
  handle-End after call timeout_error s b =
      then_note-End after.note call turn_failed _ _ (failed-End after call _ _ refl b)
  handle-End after call cancelled_error s b =
      cancelled-End after call
        (persist_visible_partial after.save call (interrupt_best_effort call s))
  handle-End after call (exception exc_type text) s b =
      let f = error (codes "codex_error") (some text) in
      or_throws-End returns
        (emit_event after.note call turn_failed (exc_raised exc_type) (send f s)) (wire (send f s))
        (wire-emit_event after.note call turn_failed (exc_raised exc_type) (send f s))
        (close-End f (wire s) refl b)

  complete-End :
      (after : Aftermath) (call : Call) (s : StreamState)
      → finals s.frames ≤ k
      → End (complete after call s).0 (wire (complete after call s).1)
  unfolding complete
  complete-End after call s b =
      let c = s.collector in
      let text = final_text_for_done_frame c.final_text c.buffer in
      let r = finalize_turn_persist after.save call s in
      let f =
        error (codes "stream_dropped") (some (codes "Codex stream ended without completion")) in
      if-End (c.done_seen) (then_done call text (speak call r))
        (or_throws returns (emit_event after.note call turn_failed stream_dropped (send f s)))
        (then_done-End call text (speak call r) (wire s)
          (wire-speak call r ∙ wire-finalize_turn_persist after.save call s) b)
        (or_throws-End returns (emit_event after.note call turn_failed stream_dropped (send f s))
          (wire (send f s)) (wire-emit_event after.note call turn_failed stream_dropped (send f s))
          (close-End f (wire s) refl b))

  conclude-End :
      (after : Aftermath) (call : Call) (v : Verdict) (s : StreamState)
      → Shape k v (wire s)
      → End (settle after call (v, s)).0 (wire (settle after call (v, s)).1)
  unfolding settle
  conclude-End after call (throws exc) s h = handle-End after call exc s h
  conclude-End after call returns s (e, h) = (e, omega arith)
  conclude-End after call breaks s h = complete-End after call s (omega arith)
  conclude-End after call goes_on s h = complete-End after call s (omega arith)

  pub stream_turn-End :
      (arrivals : List Arrival) (ending : Option Exc) (after : Aftermath) (call : Call) (db : Db)
      → All (Fits k) arrivals
      → End
          (stream_turn arrivals ending after call db).0
          (wire (stream_turn arrivals ending after call db).1)
  unfolding stream_turn
  stream_turn-End arrivals ending after call db q =
      let (v, s) = loop arrivals ending call (opened db) in
      conclude-End after call v s (loop-Shape k call arrivals ending db q)

some_final : (fs : List Frame) → ends_final fs ≡ true → 1 ≤ finals fs
some_final [] e = cc
some_final (f ∷ []) e = ground arith
some_final (f ∷ (g ∷ fs)) e = omega (arith, some_final (g ∷ fs) e)

fine-Fits :
    (arrivals : List Arrival) → All (λ a. a.tx.failure ≡ none) arrivals → All (Fits 0) arrivals
fine-Fits [] q = tt
fine-Fits (a ∷ arrivals) (q, qs) = (inl q, fine-Fits arrivals qs)

returned-final :
    (v : Verdict) (w : Wire)
    → End 0 v w
    → v ≡ returns
    → (ends_final w.frames ≡ true) × (finals w.frames ≡ 1)
returned-final returns w (e, h) eq = (e, omega (arith, some_final w.frames e))
returned-final (throws exc) w h eq = cc
returned-final breaks w h eq = absurd h
returned-final goes_on w h eq = absurd h

-- A call of `stream_turn` that returns, and in which no transaction fails while an event of Codex is
-- handled, has sent its client exactly one final frame (`done` or `error`), as the last frame,
-- whatever Codex sends and however its stream ends.
pub stream_turn-final :
    (arrivals : List Arrival) (ending : Option Exc) (after : Aftermath) (call : Call) (db : Db)
    → All (λ a. a.tx.failure ≡ none) arrivals
    → (stream_turn arrivals ending after call db).0 ≡ returns
    → let s = (stream_turn arrivals ending after call db).1 in
      (ends_final s.frames ≡ true) × (finals s.frames ≡ 1)
stream_turn-final arrivals ending after call db q e =
    let (v, s) = stream_turn arrivals ending after call db in
    returned-final v (wire s)
      (stream_turn-End 0 arrivals ending after call db (fine-Fits arrivals q)) e
