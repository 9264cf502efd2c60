-- ===== src/Chat/Stream/Final.antt =====
-- The final frame of a call of `stream_turn`.
use codex_server.Base.{
  ℕ, suc, ◌+◌, ◌≤◌, ◌≡◌, refl, sym, ap, ◌∙◌, Bool, true, false, Option, none, some, List, [], ◌∷◌,
  ◌++◌, arith, inl, inr, ◌⊎◌, All, leb, ltb, count, count-append, if◌then◌else◌,
}
use mathlib.Core.Path.{subst}
use codex_server.Base.Text.{Text}
use codex_server.Codex.Events.{
  ChatEvent, token_event, tool_call_event, tool_result_event, done_event, error_event,
}
use codex_server.Chat.Frames.{
  Frame, token, tool_call, tool_result_frame, done, error, chat_event_to_pb,
}
use codex_server.Codex.Collector.{absorb}
use codex_server.Chat.Stream.Rounds.{loop-P}
use codex_server.Chat.Log.{turn_failed, reported, Db, Exc, EventKind, Payload, Tx, transact}
use codex_server.Chat.Stream.{
  utf8_bytes, opened, loop, Call, StreamState, Arrival, Verdict, goes_on, breaks, returns, throws,
  concat, flush, send, or_throws, emit_event, failure_of, check_steer_boundary, on_error, on_done,
  on_token, on_other, dispatch, handle_event, round,
}
use codex_server.Chat.Stream.Wire.{Wire, wire, wire-check_steer_boundary, wire-emit_event}

abbrev pub is_final : Frame → Bool
is_final (token delta) = false
is_final (tool_call name args) = false
is_final (tool_result_frame name text files e) = false
is_final (done chat_id text m) = true
is_final (error code detail) = true

-- The last frame is a final one.
abbrev pub ends_final : List Frame → Bool
ends_final [] = false
ends_final (f ∷ []) = is_final f
ends_final (f ∷ (g ∷ fs)) = ends_final (g ∷ fs)

abbrev pub finals : List Frame → ℕ
finals = count is_final

pub ends_final-append : (fs : List Frame) (f : Frame) → ends_final (fs ++ f ∷ []) ≡ is_final f
ends_final-append [] f = refl
ends_final-append (g ∷ []) f = refl
ends_final-append (g ∷ (h ∷ fs)) f = ends_final-append (h ∷ fs) f

pub finals-append :
    (fs : List Frame) (f : Frame)
    → finals (fs ++ f ∷ []) ≡ finals fs + (if is_final f then 1 else 0)
finals-append fs f = omega (arith, count-append is_final fs (f ∷ []))

-- What the frames are with a verdict: `k` bounds the final frames of an exception.
abbrev pub Shape : (k : ℕ) → Verdict → Wire → Type 0
Shape k goes_on w = finals w.frames ≡ 0
Shape k breaks w = finals w.frames ≡ 0
Shape k returns w = (ends_final w.frames ≡ true) × (finals w.frames ≡ 1)
Shape k (throws exc) w = finals w.frames ≤ k

pub or_throws-Shape :
    (k : ℕ) (v : Verdict) (r : Option Exc × StreamState) (w : Wire)
    → wire r.1 ≡ w
    → Shape k v w
    → (r.0 ≡ none) ⊎ (finals w.frames ≤ k)
    → Shape k (or_throws v r).0 (wire (or_throws v r).1)
or_throws-Shape k v (none, s) w e h b = subst (λ w. Shape k v w) (sym e) h
or_throws-Shape k v (some exc, s) w e h (inl b) = cc
or_throws-Shape k v (some exc, s) w e h (inr b) = subst (λ w. finals w.frames ≤ k) (sym e) b

finals-flush : (ts : List Text) (s : StreamState) → finals (flush ts s).frames ≡ finals s.frames
finals-flush [] s = refl
finals-flush (t ∷ ts) s = omega (arith, finals-append s.frames (token (concat (t ∷ ts))))

transact-failure :
    {A : Type 0} (f : Option Exc) (body : Db → A × Db) (db : Db)
    → f ≡ none
    → failure_of (transact f body db).0 ≡ none
transact-failure none body db e = refl
transact-failure (some exc) body db e = cc

pub emit_event-fine :
    (tx : Tx) (call : Call) (kind : EventKind) (payload : Payload) (s : StreamState)
    → tx.failure ≡ none
    → (emit_event tx call kind payload s).0 ≡ none
unfolding emit_event
emit_event-fine tx call kind payload s e = transact-failure tx.failure _ s.db e

module _ (k : ℕ) where
  -- The transaction of an arrival goes through, or one final frame is let pass.
  abbrev pub Fits : Arrival → Type 0
  Fits a = (a.tx.failure ≡ none) ⊎ (1 ≤ k)

  check-Shape :
      (a : Arrival) (call : Call) (v : Verdict) (s : StreamState)
      → finals s.frames ≡ 0
      → Shape k v (wire s)
      → Shape k
          (or_throws v (check_steer_boundary a call s)).0
          (wire (or_throws v (check_steer_boundary a call s)).1)
  check-Shape a call v s e h =
      or_throws-Shape k v (check_steer_boundary a call s) (wire s)
        (wire-check_steer_boundary a call s) h (inr (omega arith))

  error-Shape :
      (a : Arrival) (call : Call) (code : Text) (detail : Option Text) (s : StreamState)
      → finals s.frames ≡ 0
      → Fits a
      → Shape k (on_error a call code detail s).0 (wire (on_error a call code detail s).1)
  unfolding on_error chat_event_to_pb
  error-Shape a call code detail s e q =
      let sent = send (chat_event_to_pb (error_event code detail)) (flush s.pending_text s) in
      let kept = finals-flush s.pending_text s in
      let fs = (flush s.pending_text s).frames in
      let f = chat_event_to_pb (error_event code detail) in
      let r = emit_event a.tx call turn_failed (reported code detail) sent in
      let one : finals (fs ++ f ∷ []) ≡ 1 = omega (arith, finals-append fs f) in
      or_throws-Shape k returns r (wire sent)
        (wire-emit_event a.tx call turn_failed (reported code detail) sent)
        (ends_final-append fs f, one)
        (elim q [
          | inl fine ↦ inl (emit_event-fine a.tx call turn_failed (reported code detail) sent fine)
          | inr room ↦ inr (omega arith)
        ])

  if-Shape :
      (b : Bool) (x y : Verdict × StreamState)
      → Shape k x.0 (wire x.1)
      → Shape k y.0 (wire y.1)
      → Shape k (if b then x else y).0 (wire (if b then x else y).1)
  if-Shape true x y p q = p
  if-Shape false x y p q = q

  other-Shape :
      (a : Arrival) (call : Call) (s : StreamState)
      → is_final (chat_event_to_pb a.event) ≡ false
      → finals s.frames ≡ 0
      → Shape k (on_other a call s).0 (wire (on_other a call s).1)
  unfolding on_other
  other-Shape a call s f e =
      let fs = (flush s.pending_text s).frames in
      let sent = send (chat_event_to_pb a.event) (flush s.pending_text s) in
      let none_sent : finals sent.frames ≡ 0 =
        ground
          (arith, finals-append fs (chat_event_to_pb a.event), finals-flush s.pending_text s) in
      check-Shape a call goes_on sent none_sent none_sent

  token-Shape :
      (a : Arrival) (call : Call) (delta : Text) (s : StreamState)
      → finals s.frames ≡ 0
      → Shape k (on_token a call delta s).0 (wire (on_token a call delta s).1)
  unfolding on_token
  token-Shape a call delta s e =
      let ts = s.pending_text ++ delta ∷ [] in
      let size = s.pending_size + utf8_bytes delta in
      let waiting : StreamState = record s { pending_text = ts; pending_size = size } in
      let kept : finals (flush ts waiting).frames ≡ 0 = finals-flush ts waiting ∙ e in
      if-Shape (leb call.coalesce_bytes size)
        (or_throws goes_on (check_steer_boundary a call (flush ts waiting))) (goes_on, waiting)
        (check-Shape a call goes_on (flush ts waiting) kept kept) e

  done-Shape :
      (a : Arrival) (call : Call) (s : StreamState)
      → finals s.frames ≡ 0
      → Shape k (on_done a call s).0 (wire (on_done a call s).1)
  unfolding on_done
  done-Shape a call s e =
      let kept = finals-flush s.pending_text s ∙ e in
      check-Shape a call breaks (flush s.pending_text s) kept kept

  dispatch-Shape :
      (a : Arrival) (call : Call) (ev : ChatEvent) (s : StreamState)
      → a.event ≡ ev
      → Fits a
      → finals s.frames ≡ 0
      → Shape k (dispatch a call ev s).0 (wire (dispatch a call ev s).1)
  unfolding dispatch chat_event_to_pb
  dispatch-Shape a call (error_event code detail) s h q e = error-Shape a call code detail s e q
  dispatch-Shape a call (done_event text) s h q e = done-Shape a call s e
  dispatch-Shape a call (token_event delta) s h q e =
      if-Shape (ltb 0 call.coalesce_bytes) (on_token a call delta s) (on_other a call s)
        (token-Shape a call delta s e)
        (other-Shape a call s (ap (λ x. is_final (chat_event_to_pb x)) h) e)
  dispatch-Shape a call (tool_call_event name args) s h q e =
      other-Shape a call s (ap (λ x. is_final (chat_event_to_pb x)) h) e
  dispatch-Shape a call (tool_result_event name text files x) s h q e =
      other-Shape a call s (ap (λ x. is_final (chat_event_to_pb x)) h) e

  pub round-Shape :
      (call : Call) (a : Arrival) (s : StreamState)
      → Fits a
      → Shape k goes_on (wire s)
      → Shape k (round a call s).0 (wire (round a call s).1)
  unfolding round
  round-Shape call a s q e = go a.publish_raises
    where
      counted : StreamState
      counted = record s { events_count = suc (s.events_count) }

      go :
          (o : Option Exc)
          → Shape k (handle_event o a call counted).0 (wire (handle_event o a call counted).1)
      go none =
          dispatch-Shape a call a.event
            (record counted { bus = s.bus ++ a.event ∷ []; collector = absorb a.event s.collector })
            refl q e
      go (some exc) = omega arith

  pub loop-Shape :
      (call : Call) (arrivals : List Arrival) (ending : Option Exc) (db : Db)
      → All Fits arrivals
      → Shape k
          (loop arrivals ending call (opened db)).0
          (wire (loop arrivals ending call (opened db)).1)
  loop-Shape call arrivals ending db q =
      loop-P (λ v s. Shape k v (wire s)) Fits call (round-Shape call) (λ s e. e)
        (λ exc s e. omega arith) arrivals ending (opened db) q refl
