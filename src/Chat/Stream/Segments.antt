-- ===== src/Chat/Stream/Segments.antt =====
-- The partial rows of a call of `stream_turn`: one behind another they are the text so far.
use codex_server.Base.{
  length-append, ◌≡◌, refl, sym, ap, ◌∙◌, Bool, true, false, Option, none, some, List, [], ◌∷◌,
  ◌++◌, arith, leb, if◌then◌else◌, take, drop, length, take-append-drop, is_nil, is_some,
  length-append,
}
use mathlib.Core.Path.{subst}
use mathlib.Core.List.{append_assoc, append-nil}
use codex_server.Base.Text.{Text}
use codex_server.Codex.Events.{ChatEvent}
use codex_server.Codex.Collector.{absorb}
use codex_server.Chat.Log.{Exc, Tx, transact}
use codex_server.Chat.Log.Rows.{Rows}
use codex_server.Chat.Stream.{
  Call, StreamState, Arrival, Verdict, or_throws, check_steer_boundary, on_peek, Peek, count,
  peek_raises, persist_segment, persist_partial, persist_body, keep_partial, segment_delta,
}
use codex_server.Chat.Stream.Cut.{
  log, texts, AreBelow, IsCut, texts-append, ids-append, ArePartial-append, AreBelow-append,
  take-append, take-length, delta_of, buffer-absorb, persist_body-Inserts,
}

module _ (start : Rows) where
  pub absorb-IsCut :
      (e : ChatEvent) (s : StreamState) (es : List ChatEvent)
      → IsCut start (log s)
      → IsCut start (log (record s { bus = es; collector = absorb e s.collector }))
  absorb-IsCut e s es (parts, m, i, t, p, o, l, n) =
      let grown = buffer-absorb e s.collector in
      let b = s.collector.buffer in
      let off = s.segment_buffer_offset in
      (
        parts,
        m,
        i,
        t ∙ (sym (take-append off b (delta_of e) o) ∙ ap (take off) (sym grown)),
        p,
        omega (arith, ap length grown, length-append b (delta_of e)),
        l,
        n,
      )

  partial-IsCut :
      (f : Option Exc) (tx : Tx) (call : Call) (c : Option Text) (journal : Bool) (s : StreamState)
      → IsCut start (log s)
      → let (text, calls) = segment_delta s in
        let (r, db) = transact f (persist_body tx call text calls [] true c journal) s.db in
        IsCut start (log (keep_partial s r db).1)
        × ((keep_partial s r db).0 ≡ none
            → (keep_partial s r db).1.segment_buffer_offset ≡ length s.collector.buffer)
  unfolding segment_delta
  partial-IsCut (some exc) tx call c journal s h = (h, λ e. cc)
  partial-IsCut none tx call c journal s (parts, m, i, t, p, o, l, n) =
      let b = s.collector.buffer in
      let off = s.segment_buffer_offset in
      let (text, calls) = segment_delta s in
      let (msg, db) = persist_body tx call text calls [] true c journal s.db in
      let (ins, id, said, flagged) = persist_body-Inserts tx call text calls c journal s.db in
      let whole : texts (parts ++ msg ∷ []) ≡ take (length b) b =
        texts-append parts (msg ∷ [])
        ∙ (ap (λ x. texts parts ++ x) (append-nil msg.text ∙ said)
            ∙ (ap (λ x. x ++ drop off b) t ∙ (take-append-drop off b ∙ sym (take-length b)))) in
      (
        (
          parts ++ msg ∷ [],
          ap (λ r. r.messages) ins
              ∙ (ap (λ x. x ++ msg ∷ []) m ∙ append_assoc start.messages parts (msg ∷ [])),
          ids-append parts (msg ∷ []) ∙ ap (λ x. x ++ msg.id ∷ []) i,
          whole,
          ArePartial-append start.next parts (msg ∷ []) p ((flagged, omega (arith, id)), tt),
          omega arith,
          subst (λ k. AreBelow k (parts ++ msg ∷ [])) (sym (ap (λ r. r.next) ins))
              (AreBelow-append s.db.next_message parts msg l id),
          omega (arith, ap (λ r. r.next) ins),
        ),
        λ e. refl,
      )

  pub persist-IsCut :
      (tx : Tx) (call : Call) (c : Option Text) (journal : Bool) (s : StreamState)
      → IsCut start (log s)
      → IsCut start (log (persist_partial tx call c journal s).1)
        × ((persist_partial tx call c journal s).0 ≡ none
            → (persist_partial tx call c journal s).1.segment_buffer_offset
              ≡ length s.collector.buffer)
  unfolding persist_partial
  persist-IsCut tx call c journal s h = partial-IsCut tx.failure tx call c journal s h

  if-IsCut :
      {A : Type 0} (b : Bool) (x y : A × StreamState)
      → IsCut start (log x.1)
      → IsCut start (log y.1)
      → IsCut start (log (if b then x else y).1)
  if-IsCut true x y p q = p
  if-IsCut false x y p q = q

  segment-IsCut :
      (tx : Tx) (call : Call) (s : StreamState)
      → IsCut start (log s)
      → IsCut start (log (persist_segment tx call s).1)
  unfolding persist_segment
  segment-IsCut tx call s h =
      if-IsCut (is_nil (segment_delta s).0) (none, s) (persist_partial tx call none false s) h
        (persist-IsCut tx call none false s h).0

  peek-IsCut :
      (tx : Tx) (call : Call) (p : Peek) (s : StreamState)
      → IsCut start (log s)
      → IsCut start (log (on_peek tx call p s).1)
  peek-IsCut tx call (peek_raises exc) s h = h
  peek-IsCut tx call (count cur) s h =
      let s' : StreamState = record s { seen_steer_count = cur } in
      if-IsCut (leb cur s.seen_steer_count) (none, s) (persist_segment tx call s') h
        (segment-IsCut tx call s' h)

  pub check-IsCut :
      (a : Arrival) (call : Call) (v : Verdict) (s : StreamState)
      → IsCut start (log s)
      → IsCut start (log (or_throws v (check_steer_boundary a call s)).1)
  unfolding check_steer_boundary
  check-IsCut a call v s h = or_throws-IsCut (check_steer_boundary a call s) (
      if-IsCut (is_some call.turn_id) (on_peek a.tx call a.peek s) (none, s)
        (peek-IsCut a.tx call a.peek s h) h)
    where
      or_throws-IsCut :
          (r : Option Exc × StreamState)
          → IsCut start (log r.1)
          → IsCut start (log (or_throws v r).1)
      or_throws-IsCut (none, s) h = h
      or_throws-IsCut (some exc, s) h = h
