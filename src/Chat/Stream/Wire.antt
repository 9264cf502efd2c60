-- ===== src/Chat/Stream/Wire.antt =====
-- What a client and the bus see of a call, apart from the tables, and that the statements on the
-- tables leave it alone.
use codex_server.Base.{
  is_some, if◌then◌else◌, ℕ, ◌≡◌, refl, Bool, true, false, Option, none, List, [], inl, inr, leb,
  is_nil, ◌&&◌, ◌⊎◌,
}
use codex_server.Base.Text.{Text}
use codex_server.Codex.Events.{ChatEvent}
use codex_server.Codex.Collector.{StreamCollector}
use codex_server.Chat.Frames.{Frame}
use codex_server.Chat.Log.{Db, EventKind, Payload, Exc, Message, Tx, in_transaction}
use codex_server.Chat.Stream.{
  Call, StreamState, Arrival, Peek, count, peek_raises, persist_partial, persist_segment,
  persist_visible_partial, check_steer_boundary, on_peek, keep_partial, emit_event, segment_delta,
  persist_body,
}

pub record Wire : Type 0 where
  pub collector : StreamCollector
  pub pending_text : List Text
  pub pending_size : ℕ
  pub frames : List Frame
  pub bus : List ChatEvent

abbrev pub wire : StreamState → Wire
wire s = record {
  collector = s.collector;
  pending_text = s.pending_text;
  pending_size = s.pending_size;
  frames = s.frames;
  bus = s.bus;
}

wire-if :
    (b : Bool) (x y : Option Exc × StreamState) {w : Wire}
    → wire x.1 ≡ w
    → wire y.1 ≡ w
    → wire (if b then x else y).1 ≡ w
wire-if true x y p q = p
wire-if false x y p q = q

wire-keep_partial :
    (s : StreamState) (r : Exc ⊎ Message) (db : Db) → wire (keep_partial s r db).1 ≡ wire s
wire-keep_partial s (inl exc) db = refl
wire-keep_partial s (inr msg) db = refl

pub wire-persist_partial :
    (tx : Tx) (call : Call) (c : Option Text) (journal : Bool) (s : StreamState)
    → wire (persist_partial tx call c journal s).1 ≡ wire s
unfolding persist_partial
wire-persist_partial tx call c journal s =
    let (text, calls) = segment_delta s in
    let (r, db) = in_transaction tx (persist_body tx call text calls [] true c journal) s.db in
    wire-keep_partial s r db

wire-persist_segment :
    (tx : Tx) (call : Call) (s : StreamState) → wire (persist_segment tx call s).1 ≡ wire s
unfolding persist_segment
wire-persist_segment tx call s =
    wire-if (is_nil (segment_delta s).0) (none, s) (persist_partial tx call none false s) refl
      (wire-persist_partial tx call none false s)

pub wire-persist_visible_partial :
    (tx : Tx) (call : Call) (s : StreamState) → wire (persist_visible_partial tx call s).1 ≡ wire s
unfolding persist_visible_partial
wire-persist_visible_partial tx call s =
    wire-if (is_nil (segment_delta s).0 && is_nil (segment_delta s).1) (none, s)
      (persist_partial tx call call.client_id true s) refl
      (wire-persist_partial tx call call.client_id true s)

wire-on_peek :
    (tx : Tx) (call : Call) (p : Peek) (s : StreamState) → wire (on_peek tx call p s).1 ≡ wire s
wire-on_peek tx call (peek_raises exc) s = refl
wire-on_peek tx call (count cur) s =
    let s' : StreamState = record s { seen_steer_count = cur } in
    wire-if (leb cur s.seen_steer_count) (none, s) (persist_segment tx call s') refl
      (wire-persist_segment tx call s')

pub wire-check_steer_boundary :
    (a : Arrival) (call : Call) (s : StreamState) → wire (check_steer_boundary a call s).1 ≡ wire s
unfolding check_steer_boundary
wire-check_steer_boundary a call s =
    wire-if (is_some call.turn_id) (on_peek a.tx call a.peek s) (none, s)
      (wire-on_peek a.tx call a.peek s) refl

pub wire-emit_event :
    (tx : Tx) (call : Call) (kind : EventKind) (payload : Payload) (s : StreamState)
    → wire (emit_event tx call kind payload s).1 ≡ wire s
unfolding emit_event
wire-emit_event tx call kind payload s = refl
