-- ===== src/Chat/Stream/Cut.antt =====
-- The partial rows of a call of `stream_turn` and the text that they hold.
use codex_server.Base.{
  zero, ℕ, suc, ◌≤◌, ◌<◌, ◌≡◌, refl, sym, ap, ◌∙◌, Bool, true, false, Option, none, some, List, [],
  ◌∷◌, ◌++◌, arith, All, if◌then◌else◌, map, take, length,
}
use mathlib.Core.List.{append_assoc, append-nil}
use codex_server.Base.Text.{Text}
use codex_server.Codex.Events.{
  ChatEvent, token_event, tool_call_event, tool_result_event, done_event, error_event,
}
use codex_server.Codex.Json.{Fields}
use codex_server.Codex.Collector.{StreamCollector, absorb}
use codex_server.Chat.Log.{
  Db, Exc, EventKind, Payload, Tx, Message, transact, append, emit, touch_last_msg_at,
}
use codex_server.Chat.Log.Rows.{Rows, rows, rows-persist_attachments}
use codex_server.Chat.Stream.{Call, StreamState, flush, emit_event, persist_body}

-- What the partial rows hang on.
pub record Log : Type 0 where
  pub rows : Rows
  pub partials : List ℕ
  pub offset : ℕ
  pub buffer : Text

abbrev pub log : StreamState → Log
log s = record {
  rows = rows s.db;
  partials = s.partial_msg_ids;
  offset = s.segment_buffer_offset;
  buffer = s.collector.buffer;
}

abbrev pub texts : List Message → Text
texts [] = []
texts (m ∷ parts) = m.text ++ texts parts

abbrev pub ids : List Message → List ℕ
ids = map (λ m. m.id)

abbrev pub ArePartial : ℕ → List Message → Type 0
ArePartial from = All (λ m. (m.meta.partial ≡ true) × (from ≤ m.id))

abbrev pub AreBelow : ℕ → List Message → Type 0
AreBelow n = All (λ m. m.id < n)

-- The rows behind those of the start are the partial ones, and their texts are that of the buffer up
-- to the last cut.
abbrev pub IsCut : Rows → Log → Type 0
IsCut start l =
    (parts : List Message) × (l.rows.messages ≡ start.messages ++ parts)
    × (ids parts ≡ l.partials)
    × (texts parts ≡ take l.offset l.buffer)
    × ArePartial start.next parts
    × (l.offset ≤ length l.buffer)
    × AreBelow l.rows.next parts
    × (start.next ≤ l.rows.next)

pub texts-append : (ps qs : List Message) → texts (ps ++ qs) ≡ texts ps ++ texts qs
texts-append [] qs = refl
texts-append (p ∷ ps) qs = rw (texts-append ps qs, append_assoc p.text (texts ps) (texts qs))

pub ids-append : (ps qs : List Message) → ids (ps ++ qs) ≡ ids ps ++ ids qs
ids-append [] qs = refl
ids-append (p ∷ ps) qs = ap (λ x. p.id ∷ x) (ids-append ps qs)

pub ArePartial-append :
    (n : ℕ) (ps qs : List Message) → ArePartial n ps → ArePartial n qs → ArePartial n (ps ++ qs)
ArePartial-append n [] qs h k = k
ArePartial-append n (p ∷ ps) qs (h, hs) k = (h, ArePartial-append n ps qs hs k)

pub AreBelow-append :
    (n : ℕ) (ps : List Message) (m : Message)
    → AreBelow n ps
    → m.id ≡ n
    → AreBelow (suc n) (ps ++ m ∷ [])
AreBelow-append n [] m h e = (omega (arith, e), tt)
AreBelow-append n (p ∷ ps) m (h, hs) e = (omega arith, AreBelow-append n ps m hs e)

pub take-append : (n : ℕ) (t u : Text) → n ≤ length t → take n (t ++ u) ≡ take n t
take-append zero t u h = refl
take-append (suc n) [] u h = let none_left : ⊥ = omega arith in absurd none_left
take-append (suc n) (c ∷ t) u h = ap (λ x. c ∷ x) (take-append n t u (omega arith))

pub take-length : (t : Text) → take (length t) t ≡ t
take-length [] = refl
take-length (c ∷ t) = ap (λ x. c ∷ x) (take-length t)

-- What an event adds to the buffer.
abbrev pub delta_of : ChatEvent → Text
delta_of (token_event delta) = delta
delta_of _ = []

pub buffer-absorb :
    (e : ChatEvent) (c : StreamCollector) → (absorb e c).buffer ≡ c.buffer ++ delta_of e
unfolding absorb
buffer-absorb (token_event delta) c = refl
buffer-absorb (tool_call_event name args) c = sym (append-nil c.buffer)
buffer-absorb (tool_result_event name text files e) c = sym (append-nil c.buffer)
buffer-absorb (done_event text) c = sym (append-nil c.buffer)
buffer-absorb (error_event code detail) c = sym (append-nil c.buffer)

pub log-flush : (ts : List Text) (s : StreamState) → log (flush ts s) ≡ log s
log-flush [] s = refl
log-flush (t ∷ ts) s = refl

transact-emit :
    (f : Option Exc) (k : EventKind) (c u : ℕ) (p : Payload) (db : Db)
    → rows (transact f (λ d. (tt, emit k c u p d)) db).1 ≡ rows db
unfolding emit
transact-emit none k c u p db = refl
transact-emit (some exc) k c u p db = refl

pub log-emit_event :
    (tx : Tx) (call : Call) (k : EventKind) (p : Payload) (s : StreamState)
    → log (emit_event tx call k p s).1 ≡ log s
unfolding emit_event
log-emit_event tx call k p s =
    ap (logged s) (transact-emit tx.failure k call.chat_id call.user_pk p s.db)
  where
    logged : StreamState → Rows → Log
    logged s r = record {
      rows = r;
      partials = s.partial_msg_ids;
      offset = s.segment_buffer_offset;
      buffer = s.collector.buffer;
    }

-- The row that a transaction inserts.
abbrev Inserts : Text → Bool → Rows → Message × Db → Type 0
Inserts text partial before (m, db) =
    (rows db ≡ record { messages = before.messages ++ m ∷ []; next = suc (before.next) })
    × (m.id ≡ before.next)
    × (m.text ≡ text)
    × (m.meta.partial ≡ partial)

emitted :
    (b : Bool) (k : EventKind) (c u : ℕ) (p : Payload) (db : Db)
    → rows (if b then emit k c u p db else db) ≡ rows db
unfolding emit
emitted true k c u p db = refl
emitted false k c u p db = refl

inserted : Message → Rows → Rows
inserted m r = record { messages = r.messages ++ m ∷ []; next = suc (r.next) }

pub persist_body-Inserts :
    (tx : Tx) (call : Call) (text : Text) (calls : List (Text × Fields)) (c : Option Text)
    (journal : Bool) (db : Db)
    → Inserts text true (rows db) (persist_body tx call text calls [] true c journal db)
unfolding inserted persist_body append touch_last_msg_at
persist_body-Inserts tx call text calls c journal db =
    let kept = rows-persist_attachments tx call.chat_id call.user_pk [] db in
    (
      emitted journal _ _ _ _ _
          ∙ ap (inserted (persist_body tx call text calls [] true c journal db).0) kept,
      ap (λ r. r.next) kept,
      refl,
      refl,
    )
