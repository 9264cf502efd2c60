-- ===== src/Chat/Stream/Finish/Saved.antt =====
-- What a call of `stream_turn` leaves in the table of messages: the answer alone, or, where it has
-- been broken off, all of the text so far in partial rows.
use codex_server.Base.{
  ℕ, ◌≤◌, ◌<◌, ◌≡◌, refl, sym, ap, ◌∙◌, Bool, true, false, Option, none, some, List, [], ◌∷◌, ◌++◌,
  arith, All, if◌then◌else◌, not, filter,
}
use mathlib.Core.Path.{subst}
use mathlib.Core.List.{append_assoc, append-nil}
use codex_server.Base.Text.{Text}
use codex_server.Codex.Json.{Fields}
use codex_server.Codex.Events.{Attachment}
use codex_server.Chat.Frames.{final_text_for_done_frame}
use codex_server.Chat.Log.{
  Db, Exc, Tx, Message, append, delete_many, emit, is_in, touch_last_msg_at, transact,
}
use codex_server.Chat.Log.Rows.{
  Rows, rows, rows-persist_attachments, is_in-below, is_in-above, filter-append, filter-All,
  filter-none,
}
use codex_server.Chat.Stream.{
  Effect, goes_on, Call, StreamState, Arrival, Verdict, breaks, returns, throws, loop, opened,
}
use codex_server.Chat.Stream.Cut.{log, IsCut, ids, ArePartial, AreBelow}
use codex_server.Chat.Stream.Kept.{loop-IsCut}
use codex_server.Chat.Stream.Finish.{
  Aftermath, attach, finalize_body, finalize_turn_persist, or_text, complete, settle, stream_turn,
  then_done, speak, clear_partials,
}

kept_before :
    (n : ℕ) (is : List ℕ) (ms : List Message)
    → All (λ j. n ≤ j) is
    → AreBelow n ms
    → All (λ m. not (is_in is m.id) ≡ true) ms
kept_before n is [] h b = tt
kept_before n is (m ∷ ms) h (b, bs) =
    (ground (arith, is_in-below n is m.id h b), kept_before n is ms h bs)

is_in-middle : (is js : List ℕ) (i : ℕ) → not (is_in (is ++ i ∷ js) i) ≡ false
is_in-middle [] js i = ground arith
is_in-middle (k ∷ is) js i = ground (arith, is_in-middle is js i)

-- Rows are among their own ids, whatever ids are before them.
own_ids : (is : List ℕ) (ms : List Message) → All (λ m. not (is_in (is ++ ids ms) m.id) ≡ false) ms
own_ids is [] = tt
own_ids is (m ∷ ms) = (
  is_in-middle is (ids ms) m.id,
  subst (λ x. All (λ r. not (is_in x r.id) ≡ false) ms) (append_assoc is (m.id ∷ []) (ids ms))
      (own_ids (is ++ m.id ∷ []) ms),
)

ids-below : (n : ℕ) (ms : List Message) → AreBelow n ms → All (λ j. j < n) (ids ms)
ids-below n [] h = tt
ids-below n (m ∷ ms) (h, hs) = (h, ids-below n ms hs)

ids-from : (n : ℕ) (ms : List Message) → ArePartial n ms → All (λ j. n ≤ j) (ids ms)
ids-from n [] h = tt
ids-from n (m ∷ ms) ((f, h), hs) = (h, ids-from n ms hs)

rows-attach : (t : Option ℕ) (i : ℕ) (db : Db) → rows (attach t i db) ≡ rows db
rows-attach none i db = refl
rows-attach (some t) i db = refl

-- Deleting the partial rows behind the answer leaves the answer behind the rows of the start.
delete-partials :
    (start parts : List Message) (m : Message) (n k : ℕ)
    → AreBelow n start
    → ArePartial n parts
    → AreBelow k parts
    → m.id ≡ k
    → filter (λ r. not (is_in (ids parts) r.id)) ((start ++ parts) ++ m ∷ []) ≡ start ++ m ∷ []
delete-partials start parts m n k b p l e =
    let p? : Message → Bool = λ r. not (is_in (ids parts) r.id) in
    let new : not (is_in (ids parts) m.id) ≡ true =
      ap not (ap (is_in (ids parts)) e ∙ is_in-above k (ids parts) (ids-below k parts l)) in
    filter-append p? (start ++ parts) (m ∷ [])
    ∙ (ap (λ x. x ++ filter p? (m ∷ [])) (filter-append p? start parts)
        ∙ (ap (λ x. (x ++ filter p? parts) ++ filter p? (m ∷ []))
              (filter-All p? start (kept_before n (ids parts) start (ids-from n parts p) b))
            ∙ (ap (λ x. (start ++ x) ++ filter p? (m ∷ []))
                  (filter-none p? parts (own_ids [] parts))
                ∙ (ap (λ x. x ++ filter p? (m ∷ [])) (append-nil start)
                    ∙ ap (λ x. start ++ x) (filter-All p? (m ∷ []) (new, tt))))))

-- The row of the answer.
abbrev pub IsAnswer : Call → Text → Message → Type 0
IsAnswer call text m = (m.text ≡ text) × (m.chat_id ≡ call.chat_id) × (m.meta.partial ≡ false)

body-saves :
    (tx : Tx) (call : Call) (text : Text) (calls : List (Text × Fields)) (files : List Attachment)
    (s : StreamState) (start : Db)
    → IsCut (rows start) (log s)
    → AreBelow start.next_message start.messages
    → let (m, db) = finalize_body tx call text calls files s.partial_msg_ids s.db in
      (db.messages ≡ start.messages ++ m ∷ []) × IsAnswer call text m
unfolding finalize_body append delete_many emit touch_last_msg_at
body-saves tx call text calls files s start (parts, e, i, t, p, o, l, n) b =
    let (m, after) = finalize_body tx call text calls files s.partial_msg_ids s.db in
    let stored = rows-persist_attachments tx call.chat_id call.user_pk files s.db in
    let keeps : List ℕ → List Message → List Message =
      λ is ms. filter (λ r. not (is_in is r.id)) ms in
    (
      ap (λ (r : Rows). keeps s.partial_msg_ids r.messages) (rows-attach call.turn_id m.id _)
          ∙ (ap (λ (r : Rows). keeps s.partial_msg_ids (r.messages ++ m ∷ [])) stored
              ∙ (ap (λ x. keeps s.partial_msg_ids (x ++ m ∷ [])) e
                  ∙ (ap (λ x. keeps x ((start.messages ++ parts) ++ m ∷ [])) (sym i)
                      ∙ delete-partials start.messages parts m start.next_message s.db.next_message
                          b p l (ap (λ (r : Rows). r.next) stored)))),
      (refl, refl, refl),
    )

messages-spoken :
    (b : Bool) (s : StreamState) (e : List Effect)
    → (if b then record s { effects = e } else s).db.messages ≡ s.db.messages
messages-spoken true s e = refl
messages-spoken false s e = refl

then_done-messages :
    (f : Option Exc) (body : Db → Message × Db) (call : Call) (text : Text) (s : StreamState)
    → f ≡ none
    → let (r, db) = transact f body s.db in
      (then_done call text (speak call (clear_partials s r db))).1.db.messages
      ≡ (body s.db).1.messages
then_done-messages (some exc) body call text s e = cc
then_done-messages none body call text s e = messages-spoken _ _ _

messages-if :
    (b : Bool) (x y : Verdict × StreamState)
    → b ≡ true
    → (if b then x else y).1.db.messages ≡ x.1.db.messages
messages-if true x y e = refl
messages-if false x y e = cc

complete-messages :
    (after : Aftermath) (call : Call) (s : StreamState)
    → s.collector.done_seen ≡ true
    → after.save.failure ≡ none
    → (complete after call s).1.db.messages
      ≡ (finalize_body after.save call
          (or_text s.collector.final_text s.collector.buffer)
          s.collector.tool_calls
          s.collector.attachments
          s.partial_msg_ids
          s.db).1.messages
unfolding complete finalize_turn_persist
complete-messages after call s d f =
    let c = s.collector in
    messages-if c.done_seen _ _ d
    ∙ then_done-messages after.save.failure
        (finalize_body after.save call (or_text c.final_text c.buffer) c.tool_calls c.attachments
          s.partial_msg_ids)
        call (final_text_for_done_frame c.final_text c.buffer) s f

conclude-breaks :
    (after : Aftermath) (call : Call) (r : Verdict × StreamState)
    → r.0 ≡ breaks
    → settle after call r ≡ complete after call r.1
unfolding settle
conclude-breaks after call (breaks, s) e = refl
conclude-breaks after call (goes_on, s) e = refl
conclude-breaks after call (returns, s) e = cc
conclude-breaks after call (throws exc, s) e = cc

-- A call of `stream_turn` whose loop ends behind `done`, whose last transaction goes through, and
-- before which the ids of `messages` are below the next one, leaves the rows that were there with
-- one more: the whole answer, in its chat, not partial, its text `final_text` or, if that is empty,
-- all the tokens. The partial rows that it has written meanwhile are gone.
pub stream_turn-saves :
    (arrivals : List Arrival) (ending : Option Exc) (after : Aftermath) (call : Call) (db : Db)
    → AreBelow db.next_message db.messages
    → (loop arrivals ending call (opened db)).0 ≡ breaks
    → (loop arrivals ending call (opened db)).1.collector.done_seen ≡ true
    → after.save.failure ≡ none
    → let c = (loop arrivals ending call (opened db)).1.collector in
      (m : Message) × ((stream_turn arrivals ending after call db).1.db.messages
        ≡ db.messages ++ m ∷ [])
      × IsAnswer call (or_text c.final_text c.buffer) m
unfolding stream_turn
stream_turn-saves arrivals ending after call db b e d f =
    let s = (loop arrivals ending call (opened db)).1 in
    let c = s.collector in
    let text = or_text c.final_text c.buffer in
    let (rows, answer) =
      body-saves after.save call text c.tool_calls c.attachments s db
        (loop-IsCut arrivals ending call db) b in
    (
      (finalize_body after.save call text c.tool_calls c.attachments s.partial_msg_ids s.db).0,
      ap (λ r. r.1.db.messages)
            (conclude-breaks after call (loop arrivals ending call (opened db)) e)
          ∙ (complete-messages after call s d f ∙ rows),
      answer,
    )
