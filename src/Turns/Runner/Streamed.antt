-- ===== src/Turns/Runner/Streamed.antt =====
-- A delivery whose stream is a call of `stream_turn` (app/rpc/chat/stream.py).
use codex_server.Base.{
  suc, ◌≡◌, refl, true, false, Option, none, some, List, [], ◌∷◌, arith, String, All, inr, count,
  ap, ◌∙◌,
}
use codex_server.Base.Text.{Text}
use codex_server.Redis.{Redis, holds}
use codex_server.Base.Text.Decimal.{str}
use codex_server.Turns.Status.{is_terminal}
use codex_server.Turns.Table.{Turn, get_by_id, active_with}
use codex_server.Turns.Lease.{lease_key}
use codex_server.Turns.Locks.{active_key}
use codex_server.Turns.Runner.{
  StreamEvent, done as done_event, error as error_event, other, Item, Ending, ends, is_cancelled,
  raises, Delivery, World, execute_turn_inner,
}
use codex_server.Turns.Runner.Rounds.{decides, ends_turn}
use codex_server.Turns.Runner.Delivered.{IsAnswered, IsFinalized}
use codex_server.Turns.Runner.Owned.{owned-settles}
use codex_server.Turns.Runner.Keys.{spares}
use codex_server.Chat.Frames.{Frame, token, tool_call, tool_result_frame, done, error}
use codex_server.Chat.Log.{
  Exc, codex_turn_terminal, stale_turn_stream, timeout_error, cancelled_error, exception, Db,
}
use codex_server.Chat.Stream.{StreamState, Verdict, goes_on, breaks, returns, throws, Arrival, Call}
use codex_server.Chat.Stream.Wire.{wire}
use codex_server.Chat.Stream.Final.{ends_final, is_final, Fits}
use codex_server.Chat.Stream.Finish.{Aftermath, stream_turn}
use codex_server.Chat.Stream.Finish.Returned.{End, stream_turn-End}

-- For any way to hold the texts of the frames as the runner's.
module _ (literal : Text → String) where
  -- `event.WhichOneof("kind")` with what the runner reads of the event.
  abbrev pub event_of : Frame → StreamEvent
  event_of (token delta) = other "token"
  event_of (tool_call name args) = other "tool_call"
  event_of (tool_result_frame name text files e) = other "tool_result_frame"
  event_of (done chat_id text m) = done_event (literal text)
  event_of (error code none) = error_event (literal code) none
  event_of (error code (some detail)) = error_event (literal code) (some (literal detail))

  -- How the iteration over the call ends for the runner.
  abbrev pub ending_of : Verdict → Ending
  ending_of goes_on = ends
  ending_of breaks = ends
  ending_of returns = ends
  ending_of (throws cancelled_error) = is_cancelled
  ending_of (throws (exception exc_type text)) = raises (literal text)
  ending_of (throws (codex_turn_terminal status detail)) = raises "codex turn terminal"
  ending_of (throws stale_turn_stream) = raises "stale turn stream"
  ending_of (throws timeout_error) = raises "timeout"

  -- The items of a delivery are the frames of a call, each with what becomes of it.
  abbrev pub Follows : List Item → List Frame → Type 0
  Follows [] [] = Unit
  Follows (i ∷ items) (f ∷ frames) = (i.event ≡ event_of f) × Follows items frames
  Follows _ _ = ⊥

  ends_turn-event_of : (f : Frame) → ends_turn (event_of f) ≡ is_final f
  ends_turn-event_of (token delta) = refl
  ends_turn-event_of (tool_call name args) = refl
  ends_turn-event_of (tool_result_frame name text files e) = refl
  ends_turn-event_of (done chat_id text m) = refl
  ends_turn-event_of (error code none) = refl
  ends_turn-event_of (error code (some detail)) = refl

  decides-final :
      (items : List Item) (frames : List Frame) (e : Ending)
      → Follows items frames
      → ends_final frames ≡ true
      → decides items e ≡ true
  decides-final [] [] e f h = cc
  decides-final [] (g ∷ frames) e f h = absurd f
  decides-final (i ∷ items) [] e f h = absurd f
  decides-final (i ∷ items) (g ∷ []) e (f, fs) h = ground (arith, f, ends_turn-event_of g)
  decides-final (i ∷ items) (g ∷ (k ∷ frames)) e (f, fs) h =
      ground (arith, decides-final items (k ∷ frames) e fs h)

  decides-cancelled : (items : List Item) → decides items is_cancelled ≡ true
  decides-cancelled [] = refl
  decides-cancelled (i ∷ items) = ground (arith, decides-cancelled items)

  decides-raises : (items : List Item) (text : String) → decides items (raises text) ≡ true
  decides-raises [] text = refl
  decides-raises (i ∷ items) text = ground (arith, decides-raises items text)

  decides-throws : (items : List Item) (exc : Exc) → decides items (ending_of (throws exc)) ≡ true
  decides-throws items cancelled_error = decides-cancelled items
  decides-throws items (exception exc_type text) = decides-raises items _
  decides-throws items (codex_turn_terminal status detail) = decides-raises items _
  decides-throws items stale_turn_stream = decides-raises items _
  decides-throws items timeout_error = decides-raises items _

  decides-End :
      (items : List Item) (v : Verdict) (s : StreamState)
      → End 1 v (wire s)
      → Follows items s.frames
      → decides items (ending_of v) ≡ true
  decides-End items returns s (h, b) f = decides-final items s.frames ends f h
  decides-End items (throws exc) s h f = decides-throws items exc
  decides-End items breaks s h f = absurd h
  decides-End items goes_on s h f = absurd h

  fits : (arrivals : List Arrival) → All (Fits 1) arrivals
  fits [] = tt
  fits (a ∷ arrivals) = (inr (omega arith), fits arrivals)

  -- A delivery of a turn whose row is there and has not ended, whose user is there, and with Redis
  -- answering each of its calls and the session of the finalization and the release of the slot
  -- going through, that finds the lock of the chat and the lease of the turn free, and whose stream
  -- is a call of `stream_turn`, whatever Codex sends, whatever fails in that call or in a publish,
  -- and however the call ends, leaves no active row of the turn, gives one rate-limit slot back,
  -- and no longer holds the lock or the lease, whatever others did to the table and, while the
  -- stream ran, to the keys of Redis; between its two releases, they do not take the lock for the
  -- same turn.
  pub streamed-settles :
      (redis : Redis) (d : Delivery) (w : World redis) (turn : Turn) (arrivals : List Arrival)
      (last : Option Exc) (after : Aftermath) (call : Call) (db : Db)
      → get_by_id d.turn_id w.table.rows ≡ some turn
      → is_terminal turn.status ≡ false
      → d.user_found ≡ true
      → IsAnswered d
      → IsFinalized d
      → redis.get (active_key turn.chat_id) w.process.store ≡ none
      → redis.get (lease_key d.turn_id) w.process.store ≡ none
      → All (λ c. spares redis (active_key turn.chat_id) (str d.turn_id) c ≡ true) d.keys_leaving
      → Follows d.items (stream_turn arrivals last after call db).1.frames
      → d.ending ≡ ending_of (stream_turn arrivals last after call db).0
      → let w' = execute_turn_inner redis d w in
        (count (active_with d.turn_id) w'.table.rows ≡ 0)
        × (w'.slots_released ≡ suc w.slots_released)
        × (holds (redis.get (active_key turn.chat_id) w'.process.store) (str d.turn_id) ≡ false)
        × (holds (redis.get (lease_key d.turn_id) w'.process.store) d.worker_id ≡ false)
  streamed-settles redis d w turn arrivals last after call db e t u a z free free_lease spared f h =
      let (v, s) = stream_turn arrivals last after call db in
      owned-settles redis d w turn e t u a z free free_lease spared (
        ap (decides d.items) h
        ∙ decides-End d.items v s (stream_turn-End 1 arrivals last after call db (fits arrivals)) f)
