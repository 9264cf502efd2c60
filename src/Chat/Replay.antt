-- ===== src/Chat/Replay.antt =====
-- A client that comes back: `tail_turn` of app/rpc/chat/service.py with the terminal event that it
-- makes of the row of a turn, and `load_chat_owned` of app/rpc/chat/guards.py. What the tables say
-- is given for each time that they are read.
pub mod Owner
use codex_server.Base.{
  ℕ, String, Bool, true, false, ◌&&◌, ◌||◌, not, Option, none, some, List, [], ◌∷◌, ◌++◌, map, ◌==◌,
  if◌then◌else◌, find?, is_some, filter, ltb,
}
use text.Mathlib.Text.{◌==◌ as str_eq}
use codex_server.Turns.Status.{
  TurnStatus, starting, running, completed, failed, cancelled, is_terminal,
}
use codex_server.Turns.Table.{Turn, get_by_id, get_active_for_chat}
use codex_server.Turns.Runner.{StreamEvent, done, error}
use codex_server.Turns.Stream.{Streams, Round, Entry, tail}

pub data ChatSource : Type 0 where
  web telegram : ChatSource

pub record ChatRow : Type 0 where
  pub id : ℕ
  pub user_id : ℕ
  pub source : ChatSource

abbrev pub is_web : ChatSource → Bool
is_web web = true
is_web telegram = false

abbrev pub is_row : ℕ → ChatRow → Bool
is_row chat_id c = c.id == chat_id

abbrev pub owned_by : (user_id : ℕ) → Option ChatRow → Option ChatRow
owned_by user_id none = none
owned_by user_id (some c) = if c.user_id == user_id && is_web c.source then some c else none

-- `load_chat_owned` with `expected_source=WEB`: nothing is NOT_FOUND.
unfoldable pub load_chat_owned : (chat_id user_id : ℕ) → List ChatRow → Option ChatRow
load_chat_owned chat_id user_id chats = owned_by user_id (find? (is_row chat_id) chats)

-- `value or default` of a text that may be missing.
abbrev pub or_default : Option String → String → String
or_default none default = default
or_default (some t) default = if str_eq t "" then default else t

abbrev pub text_or_empty : Option String → String
text_or_empty none = ""
text_or_empty (some t) = t

-- `_terminal_from_status`: `text_of` reads the text of a message by its id.
abbrev pub terminal_of : TurnStatus → (text_of : ℕ → Option String) → Turn → Option StreamEvent
terminal_of completed text_of turn = some (
    done (elim turn.assistant_message_id [
      | none ↦ ""
      | some message_id ↦ text_or_empty (text_of message_id)
    ]))
terminal_of failed text_of turn = some (
    error (or_default turn.error_code "stream_dropped")
      (some (or_default turn.error_detail "failed")))
terminal_of cancelled text_of turn = some (
    error (or_default turn.error_code "cancelled")
      (some (or_default turn.error_detail "cancelled")))
terminal_of _ text_of turn = none

unfoldable pub terminal_from_status : (text_of : ℕ → Option String) → Turn → Option StreamEvent
terminal_from_status text_of turn = terminal_of turn.status text_of turn

abbrev pub as_events : Option StreamEvent → List StreamEvent
as_events none = []
as_events (some e) = e ∷ []

abbrev pub terminal_for : (text_of : ℕ → Option String) → Option Turn → List StreamEvent
terminal_for text_of none = []
terminal_for text_of (some turn) =
    if is_terminal turn.status then as_events (terminal_from_status text_of turn) else []

-- `_terminal_for_turn_id`, and the last lines of `tail_turn`: the row as it is read again.
unfoldable pub terminal_for_turn_id :
    (text_of : ℕ → Option String) (turn_id : ℕ) → List Turn → List StreamEvent
unfolding terminal_from_status
terminal_for_turn_id text_of turn_id rows = terminal_for text_of (get_by_id turn_id rows)

abbrev pub newer : Turn → Option Turn → Turn
newer r none = r
newer r (some q) = if ltb r.id q.id then q else r

-- `_latest_turn_for_chat`: the row of the chat with the highest id.
pub latest_turn_for_chat : (chat_id : ℕ) → List Turn → Option Turn
latest_turn_for_chat chat_id [] = none
latest_turn_for_chat chat_id (r ∷ rows) =
    let rest = latest_turn_for_chat chat_id rows in
    if r.chat_id == chat_id then some (newer r rest) else rest

pub record TailTurnRequest : Type 0 where
  pub turn_id : Option ℕ
  pub chat_id : ℕ
  pub after_id : ℕ
  pub user_id : ℕ

-- The tables at the first reads, the rounds of the tail, and the turns at the last read.
-- The row is read, and its event sent, only behind the return of the tail.
abbrev pub with_terminal : List Entry × Bool → List StreamEvent → List StreamEvent
with_terminal (sent, true) terminal = map (λ (e : Entry). e.event) sent ++ terminal
with_terminal (sent, false) terminal = map (λ (e : Entry). e.event) sent

module _ (streams : Streams) where
  pub record Tables : Type 0 where
    pub chats : List ChatRow
    pub turns : List Turn
    pub rounds : List (Round streams)
    pub turns_later : List Turn
    pub text_of : ℕ → Option String

  -- With the turn found: its end, or its stream, and its end once the tail has returned.
  unfoldable pub follow : (after_id : ℕ) → Turn → Tables → List StreamEvent
  unfolding terminal_for_turn_id
  follow after_id turn t =
      if is_terminal turn.status
      then as_events (terminal_from_status t.text_of turn)
      else with_terminal (tail streams t.rounds after_id)
          (terminal_for_turn_id t.text_of turn.id t.turns_later)

  abbrev pub if_owned : Option ChatRow → List StreamEvent → Option (List StreamEvent)
  if_owned none events = none
  if_owned (some chat) events = some events

  -- The turn that the request names.
  abbrev pub tail_named : TailTurnRequest → Option Turn → Tables → Option (List StreamEvent)
  tail_named request none t = none
  tail_named request (some turn) t =
      if_owned (load_chat_owned turn.chat_id request.user_id t.chats)
        (follow request.after_id turn t)

  -- The active turn of the chat that the request names, or how its latest turn ended.
  abbrev pub tail_active : TailTurnRequest → Option Turn → Tables → List StreamEvent
  tail_active request (some turn) t = follow request.after_id turn t
  tail_active request none t = terminal_for t.text_of (latest_turn_for_chat request.chat_id t.turns)

  abbrev pub tail_by : TailTurnRequest → (turn_id : Option ℕ) → Tables → Option (List StreamEvent)
  tail_by request (some turn_id) t = tail_named request (get_by_id turn_id t.turns) t
  tail_by request none t =
      if_owned (load_chat_owned request.chat_id request.user_id t.chats)
        (tail_active request (get_active_for_chat request.chat_id t.turns) t)

  -- `tail_turn`; nothing is NOT_FOUND.
  unfoldable pub tail_turn : TailTurnRequest → Tables → Option (List StreamEvent)
  tail_turn request t = tail_by request request.turn_id t
