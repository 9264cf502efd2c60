-- ===== src/Turns/Table.antt =====
-- The `turns` table and `TurnService` (app/services/turns/service.py, schemas.py;
-- app/models/turn.py). A table is its list of rows; `UPDATE … WHERE` changes the rows that pass the
-- test and reports how many they are. Times are numbers of one unit, given as arguments.
pub mod Rows
pub mod Run
pub mod Fence
pub mod Once
pub mod Announced
pub mod Active
use mathlib.Core.Option
use codex_server.Base.{
  ℕ, suc, ◌+◌, String, ◌≡◌, Bool, true, false, ◌&&◌, ◌||◌, not, Option, none, some, List, [], ◌∷◌,
  ◌++◌, map, arith, ltb, ◌==◌, if◌then◌else◌, is_some, filter, count, find?,
}
use codex_server.Base.Text.{Text, codes}
use codex_server.Base.Text.Decimal.{str}
use codex_server.Turns.Status.{
  TurnStatus, starting, running, failed, is_active, is_terminal, is_starting,
}

pub data SidecarName : Type 0 where
  admin guest : SidecarName

pub record Turn : Type 0 where
  pub id : ℕ
  pub chat_id : ℕ
  pub user_id : ℕ
  pub user_message_id : ℕ
  pub assistant_message_id : Option ℕ
  pub status : TurnStatus
  pub codex_thread_id : Option String
  pub codex_turn_id : Option String
  pub sidecar : SidecarName
  pub stream_key : Text
  pub error_code : Option String
  pub error_detail : Option String
  pub last_event_id : Option String
  pub heartbeat_at : ℕ
  pub completed_at : Option ℕ

pub record TurnCreate : Type 0 where
  pub chat_id : ℕ
  pub user_id : ℕ
  pub user_message_id : ℕ
  pub sidecar : SidecarName

-- What `publish_turn_started` and `publish_turn_ended` announce: user, chat, turn.
pub data Activity : Type 0 where
  turn_started turn_ended : ℕ → ℕ → ℕ → Activity

-- The rows that a transaction sees, those last committed, the publishes that wait for the next
-- commit, and those made.
pub record Session : Type 0 where
  pub rows : List Turn
  pub saved : List Turn
  pub hooks : List Activity
  pub published : List Activity

abbrev pub commit : Session → Session
commit s = record s { saved = s.rows; hooks = []; published = s.published ++ s.hooks }

abbrev pub rollback : Session → Session
rollback s = record s { rows = s.saved }

abbrev pub update_where : (Turn → Bool) → (Turn → Turn) → List Turn → List Turn
update_where p f = map (λ r. if p r then f r else r)

abbrev pub has_id : ℕ → Turn → Bool
has_id i r = r.id == i

-- The rows under the index `turns_active_per_chat`.
abbrev pub active_in : ℕ → Turn → Bool
active_in c r = r.chat_id == c && is_active r.status

abbrev pub active_with : ℕ → Turn → Bool
active_with i r = r.id == i && is_active r.status

unfoldable pub stream_key_of : ℕ → Text
stream_key_of turn_id = codes "turn:" ++ (str turn_id ++ codes ":events")

unfoldable pub publish_after_commit : Session → Activity → Session
publish_after_commit s a = record s { hooks = s.hooks ++ a ∷ [] }

unfoldable pub new_turn : (now id : ℕ) → TurnCreate → Turn
unfolding stream_key_of
new_turn now id payload = record {
  id = id;
  chat_id = payload.chat_id;
  user_id = payload.user_id;
  user_message_id = payload.user_message_id;
  assistant_message_id = none;
  status = starting;
  codex_thread_id = none;
  codex_turn_id = none;
  sidecar = payload.sidecar;
  stream_key = stream_key_of id;
  error_code = none;
  error_detail = none;
  last_event_id = none;
  heartbeat_at = now;
  completed_at = none;
}

-- `none` is `IntegrityError`: the chat has an active turn, or a foreign key of the payload has no
-- row. The database gives the new row's id.
unfoldable pub create_starting :
    (keys_exist : Bool) (now id : ℕ) → TurnCreate → Session → Option (Turn × Session)
unfolding new_turn
create_starting keys_exist now id payload s =
    if keys_exist && not (ltb 0 (count (active_in payload.chat_id) s.rows))
    then some (new_turn now id payload, record s { rows = s.rows ++ new_turn now id payload ∷ [] })
    else none

unfoldable pub try_create_starting :
    (keys_exist : Bool) (now id : ℕ) → TurnCreate → Session → Option Turn × Session
unfolding create_starting publish_after_commit
try_create_starting keys_exist now id payload s =
    elim (create_starting keys_exist now id payload s) [
      | none ↦ (none, rollback s)
      | some (row, s') ↦
          (some row, publish_after_commit s' (turn_started row.user_id row.chat_id row.id))
    ]

abbrev pub starting_with : ℕ → Turn → Bool
starting_with i r = r.id == i && is_starting r.status

abbrev pub marked : (now : ℕ) → String → String → Turn → Turn
marked now thread codex_turn r = record r {
  status = running;
  codex_thread_id = some thread;
  codex_turn_id = some codex_turn;
  heartbeat_at = now;
}

pub mark_running : (now turn_id : ℕ) → String → String → Session → Bool × Session
mark_running now turn_id thread codex_turn s = (
  ltb 0 (count (starting_with turn_id) s.rows),
  record s { rows = update_where (starting_with turn_id) (marked now thread codex_turn) s.rows },
)

abbrev pub attached : ℕ → Turn → Turn
attached message_id r = record r { assistant_message_id = some message_id }

pub attach_assistant_message : (turn_id message_id : ℕ) → Session → Session
attach_assistant_message turn_id message_id s = record s {
  rows = update_where (has_id turn_id) (attached message_id) s.rows;
}

abbrev pub event_noted : String → Turn → Turn
event_noted event_id r = record r { last_event_id = some event_id }

unfoldable pub update_last_event : ℕ → String → Session → Session
update_last_event turn_id event_id s = record s {
  rows = update_where (has_id turn_id) (event_noted event_id) s.rows;
}

abbrev pub beaten : ℕ → Turn → Turn
beaten now r = record r { heartbeat_at = now }

unfoldable pub heartbeat : (now turn_id : ℕ) → Session → Bool × Session
heartbeat now turn_id s = (
  ltb 0 (count (active_with turn_id) s.rows),
  record s { rows = update_where (active_with turn_id) (beaten now) s.rows },
)

abbrev pub finalized : (now : ℕ) → TurnStatus → Option String → Option String → Turn → Turn
finalized now status code detail r = record r {
  status = status;
  error_code = code;
  error_detail = detail;
  completed_at = some now;
}

-- `none` is `ValueError`: the status asked for is not terminal.
unfoldable pub finalize_once :
    (now turn_id : ℕ)
    → TurnStatus
    → Option String
    → Option String
    → Session
    → Option (Bool × Session)
unfolding publish_after_commit
finalize_once now turn_id status code detail s =
    if is_terminal status
    then some (elim (find? (active_with turn_id) s.rows) [
      | none ↦ (false, updated)
      | some row ↦ (true, publish_after_commit updated (turn_ended row.user_id row.chat_id turn_id))
    ])
    else none
  where
    updated : Session
    updated = record s {
      rows = update_where (active_with turn_id) (finalized now status code detail) s.rows;
    }

unfoldable pub get_active_for_chat : ℕ → List Turn → Option Turn
get_active_for_chat chat_id = find? (active_in chat_id)

-- A dictionary comprehension: a later pair replaces an earlier one with its key.
pub active_ids_by_chat_for_user : ℕ → List Turn → List (ℕ × ℕ)
active_ids_by_chat_for_user user_id rows =
    map (λ r. (r.chat_id, r.id)) (filter (λ r. r.user_id == user_id && is_active r.status) rows)

-- What such a dictionary holds under a key.
pub dict_get : ℕ → List (ℕ × ℕ) → Option ℕ
dict_get k [] = none
dict_get k ((j, v) ∷ m) =
    let later = dict_get k m in
    elim later [ some w ↦ some w | none ↦ if j == k then some v else none ]

unfoldable pub get_by_id : ℕ → List Turn → Option Turn
get_by_id turn_id = find? (has_id turn_id)

-- `heartbeat_at < now - threshold`.
abbrev pub is_stale : (now threshold : ℕ) → Turn → Bool
is_stale now threshold r = is_active r.status && ltb (r.heartbeat_at + threshold) now

unfoldable pub find_stale_active : (now threshold : ℕ) → List Turn → List Turn
find_stale_active now threshold = filter (is_stale now threshold)
