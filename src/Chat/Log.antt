-- ===== src/Chat/Log.antt =====
-- The rows that a turn leaves in its chat: `MessageService` (app/services/messages/service.py),
-- `EventService.emit`, `persist_attachments` of app/services/uploads/service.py and
-- `ChatService.touch_last_msg_at`. What the file system and the object store answer is a `Tx`.
pub mod Rows
use codex_server.Base.{
  ℕ, suc, Bool, false, Option, none, some, List, [], ◌∷◌, ◌++◌, map, if◌then◌else◌, ◌==◌, filter,
  not, ◌||◌, ◌⊎◌, inl, inr,
}
use codex_server.Base.Text.{Text, text_eq}
use codex_server.Codex.Json.{Fields}
use codex_server.Codex.Events.{Attachment}
use codex_server.Turns.Status.{TurnStatus}
use codex_server.Turns.Table.{Session, commit}

pub data MessageRole : Type 0 where
  user assistant tool system : MessageRole

-- The keys that a turn writes to `messages.meta`; a key that is not there is `false` or empty.
pub record Meta : Type 0 where
  pub partial : Bool
  pub steered : Bool
  pub calls : List (Text × Fields)
  pub upload_ids : List ℕ
  pub audio_upload_ids : List ℕ
  pub file_upload_ids : List ℕ
  pub client_id : Option Text

abbrev pub no_meta : Meta
no_meta = record {
  partial = false;
  steered = false;
  calls = [];
  upload_ids = [];
  audio_upload_ids = [];
  file_upload_ids = [];
  client_id = none;
}

pub record Message : Type 0 where
  pub id : ℕ
  pub chat_id : ℕ
  pub role : MessageRole
  pub text : Text
  pub meta : Meta

pub record Upload : Type 0 where
  pub id : ℕ
  pub chat_id : ℕ
  pub user_id : ℕ
  pub path : Text

pub data EventKind : Type 0 where
  turn_started thread_reset turn_completed turn_interrupted turn_failed : EventKind

-- What a turn writes to `events.payload`.
pub data Payload : Type 0 where
  saved : (final_text_len tool_calls uploads : ℕ) (stream_dropped : Bool) → Payload
  started : (turn_id text_len attachments files : ℕ) → Payload
  reported : (code : Text) (detail : Option Text) → Payload
  reset stream_dropped : Payload
  interrupted : (partial_len : ℕ) → Payload
  exc_raised : (exc_type : Text) → Payload

pub record Event : Type 0 where
  pub kind : EventKind
  pub chat_id : ℕ
  pub user_id : ℕ
  pub payload : Payload

pub record Chat : Type 0 where
  pub id : ℕ
  pub last_msg_at : ℕ

-- The tables, and the ids that the database gives next.
pub record Db : Type 0 where
  pub messages : List Message
  pub next_message : ℕ
  pub uploads : List Upload
  pub next_upload : ℕ
  pub chats : List Chat
  pub turns : Session
  pub events : List Event

-- An exception, by what its handlers look at.
pub data Exc : Type 0 where
  codex_turn_terminal : TurnStatus → (detail : Option Text) → Exc
  stale_turn_stream timeout_error cancelled_error : Exc
  exception : (exc_type text : Text) → Exc

-- A transaction's surroundings: the time, the trusted local path behind a source, whether the
-- object store takes a file, and the exception that one of its statements raises.
pub record Tx : Type 0 where
  pub now : ℕ
  pub resolve : Text → Option Text
  pub stores : Text → Bool
  pub failure : Option Exc

unfoldable pub has_path : Text → List Text → Bool
has_path p [] = false
has_path p (q ∷ seen) = text_eq p q || has_path p seen

-- `_unique_local_paths`.
unfoldable pub unique_local_paths : Tx → (seen : List Text) → List Attachment → List Text
unfolding has_path
unique_local_paths tx seen [] = []
unique_local_paths tx seen (a ∷ files) = elim (tx.resolve a.source) [
  | none ↦ unique_local_paths tx seen files
  | some p ↦
      if has_path p seen
      then unique_local_paths tx seen files
      else p ∷ unique_local_paths tx (p ∷ seen) files
]

unfoldable pub persist_paths :
    Tx → (chat_id user_id : ℕ) → List Text → (upload_ids : List ℕ) → Db → List ℕ × Db
persist_paths tx chat_id user_id [] ids db = (ids, db)
persist_paths tx chat_id user_id (p ∷ paths) ids db =
    let i = db.next_upload in
    let row : Upload = record { id = i; chat_id = chat_id; user_id = user_id; path = p } in
    if tx.stores p
    then persist_paths tx chat_id user_id paths (ids ++ i ∷ [])
        (record db { uploads = db.uploads ++ row ∷ []; next_upload = suc i })
    else persist_paths tx chat_id user_id paths ids db

-- The ids of the uploads; a file that the store refuses is left out.
unfoldable pub persist_attachments : Tx → (chat_id user_id : ℕ) → List Attachment → Db → List ℕ × Db
unfolding unique_local_paths persist_paths
persist_attachments tx chat_id user_id files db =
    persist_paths tx chat_id user_id (unique_local_paths tx [] files) [] db

unfoldable pub touch_last_msg_at : (now chat_id : ℕ) → Db → Db
touch_last_msg_at now chat_id db = record db {
  chats = map (λ c. if c.id == chat_id then record c { last_msg_at = now } else c) db.chats;
}

-- `MessageService.append`.
unfoldable pub append : (now chat_id : ℕ) → MessageRole → Text → Meta → Db → Message × Db
unfolding touch_last_msg_at
append now chat_id role text meta db =
    let row : Message = record {
      id = db.next_message;
      chat_id = chat_id;
      role = role;
      text = text;
      meta = meta;
    } in
    (
      row,
      touch_last_msg_at now chat_id
          (record db { messages = db.messages ++ row ∷ []; next_message = suc (db.next_message) }),
    )

abbrev pub is_in : List ℕ → ℕ → Bool
is_in [] i = false
is_in (j ∷ ids) i = j == i || is_in ids i

unfoldable pub delete_many : (message_ids : List ℕ) → Db → Db
delete_many ids db = record db { messages = filter (λ m. not (is_in ids m.id)) db.messages }

unfoldable pub emit : EventKind → (chat_id user_id : ℕ) → Payload → Db → Db
emit kind chat_id user_id payload db = record db {
  events =
      db.events
      ++ record { kind = kind; chat_id = chat_id; user_id = user_id; payload = payload } ∷ [];
}

-- A transaction that goes through is committed; one that raises leaves the tables as they were.
abbrev pub transact : Option Exc → {A : Type 0} → (Db → A × Db) → Db → (Exc ⊎ A) × Db
transact (some exc) body db = (inl exc, db)
transact none body db = let (a, db') = body db in (inr a, record db' { turns = commit db'.turns })

abbrev pub in_transaction : {A : Type 0} → Tx → (Db → A × Db) → Db → (Exc ⊎ A) × Db
in_transaction tx = transact tx.failure
