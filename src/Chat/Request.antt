-- ===== src/Chat/Request.antt =====
-- A request to run a turn as app/rpc/chat/service.py prepares it, what answers while it is run, and
-- the answers to the client.
use codex_server.Base.{
  ℕ, Bool, ◌&&◌, ◌||◌, not, Option, none, some, List, ◌++◌, if◌then◌else◌, is_nil, String,
}
use codex_server.Base.Text.{Text, codes}
use codex_server.Redis.{Net}
use codex_server.Turns.Table.{SidecarName}
use codex_server.Chat.Log.{Meta, no_meta}

pub record ResolvedUploads : Type 0 where
  pub image_urls : List Text
  pub image_ids : List ℕ
  pub audio_ids : List ℕ
  pub file_paths : List Text
  pub file_ids : List ℕ

-- `_PreparedRunTurn`.
pub record PreparedRunTurn : Type 0 where
  pub chat_id : ℕ
  pub user_id : ℕ
  pub text : Text
  pub uploads : ResolvedUploads
  pub voice_reply : Bool
  pub has_uploads : Bool
  pub sidecar : SidecarName
  pub client_id : Option Text

-- A call over the control socket of the sidecar: its answer, another turn that the sidecar holds,
-- one of `_CONTROL_RPC_ERRORS`, another exception.
pub data Control : Type 0 where
  answers : Bool → Control
  stale_sidecar : (actual_turn_id : String) → Control
  rpc_error control_raises : Control

-- `kiq` returns, raises one of the exceptions that are handled, or another (or is cancelled); also
-- where it raises, the broker may have taken the message.
pub data Enqueue : Type 0 where
  queued : Enqueue
  enqueue_error : (taken : Bool) (detail : String) → Enqueue
  enqueue_raises : (taken : Bool) → Enqueue

pub record Surroundings : Type 0 where
  pub now : ℕ
  pub reconcile_net : Net
  pub lease_net : Net
  pub release_net : Net
  pub steer : Control
  pub interrupt : Control
  pub keys_exist : Bool
  pub turn_id : ℕ
  pub enqueue : Enqueue
  pub slot_release : Net

-- What the client is sent before the events of the turn.
pub data Answer : Type 0 where
  refused : (code : String) → Answer
  steered_fallback : (chat_id : ℕ) → Answer
  turn_begun : (turn_id : ℕ) → Answer

-- How a helper ends: the call goes on, the client is answered, an exception.
pub data Outcome : Type 0 where
  proceeds fails : Outcome
  says : Answer → Outcome

default_text : Text
default_text = codes "Open the attached files and answer based on them."

-- The text of the turn: `mentions` are those of the files.
prepared_text : (text : Text) (mentions : Text) → ResolvedUploads → Text
unfolding default_text
prepared_text text mentions u =
    let asked =
      if is_nil text && (not (is_nil u.image_urls) || not (is_nil u.file_paths))
      then default_text
      else text in
    if is_nil mentions
    then asked
    else if is_nil asked
    then mentions
    else asked ++ (codes "\n\n" ++ mentions)

-- `_prepare_run_turn` behind the resolution of the chat and the uploads.
pub prepare_run_turn :
    (chat_id user_id : ℕ) (text mentions : Text)
    → SidecarName
    → (client_id : Text) → ResolvedUploads
    → PreparedRunTurn
unfolding prepared_text
prepare_run_turn chat_id user_id text mentions sidecar client_id u = record {
  chat_id = chat_id;
  user_id = user_id;
  text = prepared_text text mentions u;
  uploads = u;
  voice_reply = not (is_nil u.audio_ids);
  has_uploads =
      not (is_nil u.image_urls) || (not (is_nil u.file_paths) || not (is_nil u.audio_ids));
  sidecar = sidecar;
  client_id = if is_nil client_id then none else some client_id;
}

pub user_message_meta : PreparedRunTurn → Meta
user_message_meta p = record no_meta {
  upload_ids = p.uploads.image_ids;
  audio_upload_ids = p.uploads.audio_ids;
  file_upload_ids = p.uploads.file_ids;
}
