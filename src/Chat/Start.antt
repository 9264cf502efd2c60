-- ===== src/Chat/Start.antt =====
-- `run_turn` of app/rpc/chat/service.py, from the request to the turn that a worker takes over. What
-- the request's uploads resolve to, and what the sidecar, Redis and the queue answer, comes as
-- `Surroundings`; the sessions of the database go through.
pub mod Calls
pub mod Slot
pub mod Refused
pub mod Live
pub mod Others
use codex_server.Base.{
  ℕ, suc, Bool, true, false, ◌&&◌, ◌||◌, not, Option, none, some, List, [], ◌∷◌, ◌++◌,
  if◌then◌else◌, length, is_nil, is_some, String,
}
use text.Mathlib.Text.{◌==◌ as str_eq}
use Prim.Native.String.{◌++◌ as str_append}
use codex_server.Base.Text.{Text, codes}
use codex_server.Redis.{Redis, Net, executed}
use codex_server.Turns.Status.{failed}
use codex_server.Turns.Table.{
  Turn, TurnCreate, SidecarName, Session, get_active_for_chat, try_create_starting,
}
use codex_server.Turns.Table.Run.{Store, begin, close}
use codex_server.Turns.Lease.{exists}
use codex_server.Turns.Locks.{release_active}
use codex_server.Turns.Recovery.{reconcile_if_stale, fail_with}
use codex_server.Chat.Log.{Message, user, Meta, no_meta, Db, turn_started, started, append, emit}
use codex_server.Chat.Request.{
  PreparedRunTurn, Control, Enqueue, Surroundings, Outcome, user_message_meta, answers,
  stale_sidecar, rpc_error, control_raises, queued, enqueue_error, enqueue_raises, refused,
  steered_fallback, turn_begun, proceeds, fails, says,
}

-- The thread of a turn, if it has one.
abbrev pub named : Option String → List String
named none = []
named (some thread) = if str_eq thread "" then [] else thread ∷ []

module _ (redis : Redis) where
  -- The tables, the keys, the turns on the queue, and the rate-limit slots given back.
  pub record Server : Type 0 where
    pub table : Store
    pub keys : redis.Store
    pub db : Db
    pub queue : List ℕ
    pub steer_counts : List ℕ
    pub quarantined : List String
    pub slots_released : ℕ

  -- `finalize_once` with FAILED, in a transaction of its own.
  abbrev pub fails_turn : (now turn_id : ℕ) → (code detail : String) → Server → Server
  fails_turn now turn_id code detail w = record w {
    table = close (fail_with now turn_id code detail (begin w.table));
  }

  -- `_handle_stale_turn`; the interrupt of the turn that the sidecar holds leaves nothing here.
  pub handle_stale_turn : (now : ℕ) → Turn → (actual : String) → Server → Server
  handle_stale_turn now turn actual w =
      fails_turn now turn.id "stale_active_turn" (str_append "sidecar held " actual)
        (record w { quarantined = w.quarantined ++ named turn.codex_thread_id })

  -- `_try_steer_active_turn`: a steer that is not accepted proceeds.
  abbrev pub try_steer_active_turn :
      (now : ℕ) → PreparedRunTurn → Turn → Control → Server → Outcome × Server
  try_steer_active_turn now p turn (answers true) w = (
    says (steered_fallback p.chat_id),
    record w {
      db = (append now p.chat_id user p.text (record no_meta { steered = true }) w.db).1;
      steer_counts = w.steer_counts ++ turn.id ∷ [];
    },
  )
  try_steer_active_turn now p turn (answers false) w = (proceeds, w)
  try_steer_active_turn now p turn (stale_sidecar actual) w =
      (says (refused "stale_active_turn"), handle_stale_turn now turn actual w)
  try_steer_active_turn now p turn rpc_error w = (proceeds, w)
  try_steer_active_turn now p turn control_raises w = (fails, w)

  -- `_try_interrupt_active_turn`, and what follows its answer.
  abbrev pub try_interrupt_active_turn : (now : ℕ) → Turn → Control → Server → Outcome × Server
  try_interrupt_active_turn now turn (answers true) w = (proceeds, w)
  try_interrupt_active_turn now turn (answers false) w = (says (refused "turn_busy"), w)
  try_interrupt_active_turn now turn (stale_sidecar actual) w =
      (says (refused "stale_active_turn"), handle_stale_turn now turn actual w)
  try_interrupt_active_turn now turn rpc_error w = (says (refused "turn_busy"), w)
  try_interrupt_active_turn now turn control_raises w = (fails, w)

  abbrev pub if_proceeds : (Server → Outcome × Server) → Outcome × Server → Outcome × Server
  if_proceeds next (proceeds, w) = next w
  if_proceeds next (fails, w) = (fails, w)
  if_proceeds next (says answer, w) = (says answer, w)

  -- The rest of `_handle_active_turn` for a turn that is neither stale nor a zombie.
  pub talk_to_active : Surroundings → PreparedRunTurn → Turn → Server → Outcome × Server
  talk_to_active env p turn w =
      if not (is_some turn.codex_turn_id) || p.has_uploads
      then (says (refused "turn_busy"), w)
      else if_proceeds (try_interrupt_active_turn env.now turn env.interrupt)
          (try_steer_active_turn env.now p turn env.steer w)

  -- A turn that has been started and whose lease is gone has no worker.
  pub clear_zombie : Surroundings → PreparedRunTurn → Turn → Server → Outcome × Server
  unfolding talk_to_active
  clear_zombie env p turn w =
      if is_some turn.codex_turn_id && not (exists redis env.lease_net turn.id w.keys)
      then (let w' =
            fails_turn env.now turn.id "lease_expired" "worker lease missing — runner dead" w in
          (
            proceeds,
            record w' {
              keys = (release_active redis env.release_net turn.chat_id turn.id w.keys).1;
            },
          ))
      else talk_to_active env p turn w

  -- For the active turn of the chat, if it has one: a stale one is finalized, and is gone.
  abbrev pub on_active : Surroundings → PreparedRunTurn → Option Turn → Server → Outcome × Server
  on_active env p none w = (proceeds, w)
  on_active env p (some turn) w =
      let (gone, (table, keys)) =
        reconcile_if_stale redis env.reconcile_net env.now turn (w.table, w.keys) in
      let w' : Server = record w { table = table; keys = keys } in
      if gone then (proceeds, w') else clear_zombie env p turn w'

  pub handle_active_turn : Surroundings → PreparedRunTurn → Server → Outcome × Server
  unfolding clear_zombie
  handle_active_turn env p w = on_active env p (get_active_for_chat p.chat_id w.table.rows) w

  abbrev pub payload_of : PreparedRunTurn → (user_message_id : ℕ) → TurnCreate
  payload_of p i = record {
    chat_id = p.chat_id;
    user_id = p.user_id;
    user_message_id = i;
    sidecar = p.sidecar;
  }

  -- The commit of `_create_web_turn`, or the end of its session without one.
  abbrev pub created : PreparedRunTurn → Db → Option Turn × Session → Server → Option Turn × Server
  created p db (none, s) w = (none, w)
  created p db (some turn, s) w = (
    some turn,
    record w {
      table = close s;
      db =
          emit turn_started p.chat_id p.user_id
            (started turn.id (length p.text) (length p.uploads.image_urls)
              (length p.uploads.file_paths))
            db;
    },
  )

  -- `_create_web_turn`: no turn is the lost race for the chat.
  pub create_web_turn : Surroundings → PreparedRunTurn → Server → Option Turn × Server
  create_web_turn env p w =
      let (message, db) = append env.now p.chat_id user p.text (user_message_meta p) w.db in
      created p db
        (try_create_starting env.keys_exist env.now env.turn_id (payload_of p message.id)
          (begin w.table))
        w

  -- `release_turn`, in the `finally` statement.
  abbrev pub give_slot_back : Net → Server → Server
  give_slot_back net w = record w {
    slots_released = if executed net then suc (w.slots_released) else w.slots_released;
  }

  -- The broker has the message, or it has not.
  abbrev pub put : (taken : Bool) → (turn_id : ℕ) → Server → Server
  put taken turn_id w = record w { queue = if taken then w.queue ++ turn_id ∷ [] else w.queue }

  -- `_enqueue_turn`, and what `run_turn` does with its answer: the slot is the worker's from here on,
  -- or it is given back.
  abbrev pub enqueue_turn : (now : ℕ) → Turn → Net → Enqueue → Server → Outcome × Server
  enqueue_turn now turn net queued w = (says (turn_begun turn.id), put true turn.id w)
  enqueue_turn now turn net (enqueue_error taken detail) w = (
    says (refused "codex_error"),
    give_slot_back net (fails_turn now turn.id "enqueue_failed" detail (put taken turn.id w)),
  )
  enqueue_turn now turn net (enqueue_raises taken) w =
      (fails, give_slot_back net (put taken turn.id w))

  abbrev pub enqueue_created : Surroundings → Option Turn × Server → Outcome × Server
  enqueue_created env (none, w) = (says (refused "turn_busy"), give_slot_back env.slot_release w)
  enqueue_created env (some turn, w) = enqueue_turn env.now turn env.slot_release env.enqueue w

  -- Behind `_handle_active_turn`.
  abbrev pub start_turn : Surroundings → PreparedRunTurn → Outcome × Server → Outcome × Server
  start_turn env p (proceeds, w) = enqueue_created env (create_web_turn env p w)
  start_turn env p (fails, w) = (fails, give_slot_back env.slot_release w)
  start_turn env p (says answer, w) = (says answer, give_slot_back env.slot_release w)

  abbrev pub with_prepared : Surroundings → Option PreparedRunTurn → Server → Outcome × Server
  with_prepared env none w = (fails, give_slot_back env.slot_release w)
  with_prepared env (some p) w = start_turn env p (handle_active_turn env p w)

  -- `run_turn`, up to the tail of the turn's stream: `reserved` is the answer of `reserve_turn`, and
  -- `prepared` is empty if `_prepare_run_turn` raises.
  pub run_turn :
      (text : Text) (has_upload_ids reserved : Bool)
      → Option PreparedRunTurn
      → Surroundings
      → Server
      → Outcome × Server
  unfolding handle_active_turn create_web_turn
  run_turn text has_upload_ids reserved prepared env w =
      if is_nil text && not has_upload_ids
      then (says (refused "empty_text"), w)
      else if not reserved
      then (says (refused "rate_limited"), w)
      else with_prepared env prepared w
