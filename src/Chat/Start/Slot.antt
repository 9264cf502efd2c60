-- ===== src/Chat/Start/Slot.antt =====
-- Who gives back the rate-limit slot that `run_turn` has reserved.
use codex_server.Base.{
  ℕ, suc, ◌<◌, ◌≡◌, refl, sym, ap, ◌∙◌, Bool, true, false, Option, none, some, [], ◌∷◌, ◌++◌, arith,
  count, count-append, if◌then◌else◌, ◌&&◌, not, is_some, is_nil, inl, inr, ◌||◌, ◌⊎◌,
}
use codex_server.Base.Text.{Text}
use codex_server.Redis.{Redis, executed}
use codex_server.Turns.Table.{
  Turn, TurnCreate, Session, try_create_starting, create_starting, new_turn, get_active_for_chat,
  active_with, publish_after_commit,
}
use codex_server.Turns.Table.Run.{begin}
use codex_server.Turns.Lease.{exists}
use codex_server.Turns.Recovery.{reconcile_if_stale}
use codex_server.Chat.Log.{Db, user, append}
use codex_server.Chat.Start.{
  on_active, with_prepared, Server, handle_stale_turn, try_steer_active_turn,
  try_interrupt_active_turn, if_proceeds, talk_to_active, clear_zombie, handle_active_turn,
  payload_of, created, create_web_turn, enqueue_turn, enqueue_created, start_turn, run_turn,
  give_slot_back,
}
use codex_server.Chat.Request.{
  PreparedRunTurn, Control, answers, stale_sidecar, rpc_error, control_raises, Enqueue, queued,
  enqueue_error, enqueue_raises, Surroundings, refused, turn_begun, Outcome, proceeds, fails, says,
  user_message_meta,
}

abbrev pub is_begun : Outcome → Bool
is_begun (says (turn_begun turn_id)) = true
is_begun _ = false

-- A created turn has the id that the database gave, and is active.
pub try_create-some :
    (keys : Bool) (now id : ℕ) (payload : TurnCreate) (s s' : Session) (turn : Turn)
    → try_create_starting keys now id payload s ≡ (some turn, s')
    → (turn.id ≡ id) × (0 < count (active_with id) s'.rows)
unfolding try_create_starting create_starting new_turn publish_after_commit
try_create-some keys now id payload s s' turn e =
    ground (arith, count-append (active_with id) s.rows (new_turn now id payload ∷ []))

module _ (redis : Redis) where
  -- No turn has begun, and the queue and the slots are as before.
  abbrev Quiet : Server redis → Outcome × Server redis → Type 0
  Quiet w r =
      (is_begun r.0 ≡ false) × (r.1.queue ≡ w.queue) × (r.1.slots_released ≡ w.slots_released)

  if-Quiet :
      (b : Bool) (w : Server redis) (x y : Outcome × Server redis)
      → Quiet w x
      → Quiet w y
      → Quiet w (if b then x else y)
  if-Quiet true w x y p q = p
  if-Quiet false w x y p q = q

  steer-Quiet :
      (now : ℕ) (p : PreparedRunTurn) (turn : Turn) (c : Control) (w : Server redis)
      → Quiet w (try_steer_active_turn redis now p turn c w)
  unfolding handle_stale_turn
  steer-Quiet now p turn (answers true) w = (refl, refl, refl)
  steer-Quiet now p turn (answers false) w = (refl, refl, refl)
  steer-Quiet now p turn (stale_sidecar actual) w = (refl, refl, refl)
  steer-Quiet now p turn rpc_error w = (refl, refl, refl)
  steer-Quiet now p turn control_raises w = (refl, refl, refl)

  then-Quiet :
      (now : ℕ) (turn : Turn) (c : Control) (w : Server redis) (r : Outcome × Server redis)
      → Quiet w r
      → Quiet w (if_proceeds redis (try_interrupt_active_turn redis now turn c) r)
  unfolding handle_stale_turn
  then-Quiet now turn (answers true) w (proceeds, w') h = h
  then-Quiet now turn (answers false) w (proceeds, w') h = h
  then-Quiet now turn (stale_sidecar actual) w (proceeds, w') h = h
  then-Quiet now turn rpc_error w (proceeds, w') h = h
  then-Quiet now turn control_raises w (proceeds, w') h = h
  then-Quiet now turn c w (fails, w') h = h
  then-Quiet now turn c w (says answer, w') h = h

  zombie-Quiet :
      (env : Surroundings) (p : PreparedRunTurn) (turn : Turn) (w : Server redis)
      → Quiet w (clear_zombie redis env p turn w)
  unfolding clear_zombie talk_to_active
  zombie-Quiet env p turn w =
      if-Quiet (is_some turn.codex_turn_id && not (exists redis env.lease_net turn.id w.keys)) w _ _
        (refl, refl, refl)
        (if-Quiet (not (is_some turn.codex_turn_id) || p.has_uploads) w _ _ (refl, refl, refl)
          (then-Quiet env.now turn env.interrupt w _ (steer-Quiet env.now p turn env.steer w)))

  active-Quiet :
      (env : Surroundings) (p : PreparedRunTurn) (o : Option Turn) (w : Server redis)
      → Quiet w (on_active redis env p o w)
  active-Quiet env p none w = (refl, refl, refl)
  active-Quiet env p (some turn) w =
      let (gone, (table, keys)) =
        reconcile_if_stale redis env.reconcile_net env.now turn (w.table, w.keys) in
      let w' : Server redis = record w { table = table; keys = keys } in
      if-Quiet gone w (proceeds, w') (clear_zombie redis env p turn w') (refl, refl, refl)
        (zombie-Quiet env p turn w')

  -- The turn is on the queue, and its worker has the slot; or it is not, and the slot is back.
  abbrev pub IsAccounted : Surroundings → Server redis → Outcome × Server redis → Type 0
  IsAccounted env w r =
      ((r.0 ≡ says (turn_begun env.turn_id))
        × (r.1.queue ≡ w.queue ++ env.turn_id ∷ [])
        × (r.1.slots_released ≡ w.slots_released)
        × (0 < count (active_with env.turn_id) r.1.table.rows))
      ⊎ ((is_begun r.0 ≡ false)
          × (r.1.queue ≡ w.queue)
          × (r.1.slots_released ≡ suc (w.slots_released)))

  -- A `kiq` that raises has not put the turn on the queue.
  abbrev pub is_clear : Enqueue → Bool
  is_clear queued = true
  is_clear (enqueue_error taken detail) = not taken
  is_clear (enqueue_raises taken) = not taken

  -- The calls of `run_turn` to the queue and for the slot do what they say.
  pub record IsClear (env : Surroundings) : Type 0 where
    pub enqueue : is_clear env.enqueue ≡ true
    pub slot_release : executed env.slot_release ≡ true

  back :
      (env : Surroundings) (w w' : Server redis)
      → IsClear env
      → w'.slots_released ≡ w.slots_released
      → (give_slot_back redis env.slot_release w').slots_released ≡ suc (w.slots_released)
  back env w w' c k =
      ap (λ b. if b then suc (w'.slots_released) else w'.slots_released) c.slot_release ∙ ap suc k

  enqueue-IsAccounted :
      (env : Surroundings) (turn : Turn) (q : Enqueue) (w w' : Server redis)
      → IsClear env
      → is_clear q ≡ true
      → turn.id ≡ env.turn_id
      → 0 < count (active_with env.turn_id) w'.table.rows
      → w'.queue ≡ w.queue
      → w'.slots_released ≡ w.slots_released
      → IsAccounted env w (enqueue_turn redis env.now turn env.slot_release q w')
  enqueue-IsAccounted env turn queued w w' c n e a h k = inl (
    ap (λ i. says (turn_begun i)) e,
    ap (λ q. q ++ turn.id ∷ []) h ∙ ap (λ i. w.queue ++ i ∷ []) e,
    k,
    a,
  )
  enqueue-IsAccounted env turn (enqueue_error true detail) w w' c n e a h k = cc
  enqueue-IsAccounted env turn (enqueue_error false detail) w w' c n e a h k =
      inr (refl, h, back env w w' c k)
  enqueue-IsAccounted env turn (enqueue_raises true) w w' c n e a h k = cc
  enqueue-IsAccounted env turn (enqueue_raises false) w w' c n e a h k =
      inr (refl, h, back env w w' c k)

  created-IsAccounted :
      (env : Surroundings) (p : PreparedRunTurn) (db : Db) (i : ℕ) (w w' : Server redis)
      (r : Option Turn × Session)
      → r
        ≡ try_create_starting env.keys_exist env.now env.turn_id
            (payload_of redis p i)
            (begin w'.table)
      → IsClear env
      → w'.queue ≡ w.queue
      → w'.slots_released ≡ w.slots_released
      → IsAccounted env w (enqueue_created redis env (created redis p db r w'))
  created-IsAccounted env p db i w w' (none, s) e c h k = inr (refl, h, back env w w' c k)
  created-IsAccounted env p db i w w' (some turn, s) e c h k =
      let (named, active) =
        try_create-some env.keys_exist env.now env.turn_id (payload_of redis p i) (begin w'.table) s
          turn (sym e) in
      enqueue-IsAccounted env turn env.enqueue w (created redis p db (some turn, s) w').1 c
        c.enqueue named active h k

  start-IsAccounted :
      (env : Surroundings) (p : PreparedRunTurn) (w : Server redis) (r : Outcome × Server redis)
      → IsClear env
      → Quiet w r
      → IsAccounted env w (start_turn redis env p r)
  unfolding create_web_turn
  start-IsAccounted env p w (proceeds, w') c (b, h, k) =
      let (message, db) = append env.now p.chat_id user p.text (user_message_meta p) w'.db in
      created-IsAccounted env p db message.id w w' _ refl c h k
  start-IsAccounted env p w (fails, w') c (b, h, k) = inr (refl, h, back env w w' c k)
  start-IsAccounted env p w (says answer, w') c (b, h, k) = inr (b, h, back env w w' c k)

  prepared-IsAccounted :
      (env : Surroundings) (o : Option PreparedRunTurn) (w : Server redis)
      → IsClear env
      → IsAccounted env w (with_prepared redis env o w)
  unfolding handle_active_turn
  prepared-IsAccounted env none w c = inr (refl, refl, back env w w c refl)
  prepared-IsAccounted env (some p) w c =
      start-IsAccounted env p w (handle_active_turn redis env p w) c
        (active-Quiet env p (get_active_for_chat p.chat_id w.table.rows) w)

  -- A `run_turn` with something to run, whose slot has been reserved, whose `kiq` puts nothing on the
  -- queue where it raises, whose release of the slot is executed, and with the sessions of the
  -- database going through, either answers that the turn has begun, with the turn active in the table
  -- and on the queue and the slot left to its worker, or puts nothing on the queue and gives the slot
  -- back, once: whatever the preparation, the sidecar, the lease and the queue answer.
  pub run_turn-IsAccounted :
      (text : Text) (has_upload_ids : Bool) (prepared : Option PreparedRunTurn) (env : Surroundings)
      (w : Server redis)
      → is_nil text && not has_upload_ids ≡ false
      → IsClear env
      → IsAccounted env w (run_turn redis text has_upload_ids true prepared env w)
  unfolding run_turn
  run_turn-IsAccounted text has_upload_ids prepared env w e c =
      asked (is_nil text && not has_upload_ids) e
    where
      asked :
          (b : Bool)
          → b ≡ false
          → IsAccounted env w
              (if b then (says (refused "empty_text"), w) else with_prepared redis env prepared w)
      asked true e = cc
      asked false e = prepared-IsAccounted env prepared w c
