-- ===== src/Chat/Start/Calls.antt =====
-- What `run_turn` does to the `turns` table is some calls of `TurnService`: it fails the active turn of
-- the chat or the turn that it has created, of which there is one at most.
use codex_server.Base.{
  ℕ, ◌+◌, ◌≤◌, ◌≡◌, refl, sym, ap, ◌∙◌, Bool, true, false, Option, none, some, List, [], ◌∷◌, ◌++◌,
  arith, count, count-append, if◌then◌else◌, ◌&&◌, not, is_some, String, is_nil, ◌||◌, All, ◌==◌,
  eq_refl,
}
use mathlib.Core.Path.{subst}
use codex_server.Base.Text.{Text}
use codex_server.Redis.{Redis, Net}
use codex_server.Turns.Status.{failed}
use codex_server.Turns.Table.{
  Turn, Session, try_create_starting, get_active_for_chat, finalize_once,
}
use codex_server.Turns.Table.Run.{Op, creates, finalizes, Store, begin, close, apply, step, run}
use codex_server.Chat.Start.Slot.{try_create-some}
use codex_server.Turns.Lease.{exists}
use codex_server.Turns.Recovery.{reconcile_if_stale, fail_with, finalize_orphan}
use codex_server.Chat.Log.{user, Db, append}
use codex_server.Chat.Start.{
  on_active, with_prepared, Server, handle_stale_turn, try_steer_active_turn,
  try_interrupt_active_turn, if_proceeds, talk_to_active, clear_zombie, handle_active_turn,
  payload_of, created, create_web_turn, enqueue_turn, enqueue_created, start_turn, run_turn,
}
use codex_server.Chat.Request.{
  PreparedRunTurn, Control, answers, stale_sidecar, rpc_error, control_raises, Enqueue, queued,
  enqueue_error, enqueue_raises, Surroundings, Outcome, proceeds, fails, says, user_message_meta,
}

abbrev pub is_creation : Op → Bool
is_creation (creates keys now id payload) = true
is_creation _ = false

abbrev pub is_id : Option Turn → ℕ → Bool
is_id none i = false
is_id (some turn) i = turn.id == i

-- The calls on the active turn of a chat, and on a new one.
abbrev pub is_own : (chat_id new : ℕ) → (active : Option Turn) → Op → Bool
is_own chat new active (creates keys now id payload) = id == new && payload.chat_id == chat
is_own chat new active (finalizes now id failed code detail) = is_id active id || id == new
is_own chat new active _ = false

-- One table comes of another by calls of these, of which `n` at most create a turn.
pub record Reaches (own : Op → Bool) (n : ℕ) (t t' : Store) : Type 0 where
  pub ops : List Op
  pub only : All (λ op. own op ≡ true) ops
  pub by_run : t' ≡ run ops t
  pub creations : count is_creation ops ≤ n

run-append : (ops more : List Op) (t : Store) → run (ops ++ more) t ≡ run more (run ops t)
unfolding run
run-append [] more t = refl
run-append (op ∷ ops) more t = run-append ops more (step op t).1

All-append :
    (own : Op → Bool) (ops more : List Op)
    → All (λ op. own op ≡ true) ops
    → All (λ op. own op ≡ true) more
    → All (λ op. own op ≡ true) (ops ++ more)
All-append own [] more h k = k
All-append own (op ∷ ops) more (h, hs) k = (h, All-append own ops more hs k)

stays : (own : Op → Bool) (n : ℕ) (t : Store) → Reaches own n t t
unfolding run
stays own n t = record { ops = []; only = tt; by_run = refl; creations = omega arith }

Reaches-trans :
    (own : Op → Bool) (m n : ℕ) {t t' t'' : Store}
    → Reaches own m t t'
    → Reaches own n t' t''
    → Reaches own (m + n) t t''
Reaches-trans own m n {t} h k = record {
  ops = h.ops ++ k.ops;
  only = All-append own h.ops k.ops h.only k.only;
  by_run = k.by_run ∙ (ap (run k.ops) h.by_run ∙ sym (run-append h.ops k.ops t));
  creations = omega (arith, count-append is_creation h.ops k.ops, h.creations, k.creations);
}

-- The calls may fail this turn.
abbrev Fails : (Op → Bool) → ℕ → Type 0
Fails own i =
    (now : ℕ) (code detail : Option String) → own (finalizes now i failed code detail) ≡ true

failed-Reaches :
    (own : Op → Bool) (n now i : ℕ) (code detail : String) (t : Store)
    → Fails own i
    → Reaches own n t (close (fail_with now i code detail (begin t)))
unfolding run step apply finalize_once
failed-Reaches own n now i code detail t h = record {
  ops = finalizes now i failed (some code) (some detail) ∷ [];
  only = (h now (some code) (some detail), tt);
  by_run = refl;
  creations = omega arith;
}

module _ (redis : Redis) (own : Op → Bool) where
  -- How the table gets from one state of the server to another.
  abbrev Goes : ℕ → Server redis → Outcome × Server redis → Type 0
  Goes n w r = Reaches own n w.table r.1.table

  if-Goes :
      (n : ℕ) (b : Bool) (w : Server redis) (x y : Outcome × Server redis)
      → Goes n w x
      → Goes n w y
      → Goes n w (if b then x else y)
  if-Goes n true w x y p q = p
  if-Goes n false w x y p q = q

  stale-Reaches :
      (now : ℕ) (turn : Turn) (actual : String) (w : Server redis)
      → Fails own turn.id
      → Reaches own 0 w.table (handle_stale_turn redis now turn actual w).table
  unfolding handle_stale_turn
  stale-Reaches now turn actual w h = failed-Reaches own 0 now turn.id _ _ w.table h

  steer-Goes :
      (now : ℕ) (p : PreparedRunTurn) (turn : Turn) (c : Control) (w : Server redis)
      → Fails own turn.id
      → Goes 0 w (try_steer_active_turn redis now p turn c w)
  steer-Goes now p turn (answers true) w h = stays own 0 w.table
  steer-Goes now p turn (answers false) w h = stays own 0 w.table
  steer-Goes now p turn (stale_sidecar actual) w h = stale-Reaches now turn actual w h
  steer-Goes now p turn rpc_error w h = stays own 0 w.table
  steer-Goes now p turn control_raises w h = stays own 0 w.table

  interrupt-Goes :
      (now : ℕ) (turn : Turn) (c : Control) (w : Server redis)
      → Fails own turn.id
      → Goes 0 w (try_interrupt_active_turn redis now turn c w)
  interrupt-Goes now turn (answers true) w h = stays own 0 w.table
  interrupt-Goes now turn (answers false) w h = stays own 0 w.table
  interrupt-Goes now turn (stale_sidecar actual) w h = stale-Reaches now turn actual w h
  interrupt-Goes now turn rpc_error w h = stays own 0 w.table
  interrupt-Goes now turn control_raises w h = stays own 0 w.table

  then-Goes :
      (now : ℕ) (turn : Turn) (c : Control) (w : Server redis) (r : Outcome × Server redis)
      → Fails own turn.id
      → Goes 0 w r
      → Goes 0 w (if_proceeds redis (try_interrupt_active_turn redis now turn c) r)
  then-Goes now turn c w (proceeds, w') f h =
      Reaches-trans own 0 0 h (interrupt-Goes now turn c w' f)
  then-Goes now turn c w (fails, w') f h = h
  then-Goes now turn c w (says answer, w') f h = h

  zombie-Goes :
      (env : Surroundings) (p : PreparedRunTurn) (turn : Turn) (w : Server redis)
      → Fails own turn.id
      → Goes 0 w (clear_zombie redis env p turn w)
  unfolding clear_zombie talk_to_active
  zombie-Goes env p turn w h =
      if-Goes 0 (is_some turn.codex_turn_id && not (exists redis env.lease_net turn.id w.keys)) w _
        _ (failed-Reaches own 0 env.now turn.id _ _ w.table h)
        (if-Goes 0 (not (is_some turn.codex_turn_id) || p.has_uploads) w _ _ (stays own 0 w.table)
          (then-Goes env.now turn env.interrupt w _ h (steer-Goes env.now p turn env.steer w h)))

  if-Reaches :
      (b : Bool) (t : Store) (x y : Bool × (Store × redis.Store))
      → Reaches own 0 t x.1.0
      → Reaches own 0 t y.1.0
      → Reaches own 0 t (if b then x else y).1.0
  if-Reaches true t x y p q = p
  if-Reaches false t x y p q = q

  reconcile-Reaches :
      (env : Surroundings) (turn : Turn) (w : Server redis)
      → Fails own turn.id
      → Reaches own 0 w.table
          (reconcile_if_stale redis env.reconcile_net env.now turn (w.table, w.keys)).1.0
  unfolding reconcile_if_stale finalize_orphan
  reconcile-Reaches env turn w h =
      if-Reaches _ w.table _ _ (stays own 0 w.table)
        (failed-Reaches own 0 env.now turn.id _ _ w.table h)

  active-Goes :
      (env : Surroundings) (p : PreparedRunTurn) (o : Option Turn) (w : Server redis)
      → ((turn : Turn) → o ≡ some turn → Fails own turn.id)
      → Goes 0 w (on_active redis env p o w)
  active-Goes env p none w f = stays own 0 w.table
  active-Goes env p (some turn) w f =
      let (gone, (table, keys)) =
        reconcile_if_stale redis env.reconcile_net env.now turn (w.table, w.keys) in
      let w' : Server redis = record w { table = table; keys = keys } in
      let reached = reconcile-Reaches env turn w (f turn refl) in
      if-Goes 0 gone w (proceeds, w') (clear_zombie redis env p turn w') reached
        (Reaches-trans own 0 0 reached (zombie-Goes env p turn w' (f turn refl)))

  -- The calls may create this turn, and fail it.
  record Starts (env : Surroundings) (p : PreparedRunTurn) : Type 0 where
    pub creation :
        (i : ℕ) → own (creates env.keys_exist env.now env.turn_id (payload_of redis p i)) ≡ true
    pub failure : Fails own env.turn_id

  enqueue-Goes :
      (n now : ℕ) (turn : Turn) (net : Net) (q : Enqueue) (w : Server redis)
      → Fails own turn.id
      → Goes n w (enqueue_turn redis now turn net q w)
  enqueue-Goes n now turn net queued w h = stays own n w.table
  enqueue-Goes n now turn net (enqueue_error taken detail) w h =
      failed-Reaches own n now turn.id _ detail w.table h
  enqueue-Goes n now turn net (enqueue_raises taken) w h = stays own n w.table

  created-Goes :
      (env : Surroundings) (p : PreparedRunTurn) (db : Db) (i : ℕ) (w : Server redis)
      (r : Option Turn × Session)
      → r
        ≡ try_create_starting env.keys_exist env.now env.turn_id
            (payload_of redis p i)
            (begin w.table)
      → Starts env p
      → Goes 1 w (enqueue_created redis env (created redis p db r w))
  unfolding run step apply
  created-Goes env p db i w (none, s) e h = stays own 1 w.table
  created-Goes env p db i w (some turn, s) e h =
      let named =
        (try_create-some env.keys_exist env.now env.turn_id (payload_of redis p i) (begin w.table) s
          turn (sym e)).0 in
      let w' = (created redis p db (some turn, s) w).1 in
      let creation : Reaches own 1 w.table w'.table = record {
        ops = creates env.keys_exist env.now env.turn_id (payload_of redis p i) ∷ [];
        only = (h.creation i, tt);
        by_run = ap (λ (r : Option Turn × Session). close r.1) e;
        creations = omega arith;
      } in
      Reaches-trans own 1 0 creation (
        enqueue-Goes 0 env.now turn env.slot_release env.enqueue w'
          (subst (Fails own) (sym named) h.failure))

  start-Goes :
      (env : Surroundings) (p : PreparedRunTurn) (w : Server redis) (r : Outcome × Server redis)
      → Starts env p
      → Goes 0 w r
      → Goes 1 w (start_turn redis env p r)
  unfolding create_web_turn
  start-Goes env p w (proceeds, w') s h =
      let (message, db) = append env.now p.chat_id user p.text (user_message_meta p) w'.db in
      Reaches-trans own 0 1 h (created-Goes env p db message.id w' _ refl s)
  start-Goes env p w (fails, w') s h = Reaches-trans own 0 1 h (stays own 1 w'.table)
  start-Goes env p w (says answer, w') s h = Reaches-trans own 0 1 h (stays own 1 w'.table)

-- What `run_turn` may do for a request: with the active turn of its chat, and with the new one.
abbrev pub own_calls : {redis : Redis} → Surroundings → PreparedRunTurn → Server redis → Op → Bool
own_calls env p w = is_own p.chat_id env.turn_id (get_active_for_chat p.chat_id w.table.rows)

active-Fails :
    (chat new : ℕ) (o : Option Turn) (turn : Turn)
    → o ≡ some turn
    → Fails (is_own chat new o) turn.id
active-Fails chat new none turn e now code detail = cc
active-Fails chat new (some t) turn e now code detail = ground (arith, e, eq_refl turn.id)

-- Up to the new turn.
pub handle-Reaches :
    (redis : Redis) (env : Surroundings) (p : PreparedRunTurn) (w : Server redis)
    → Reaches (own_calls env p w) 0 w.table (handle_active_turn redis env p w).1.table
unfolding handle_active_turn
handle-Reaches redis env p w =
    let active = get_active_for_chat p.chat_id w.table.rows in
    active-Goes redis (own_calls env p w) env p active w
      (λ turn e. active-Fails p.chat_id env.turn_id active turn e)

pub run_turn-Reaches :
    (redis : Redis) (text : Text) (has_upload_ids reserved : Bool) (p : PreparedRunTurn)
    (env : Surroundings) (w : Server redis)
    → Reaches
        (own_calls env p w)
        1
        w.table
        (run_turn redis text has_upload_ids reserved (some p) env w).1.table
unfolding run_turn
run_turn-Reaches redis text has_upload_ids reserved p env w =
    let own = own_calls env p w in
    let active = get_active_for_chat p.chat_id w.table.rows in
    let starts : Starts redis own env p = record {
      creation = λ i. ground (arith, eq_refl env.turn_id, eq_refl p.chat_id);
      failure = λ now code detail. ground (arith, eq_refl env.turn_id);
    } in
    if-Goes redis own 1 (is_nil text && not has_upload_ids) w _ _ (stays own 1 w.table) (
      if-Goes redis own 1 (not reserved) w _ (with_prepared redis env (some p) w)
        (stays own 1 w.table)
        (start-Goes redis own env p w (handle_active_turn redis env p w) starts
          (handle-Reaches redis env p w)))
