-- ===== src/Chat/Start/Refused.antt =====
-- A turn that the queue would not take, and that a worker gets all the same.
use codex_server.Base.{
  ℕ, ◌≤◌, ◌≡◌, refl, sym, ap, ◌∙◌, Bool, true, false, Option, none, some, List, [], ◌∷◌, arith,
  count, ◌&&◌, not, String, is_nil, find?, if◌then◌else◌, All,
}
use mathlib.Core.Path.{subst}
use codex_server.Base.Text.{Text}
use codex_server.Redis.{Redis}
use codex_server.Turns.Status.{is_terminal, failed}
use codex_server.Turns.Table.{
  Turn, Session, try_create_starting, get_by_id, has_id, active_with, finalize_once,
}
use codex_server.Turns.Table.Run.{
  Op, creates, marks, attaches, notes_event, beats, finalizes, Store, begin, close, step, apply,
  run,
}
use codex_server.Turns.Table.Once.{step-win, active-le-id, finalize-clears, LeavesId}
use codex_server.Turns.Recovery.{fail_with}
use codex_server.Turns.Runner.{Delivery, World, execute_turn_inner}
use codex_server.Turns.Runner.Delivered.{execute-ended}
use codex_server.Chat.Log.{Db, user, append}
use codex_server.Chat.Start.{
  with_prepared, Server, handle_active_turn, payload_of, created, create_web_turn, enqueue_created,
  start_turn, run_turn, enqueue_turn,
}
use codex_server.Chat.Request.{
  refused, PreparedRunTurn, enqueue_error, Surroundings, Outcome, proceeds, fails, says,
  user_message_meta, Enqueue,
}
use codex_server.Chat.Start.Calls.{is_creation, handle-Reaches}
use codex_server.Chat.Start.Slot.{try_create-some}

no_creation-LeavesId : (i : ℕ) (op : Op) → count is_creation (op ∷ []) ≡ 0 → LeavesId i op
no_creation-LeavesId i (creates keys now id payload) h = cc
no_creation-LeavesId i (marks now id thread turn) h = tt
no_creation-LeavesId i (attaches id message) h = tt
no_creation-LeavesId i (notes_event id event) h = tt
no_creation-LeavesId i (beats now id) h = tt
no_creation-LeavesId i (finalizes now id status code detail) h = tt

-- Calls that create no turn leave a turn that is not active so.
run-inactive :
    (i : ℕ) (ops : List Op) (t : Store)
    → count is_creation ops ≤ 0
    → count (active_with i) t.rows ≡ 0
    → count (active_with i) (run ops t).rows ≡ 0
unfolding run
run-inactive i [] t c h = h
run-inactive i (op ∷ ops) t c h =
    run-inactive i ops (step op t).1 (omega arith)
      (omega (arith, step-win i op t (no_creation-LeavesId i op (omega arith))))

-- Neither do calls that leave its id alone.
run-left :
    (i : ℕ) (ops : List Op) (t : Store)
    → All (LeavesId i) ops
    → count (active_with i) t.rows ≡ 0
    → count (active_with i) (run ops t).rows ≡ 0
unfolding run
run-left i [] t l h = h
run-left i (op ∷ ops) t (l, ls) h =
    run-left i ops (step op t).1 ls (omega (arith, step-win i op t l))

failed-inactive :
    (now i : ℕ) (code detail : String) (t : Store)
    → count (active_with i) (close (fail_with now i code detail (begin t))).rows ≡ 0
unfolding step apply finalize_once
failed-inactive now i code detail t = finalize-clears now i failed (some code) (some detail) t refl

-- A row that is found and not active has ended.
found-terminal :
    (i : ℕ) (rows : List Turn) (r : Turn)
    → find? (has_id i) rows ≡ some r
    → count (active_with i) rows ≡ 0
    → is_terminal r.status ≡ true
found-terminal i [] r e h = cc
found-terminal i (s ∷ rows) r e h = ground (arith, found-terminal i rows r)

module _ (redis : Redis) where
  abbrev Inactive : ℕ → Outcome × Server redis → Type 0
  Inactive i r = count (active_with i) r.1.table.rows ≡ 0

  if-Inactive :
      (i : ℕ) (b : Bool) (x y : Outcome × Server redis)
      → Inactive i x
      → Inactive i y
      → Inactive i (if b then x else y)
  if-Inactive i true x y p q = p
  if-Inactive i false x y p q = q

  created-Inactive :
      (env : Surroundings) (p : PreparedRunTurn) (db : Db) (k : ℕ) (taken : Bool) (detail : String)
      (w : Server redis) (r : Option Turn × Session)
      → env.enqueue ≡ enqueue_error taken detail
      → r
        ≡ try_create_starting env.keys_exist env.now env.turn_id
            (payload_of redis p k)
            (begin w.table)
      → count (active_with env.turn_id) w.table.rows ≡ 0
      → Inactive env.turn_id (enqueue_created redis env (created redis p db r w))
  created-Inactive env p db k taken detail w (none, s) q e h = h
  created-Inactive env p db k taken detail w (some turn, s) q e h =
      let (named, active) =
        try_create-some env.keys_exist env.now env.turn_id (payload_of redis p k) (begin w.table) s
          turn (sym e) in
      let w' = (created redis p db (some turn, s) w).1 in
      subst
        (λ (x : Enqueue).
          Inactive env.turn_id (enqueue_turn redis env.now turn env.slot_release x w'))
        (sym q)
        (subst
          (λ i.
            count (active_with i)
              (close (fail_with env.now turn.id "enqueue_failed" detail (begin w'.table))).rows
            ≡ 0)
          named (failed-inactive env.now turn.id "enqueue_failed" detail w'.table))

  start-Inactive :
      (env : Surroundings) (p : PreparedRunTurn) (taken : Bool) (detail : String)
      (r : Outcome × Server redis)
      → env.enqueue ≡ enqueue_error taken detail
      → Inactive env.turn_id r
      → Inactive env.turn_id (start_turn redis env p r)
  unfolding create_web_turn
  start-Inactive env p taken detail (proceeds, w) q h =
      let (message, db) = append env.now p.chat_id user p.text (user_message_meta p) w.db in
      created-Inactive env p db message.id taken detail w _ q refl h
  start-Inactive env p taken detail (fails, w) q h = h
  start-Inactive env p taken detail (says answer, w) q h = h

  prepared-Inactive :
      (env : Surroundings) (o : Option PreparedRunTurn) (taken : Bool) (detail : String)
      (w : Server redis)
      → env.enqueue ≡ enqueue_error taken detail
      → count (has_id env.turn_id) w.table.rows ≡ 0
      → Inactive env.turn_id (with_prepared redis env o w)
  unfolding handle_active_turn
  prepared-Inactive env none taken detail w q h =
      omega (arith, active-le-id env.turn_id w.table.rows)
  prepared-Inactive env (some p) taken detail w q h =
      let goes = handle-Reaches redis env p w in
      start-Inactive env p taken detail (handle_active_turn redis env p w) q (
        subst (λ (t : Store). count (active_with env.turn_id) t.rows ≡ 0) (sym goes.by_run)
          (run-inactive env.turn_id goes.ops w.table goes.creations
            (omega (arith, active-le-id env.turn_id w.table.rows))))

  -- A `run_turn` whose `kiq` raises one of the exceptions that it handles, whether or not the broker
  -- has taken the message, under an id that the table does not have, and with the sessions of the
  -- database going through, leaves nothing to do for a delivery of that turn that begins behind its
  -- finalization and behind any calls on the table that create no turn under that id: a worker that
  -- gets it all the same changes nothing, and gives no slot back a second time.
  pub run_turn-ignored :
      (text : Text) (has_upload_ids reserved : Bool) (prepared : Option PreparedRunTurn)
      (env : Surroundings) (taken : Bool) (detail : String) (w : Server redis) (ops : List Op)
      (d : Delivery) (v : World redis)
      → env.enqueue ≡ enqueue_error taken detail
      → count (has_id env.turn_id) w.table.rows ≡ 0
      → d.turn_id ≡ env.turn_id
      → All (LeavesId env.turn_id) ops
      → v.table ≡ run ops (run_turn redis text has_upload_ids reserved prepared env w).1.table
      → execute_turn_inner redis d v ≡ v
  unfolding run_turn get_by_id
  run_turn-ignored text has_upload_ids reserved prepared env taken detail w ops d v q fresh same
        left table =
      let i = env.turn_id in
      let before : count (active_with i) w.table.rows ≡ 0 =
        omega (arith, active-le-id i w.table.rows) in
      let asked = is_nil text && not has_upload_ids in
      let r = run_turn redis text has_upload_ids reserved prepared env w in
      let behind : count (active_with i) r.1.table.rows ≡ 0 =
        if-Inactive i asked (says (refused "empty_text"), w) _ before
          (if-Inactive i (not reserved) (says (refused "rate_limited"), w)
            (with_prepared redis env prepared w) before
            (prepared-Inactive env prepared taken detail w q fresh)) in
      let inactive : count (active_with i) v.table.rows ≡ 0 =
        ap (λ (t : Store). count (active_with i) t.rows) table
        ∙ run-left i ops r.1.table left behind in
      execute-ended redis d v (λ r e.
        found-terminal i v.table.rows r (ap (λ k. find? (has_id k) v.table.rows) (sym same) ∙ e)
          inactive)
