-- ===== src/Chat/Start/Others.antt =====
-- The turns that a `run_turn` has nothing to do with.
use codex_server.Base.{
  ℕ, ◌≡◌, refl, ap, ◌∙◌, Bool, true, false, Option, none, some, List, [], ◌∷◌, ◌++◌, arith, find?,
  All, Option-cases, inl, inr, String, ◌==◌,
}
use codex_server.Base.Text.{Text}
use codex_server.Redis.{Redis}
use codex_server.Turns.Status.{TurnStatus, starting, running, completed, failed, cancelled}
use codex_server.Turns.Table.{
  Turn, TurnCreate, has_id, active_with, update_where, finalized, finalize_once,
  try_create_starting, create_starting, new_turn, publish_after_commit, get_active_for_chat,
}
use codex_server.Turns.Table.Run.{
  Op, creates, marks, attaches, notes_event, beats, finalizes, Store, step, apply, run,
}
use codex_server.Chat.Start.{Server, run_turn}
use codex_server.Chat.Request.{PreparedRunTurn, Surroundings}
use codex_server.Chat.Start.Calls.{is_id, is_own, run_turn-Reaches}

find-other_finalized :
    (now i j : ℕ) (status : TurnStatus) (code detail : Option String) (rows : List Turn)
    → j == i ≡ false
    → find? (has_id i) (update_where (active_with j) (finalized now status code detail) rows)
      ≡ find? (has_id i) rows
find-other_finalized now i j status code detail [] d = refl
find-other_finalized now i j status code detail (r ∷ rows) d =
    ground (arith, find-other_finalized now i j status code detail rows d)

find-other_created :
    (i : ℕ) (t : Turn) (rows : List Turn)
    → t.id == i ≡ false
    → find? (has_id i) (rows ++ t ∷ []) ≡ find? (has_id i) rows
find-other_created i t [] d = ground (arith, d)
find-other_created i t (r ∷ rows) d = ground (arith, find-other_created i t rows d)

finalizes-rows :
    (now j : ℕ) (code detail : Option String) (t : Store)
    → (step (finalizes now j failed code detail) t).1.rows
      ≡ update_where (active_with j) (finalized now failed code detail) t.rows
unfolding step apply finalize_once publish_after_commit
finalizes-rows now j code detail t = elim (Option-cases (find? (active_with j) t.rows)) [
  | inl e ↦ ground (arith, e)
  | inr (r, e) ↦ ground (arith, e)
]

-- The rows of a turn that is neither the active nor the new one.
finalizes-other :
    (now i j : ℕ) (code detail : Option String) (t : Store)
    → j == i ≡ false
    → find? (has_id i) (step (finalizes now j failed code detail) t).1.rows
      ≡ find? (has_id i) t.rows
finalizes-other now i j code detail t d =
    ap (find? (has_id i)) (finalizes-rows now j code detail t)
    ∙ find-other_finalized now i j failed code detail t.rows d

creates-other :
    (keys : Bool) (now i j : ℕ) (payload : TurnCreate) (t : Store)
    → j == i ≡ false
    → find? (has_id i) (step (creates keys now j payload) t).1.rows ≡ find? (has_id i) t.rows
unfolding step apply try_create_starting create_starting new_turn publish_after_commit
creates-other keys now i j payload t d =
    ground (arith, find-other_created i (new_turn now j payload) t.rows d)

step-other :
    (chat new i : ℕ) (o : Option Turn) (op : Op) (t : Store)
    → is_own chat new o op ≡ true
    → is_id o i ≡ false
    → new == i ≡ false
    → find? (has_id i) (step op t).1.rows ≡ find? (has_id i) t.rows
step-other chat new i o (creates keys now id payload) t h a d =
    creates-other keys now i id payload t (ground arith)
step-other chat new i none (finalizes now id failed code detail) t h a d =
    finalizes-other now i id code detail t (ground arith)
step-other chat new i (some r) (finalizes now id failed code detail) t h a d =
    finalizes-other now i id code detail t (ground arith)
step-other chat new i o (finalizes now id starting code detail) t h a d = cc
step-other chat new i o (finalizes now id running code detail) t h a d = cc
step-other chat new i o (finalizes now id completed code detail) t h a d = cc
step-other chat new i o (finalizes now id cancelled code detail) t h a d = cc
step-other chat new i o (marks now id thread turn) t h a d = cc
step-other chat new i o (attaches id message) t h a d = cc
step-other chat new i o (notes_event id event) t h a d = cc
step-other chat new i o (beats now id) t h a d = cc

run-other :
    (chat new i : ℕ) (o : Option Turn) (ops : List Op) (t : Store)
    → All (λ op. is_own chat new o op ≡ true) ops
    → is_id o i ≡ false
    → new == i ≡ false
    → find? (has_id i) (run ops t).rows ≡ find? (has_id i) t.rows
unfolding run
run-other chat new i o [] t h a d = refl
run-other chat new i o (op ∷ ops) t (h, hs) a d =
    run-other chat new i o ops (step op t).1 hs a d ∙ step-other chat new i o op t h a d

-- Whatever the sidecar, Redis and the queue answer, and wherever the call ends, a `run_turn` leaves
-- the row of each turn as it was but that of the active turn of its chat and that of the turn that
-- it creates, and creates no turn under another id; the sessions of the database go through.
pub run_turn-others_kept :
    (redis : Redis) (text : Text) (has_upload_ids reserved : Bool) (p : PreparedRunTurn)
    (env : Surroundings) (w : Server redis) (i : ℕ)
    → is_id (get_active_for_chat p.chat_id w.table.rows) i ≡ false
    → env.turn_id == i ≡ false
    → find? (has_id i) (run_turn redis text has_upload_ids reserved (some p) env w).1.table.rows
      ≡ find? (has_id i) w.table.rows
run_turn-others_kept redis text has_upload_ids reserved p env w i a d =
    let active = get_active_for_chat p.chat_id w.table.rows in
    let goes = run_turn-Reaches redis text has_upload_ids reserved p env w in
    ap (λ (t : Store). find? (has_id i) t.rows) goes.by_run
    ∙ run-other p.chat_id env.turn_id i active goes.ops w.table goes.only a d
