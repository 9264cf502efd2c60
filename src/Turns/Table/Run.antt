-- ===== src/Turns/Table/Run.antt =====
-- The calls of `TurnService` as the rows of the table see them: an order of calls, each in a
-- transaction of its own, and the changes to rows that any call may make.
use codex_server.Base.{
  ℕ, String, ◌≡◌, refl, Bool, true, false, Option, none, some, List, [], ◌∷◌, ◌++◌, arith, count,
  ltb, Bool-cases, inl, inr, ◌&&◌, not,
}
use codex_server.Turns.Status.{TurnStatus, is_active, is_terminal}
use codex_server.Turns.Table.{
  Turn, TurnCreate, Activity, Session, commit, update_where, has_id, active_in, active_with,
  create_starting, try_create_starting, mark_running, attach_assistant_message, update_last_event,
  heartbeat, finalized, finalize_once, new_turn, starting_with, marked, attached, event_noted,
  beaten,
}

pub data Op : Type 0 where
  creates : Bool → ℕ → ℕ → TurnCreate → Op
  marks : ℕ → ℕ → String → String → Op
  attaches : ℕ → ℕ → Op
  notes_event : ℕ → String → Op
  beats : ℕ → ℕ → Op
  finalizes : ℕ → ℕ → TurnStatus → Option String → Option String → Op

-- The table between transactions, and the publishes made so far.
pub record Store : Type 0 where
  pub rows : List Turn
  pub published : List Activity

abbrev pub begin : Store → Session
begin s = record { rows = s.rows; saved = s.rows; hooks = []; published = s.published }

abbrev pub close : Session → Store
close s = record { rows = (commit s).rows; published = (commit s).published }

-- Whether the call reports that it won, and the session behind it.
unfoldable pub apply : Op → Session → Bool × Session
apply (creates keys now id payload) s =
    let (row, s') = try_create_starting keys now id payload s in
    (elim row [ none ↦ false | some _ ↦ true ], s')
apply (marks now id thread turn) s = mark_running now id thread turn s
apply (attaches id message) s = (true, attach_assistant_message id message s)
apply (notes_event id event) s = (true, update_last_event id event s)
apply (beats now id) s = heartbeat now id s
apply (finalizes now id status code detail) s = elim (finalize_once now id status code detail s) [
  | none ↦ (false, s)
  | some r ↦ r
]

unfoldable pub step : Op → Store → Bool × Store
step op s = let (won, s') = apply op (begin s) in (won, close s')

unfoldable pub run : List Op → Store → Store
run [] s = s
run (op ∷ ops) s = run ops (step op s).1

-- A change that some call makes to a row: the keys stay, no row comes back to life, and a row that
-- is not active keeps how it ended.
pub record Allowed (r r' : Turn) : Type 0 where
  pub same_id : r'.id ≡ r.id
  pub same_chat : r'.chat_id ≡ r.chat_id
  pub stays_down : is_active r'.status ≡ true → is_active r.status ≡ true
  pub kept_status : is_active r.status ≡ false → r'.status ≡ r.status
  pub kept_code : is_active r.status ≡ false → r'.error_code ≡ r.error_code
  pub kept_detail : is_active r.status ≡ false → r'.error_detail ≡ r.error_detail
  pub kept_end : is_active r.status ≡ false → r'.completed_at ≡ r.completed_at

pub data Change (rows rows' : List Turn) : Type 0 where
  updates :
      (p : Turn → Bool) (f : Turn → Turn)
      → ((r : Turn) → p r ≡ true → Allowed r (f r))
      → rows' ≡ update_where p f rows
      → Change rows rows'
  inserts :
      (t : Turn) → count (active_in t.chat_id) rows ≡ 0 → rows' ≡ rows ++ t ∷ [] → Change rows rows'
  keeps : rows' ≡ rows → Change rows rows'

create-Change :
    (keys : Bool) (now id : ℕ) (payload : TurnCreate) (s : Store)
    → Change s.rows (step (creates keys now id payload) s).1.rows
unfolding step apply try_create_starting create_starting new_turn
create-Change keys now id payload s =
    elim (Bool-cases (keys && not (ltb 0 (count (active_in payload.chat_id) s.rows)))) [
      | inl free ↦ inserts (new_turn now id payload) (ground arith) (ground arith)
      | inr busy ↦ keeps (rw (busy, create_starting, try_create_starting) refl)
    ]

finalize-Change :
    (now id : ℕ) (status : TurnStatus) (code detail : Option String) (s : Store)
    → Change s.rows (step (finalizes now id status code detail) s).1.rows
unfolding step apply finalize_once
finalize-Change now id status code detail s = elim (Bool-cases (is_terminal status)) [
  | inl ended ↦
      updates (active_with id) (finalized now status code detail) (λ r h. ground arith)
        (ground arith)
  | inr other ↦ keeps (ground arith)
]

-- Every call makes an allowed change to some rows, adds a row to a chat without active turns, or
-- leaves the table as it is.
pub step-Change : (op : Op) (s : Store) → Change s.rows (step op s).1.rows
unfolding step apply mark_running attach_assistant_message update_last_event heartbeat
step-Change (creates keys now id payload) s = create-Change keys now id payload s
step-Change (marks now id thread turn) s =
    updates (starting_with id) (marked now thread turn) (λ r h. ground arith) refl
step-Change (attaches id message) s =
    updates (has_id id) (attached message) (λ r h. ground arith) refl
step-Change (notes_event id event) s =
    updates (has_id id) (event_noted event) (λ r h. ground arith) refl
step-Change (beats now id) s = updates (active_with id) (beaten now) (λ r h. ground arith) refl
step-Change (finalizes now id status code detail) s = finalize-Change now id status code detail s
