-- ===== src/Turns/Table/Once.antt =====
-- Exactly-once finalization, over any order of calls by any callers.
use codex_server.Base.{
  ℕ, ◌+◌, ◌≤◌, ◌≡◌, ◌≢◌, refl, ap, ◌∙◌, Bool, true, false, ◌&&◌, Option, some, List, [], ◌∷◌, arith,
  count, find?, count-append, Bool-cases, inl, inr, ◌==◌, if◌then◌else◌, All, String, find?-eq_none,
  ==_iff, eq_refl, none, find?-some,
}
use codex_server.Turns.Status.{TurnStatus, is_active, is_terminal}
use codex_server.Turns.Table.{
  Turn, TurnCreate, has_id, active_with, finalize_once, try_create_starting, create_starting,
  new_turn, mark_running, attach_assistant_message, update_last_event, heartbeat, starting_with,
  marked, attached, event_noted, beaten, finalized, update_where,
}
use codex_server.Turns.Table.Rows.{find?-update_where, find?-append, count-update_where-le}
use codex_server.Turns.Table.Run.{
  Op, creates, marks, attaches, notes_event, beats, finalizes, Store, apply, step, run, Allowed,
  Change, updates, inserts, keeps, step-Change,
}

-- How a turn ended.
pub record SameEnd (r r' : Turn) : Type 0 where
  pub status : r'.status ≡ r.status
  pub code : r'.error_code ≡ r.error_code
  pub detail : r'.error_detail ≡ r.error_detail
  pub at : r'.completed_at ≡ r.completed_at

Change-SameEnd :
    {rows rows' : List Turn} (i : ℕ) (r : Turn)
    → Change rows rows'
    → find? (has_id i) rows ≡ some r
    → is_active r.status ≡ false
    → (r' : Turn) × (find? (has_id i) rows' ≡ some r') × SameEnd r r'
Change-SameEnd {rows} i r (updates p f ok e) h d = elim (Bool-cases (p r)) [
  | inl hit ↦ (
    f r,
    rw e (find?-update_where p f (λ x y. (ok x y).same_id) i rows ∙ ground (arith, h, hit)),
    let a = ok r hit in
        record {
          status = a.kept_status d;
          code = a.kept_code d;
          detail = a.kept_detail d;
          at = a.kept_end d;
        },
  )
  | inr miss ↦ (
    r,
    rw e (find?-update_where p f (λ x y. (ok x y).same_id) i rows ∙ ground (arith, h, miss)),
    record { status = refl; code = refl; detail = refl; at = refl },
  )
]
Change-SameEnd {rows} i r (inserts t free e) h d = (
  r,
  rw e (find?-append (has_id i) rows t r h),
  record { status = refl; code = refl; detail = refl; at = refl },
)
Change-SameEnd i r (keeps e) h d =
    (r, rw e h, record { status = refl; code = refl; detail = refl; at = refl })

-- A turn that has ended keeps its status, error and time of completion under any further calls.
pub run-SameEnd :
    (ops : List Op) (s : Store) (i : ℕ) (r : Turn)
    → find? (has_id i) s.rows ≡ some r
    → is_active r.status ≡ false
    → (r' : Turn) × (find? (has_id i) (run ops s).rows ≡ some r') × SameEnd r r'
unfolding run
run-SameEnd [] s i r h d = (r, h, record { status = refl; code = refl; detail = refl; at = refl })
run-SameEnd (op ∷ ops) s i r h d =
    let (r', h', e') = Change-SameEnd i r (step-Change op s) h d in
    let (r'', h'', e'') = run-SameEnd ops (step op s).1 i r' h' (ap is_active e'.status ∙ d) in
    (
      r'',
      h'',
      record {
        status = e''.status ∙ e'.status;
        code = e''.code ∙ e'.code;
        detail = e''.detail ∙ e'.detail;
        at = e''.at ∙ e'.at;
      },
    )

abbrev pub finalizes_turn : ℕ → Op → Bool
finalizes_turn i (finalizes now id status code detail) = id == i
finalizes_turn i _ = false

-- No call of the list makes a row with this id: the database does not give an id twice.
abbrev pub LeavesId : ℕ → Op → Type 0
LeavesId i (creates keys now id payload) = id ≢ i
LeavesId i _ = Unit {0}

-- After the update no active row of this turn is left.
count-finalized :
    (now i : ℕ) (status : TurnStatus) (code detail : Option String) (rows : List Turn)
    → is_terminal status ≡ true
    → count (active_with i) (update_where (active_with i) (finalized now status code detail) rows)
      ≡ 0
count-finalized now i status code detail [] t = refl
count-finalized now i status code detail (r ∷ rows) t =
    ground (arith, count-finalized now i status code detail rows t)

-- An allowed update adds no active row of any turn.
Allowed-le :
    (i : ℕ) (p : Turn → Bool) (f : Turn → Turn)
    → ((r : Turn) → p r ≡ true → Allowed r (f r))
    → (rows : List Turn)
    → count (active_with i) (update_where p f rows) ≤ count (active_with i) rows
Allowed-le i p f ok =
    count-update_where-le (active_with i) p f
      (λ r h k. let a = ok r h in ground (arith, a.same_id, a.stays_down))

finalize_win_self :
    (now i : ℕ) (status : TurnStatus) (code detail : Option String) (s : Store)
    → count (active_with i) (step (finalizes now i status code detail) s).1.rows
        + (if (step (finalizes now i status code detail) s).0 then 1 else 0)
      ≤ count (active_with i) s.rows
unfolding step apply finalize_once
finalize_win_self now i status code detail s =
    ground
      (arith, count-finalized now i status code detail s.rows, find?-eq_none (active_with i) s.rows)

finalize_rows_le :
    (i now id : ℕ) (status : TurnStatus) (code detail : Option String) (s : Store)
    → count (active_with i) (step (finalizes now id status code detail) s).1.rows
      ≤ count (active_with i) s.rows
unfolding step apply finalize_once
finalize_rows_le i now id status code detail s = ground (
  arith,
  Allowed-le i (active_with id) (finalized now status code detail) (λ r h. ground arith) s.rows,
)

-- 1 where the call is a `finalize_once` of this turn that returned True.
abbrev pub win : ℕ → Op → Store → ℕ
win i op s = if finalizes_turn i op && (step op s).0 then 1 else 0

finalize_win :
    (i now id : ℕ) (status : TurnStatus) (code detail : Option String) (s : Store)
    → count (active_with i) (step (finalizes now id status code detail) s).1.rows
        + win i (finalizes now id status code detail) s
      ≤ count (active_with i) s.rows
finalize_win i now id status code detail s = elim (Bool-cases (id == i)) [
  | inr another ↦ rw another (omega (arith, finalize_rows_le i now id status code detail s))
  | inl same ↦ rw ((==_iff id i).0 same, eq_refl i) (finalize_win_self now i status code detail s)
]

create_win :
    (i : ℕ) (keys : Bool) (now id : ℕ) (payload : TurnCreate) (s : Store)
    → id ≢ i
    → count (active_with i) (step (creates keys now id payload) s).1.rows
      ≤ count (active_with i) s.rows
unfolding step apply try_create_starting create_starting new_turn
create_win i keys now id payload s h =
    ground (arith, count-append (active_with i) s.rows (new_turn now id payload ∷ []))

-- A call that wins takes the turn out of the active rows, and no other call of these puts it back.
pub step-win :
    (i : ℕ) (op : Op) (s : Store)
    → LeavesId i op
    → count (active_with i) (step op s).1.rows + win i op s ≤ count (active_with i) s.rows
unfolding step apply mark_running attach_assistant_message update_last_event heartbeat
step-win i (creates keys now id payload) s h = omega (arith, create_win i keys now id payload s h)
step-win i (marks now id thread turn) s h =
    omega
      (arith, Allowed-le i (starting_with id) (marked now thread turn) (λ r y. ground arith) s.rows)
step-win i (attaches id message) s h =
    omega (arith, Allowed-le i (has_id id) (attached message) (λ r y. ground arith) s.rows)
step-win i (notes_event id event) s h =
    omega (arith, Allowed-le i (has_id id) (event_noted event) (λ r y. ground arith) s.rows)
step-win i (beats now id) s h =
    omega (arith, Allowed-le i (active_with id) (beaten now) (λ r y. ground arith) s.rows)
step-win i (finalizes now id status code detail) s h = finalize_win i now id status code detail s

-- How often `finalize_once` returned True for this turn.
unfoldable pub wins : ℕ → List Op → Store → ℕ
wins i [] s = 0
wins i (op ∷ ops) s = win i op s + wins i ops (step op s).1

pub active-le-id : (i : ℕ) (rows : List Turn) → count (active_with i) rows ≤ count (has_id i) rows
active-le-id i [] = omega arith
active-le-id i (r ∷ rows) = ground (arith, active-le-id i rows)

wins-le :
    (i : ℕ) (ops : List Op) (s : Store)
    → All (LeavesId i) ops
    → wins i ops s ≤ count (active_with i) s.rows
unfolding wins
wins-le i [] s h = omega arith
wins-le i (op ∷ ops) s h = omega (arith, step-win i op s h.0, wins-le i ops (step op s).1 h.1)

-- However the calls of any callers interleave, at most one `finalize_once` of a turn returns True,
-- and none does if the turn was not active to begin with. The id has at most one row, and no call
-- creates another with it.
pub finalize_once_wins_once :
    (i : ℕ) (ops : List Op) (s : Store)
    → count (has_id i) s.rows ≤ 1
    → All (LeavesId i) ops
    → (wins i ops s ≤ 1) × (count (active_with i) s.rows ≡ 0 → wins i ops s ≡ 0)
finalize_once_wins_once i ops s one fresh =
    let low = wins-le i ops s fresh in
    let few = active-le-id i s.rows in (omega (arith, low, few), λ z. omega (arith, low, z))

-- The active row of a turn is its row, if that is active.
find?-active :
    (i : ℕ) (rows : List Turn) (r : Turn)
    → find? (has_id i) rows ≡ some r
    → count (has_id i) rows ≤ 1
    → find? (active_with i) rows ≡ (if is_active r.status then some r else none)
find?-active i [] r h one = cc
find?-active i (x ∷ rows) r h one = elim (Bool-cases (x.id == i)) [
  | inr other ↦ ground (arith, find?-active i rows r)
  | inl here ↦ ground (arith, active-le-id i rows, find?-eq_none (active_with i) rows)
]

-- With a terminal status, for a turn with one row, `finalize_once` returns True exactly if the row
-- is active; then the row gets the status, the error and the time, and otherwise it stays as it
-- was.
pub finalize_once_lem :
    (now i : ℕ) (status : TurnStatus) (code detail : Option String) (s : Store) (r : Turn)
    → is_terminal status ≡ true
    → find? (has_id i) s.rows ≡ some r
    → count (has_id i) s.rows ≤ 1
    → let (won, s') = step (finalizes now i status code detail) s in
      (won ≡ is_active r.status)
      × (find? (has_id i) s'.rows
          ≡ some (if is_active r.status then finalized now status code detail r else r))
unfolding step apply finalize_once
finalize_once_lem now i status code detail s r t h one = (
  ground (arith, find?-active i s.rows r h one),
  ground (
    arith,
    find?-update_where (active_with i) (finalized now status code detail) (λ x y. refl) i s.rows,
    find?-some (has_id i) s.rows r h,
  ),
)

-- Behind a `finalize_once` with a terminal status the turn is not active, whoever won.
pub finalize-clears :
    (now i : ℕ) (status : TurnStatus) (code detail : Option String) (s : Store)
    → is_terminal status ≡ true
    → count (active_with i) (step (finalizes now i status code detail) s).1.rows ≡ 0
unfolding step apply finalize_once
finalize-clears now i status code detail s t =
    ground (arith, count-finalized now i status code detail s.rows)
