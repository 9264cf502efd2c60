-- ===== src/Turns/Table/Fence.antt =====
-- The fence: a chat has at most one active turn, as the partial unique index of app/models/turn.py
-- demands.
use codex_server.Base.{ℕ, ◌≤◌, ◌≡◌, List, [], ◌∷◌, ◌++◌, arith, count, count-append}
use codex_server.Turns.Table.{Turn, active_in}
use codex_server.Turns.Table.Rows.{count-update_where-le}
use codex_server.Turns.Table.Run.{
  Op, Store, step, run, Change, updates, inserts, keeps, step-Change,
}

abbrev pub IsFenced : List Turn → Type 0
IsFenced rows = (c : ℕ) → count (active_in c) rows ≤ 1

inserted :
    (c : ℕ) (rows : List Turn) (t : Turn)
    → count (active_in t.chat_id) rows ≡ 0
    → count (active_in c) rows ≤ 1
    → count (active_in c) (rows ++ t ∷ []) ≤ 1
inserted c rows t h k = ground (arith, count-append (active_in c) rows (t ∷ []))

Change-IsFenced : {rows rows' : List Turn} → Change rows rows' → IsFenced rows → IsFenced rows'
Change-IsFenced {rows} (updates p f ok e) h c = rw e (
    omega (
      arith,
      h c,
      count-update_where-le (active_in c) p f
          (λ r y z. let a = ok r y in ground (arith, a.same_chat, a.stays_down)) rows,
    ))
Change-IsFenced {rows} (inserts t free e) h c = rw e (inserted c rows t free (h c))
Change-IsFenced (keeps e) h c = rw e (h c)

-- After any calls, in any order, each chat has at most one active turn, if it had at most one before.
pub run-IsFenced : (ops : List Op) (s : Store) → IsFenced s.rows → IsFenced (run ops s).rows
unfolding run
run-IsFenced [] s h = h
run-IsFenced (op ∷ ops) s h = run-IsFenced ops (step op s).1 (Change-IsFenced (step-Change op s) h)
