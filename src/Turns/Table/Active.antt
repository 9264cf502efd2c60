-- ===== src/Turns/Table/Active.antt =====
-- The snapshot of a user's live turns against the active turn of each chat.
use codex_server.Base.{
  ℕ, ◌≤◌, ◌≡◌, refl, Option, none, some, List, [], ◌∷◌, arith, count, Bool-cases, inl, inr, ◌==◌,
  if◌then◌else◌, find?-eq_none,
}
use codex_server.Turns.Table.{
  Turn, active_in, get_active_for_chat, active_ids_by_chat_for_user, dict_get,
}
use codex_server.Turns.Table.Fence.{IsFenced}

-- The id of a turn that is there and belongs to the user.
abbrev pub owned : ℕ → Option Turn → Option ℕ
owned user none = none
owned user (some r) = if r.user_id == user then some r.id else none

-- Over the rows of one chat that has at most one active turn.
dict_get-active :
    (user c : ℕ) (rows : List Turn)
    → count (active_in c) rows ≤ 1
    → dict_get c (active_ids_by_chat_for_user user rows) ≡ owned user (get_active_for_chat c rows)
unfolding dict_get active_ids_by_chat_for_user get_active_for_chat
dict_get-active user c [] one = refl
dict_get-active user c (r ∷ rows) one = elim (Bool-cases (active_in c r)) [
  | inl hit ↦ ground (arith, dict_get-active user c rows, find?-eq_none (active_in c) rows)
  | inr miss ↦ ground (arith, dict_get-active user c rows)
]

-- While the fence holds, the snapshot gives for each chat its active turn if that is the user's,
-- and no other turn.
pub active_ids_by_chat_for_user_lem :
    (user c : ℕ) (rows : List Turn)
    → IsFenced rows
    → dict_get c (active_ids_by_chat_for_user user rows) ≡ owned user (get_active_for_chat c rows)
active_ids_by_chat_for_user_lem user c rows fenced = dict_get-active user c rows (fenced c)
