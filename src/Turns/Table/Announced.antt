-- ===== src/Turns/Table/Announced.antt =====
-- The `turn_ended` announcements against the calls of `finalize_once` that returned True.
use codex_server.Base.{
  ℕ, ◌+◌, ◌≡◌, Bool, false, List, [], ◌∷◌, arith, count, find?, count-append, inl, inr, ◌==◌,
  Option-cases,
}
use codex_server.Turns.Table.{
  active_with, finalize_once, try_create_starting, create_starting, new_turn, mark_running,
  attach_assistant_message, update_last_event, heartbeat, Activity, turn_ended, turn_started,
}
use codex_server.Turns.Table.Run.{Op, creates, finalizes, Store, apply, step, run}
use codex_server.Turns.Table.Once.{win, wins}

abbrev pub is_end_of : ℕ → Activity → Bool
is_end_of i (turn_ended user chat turn) = turn == i
is_end_of i (turn_started user chat turn) = false

announced_step :
    (i : ℕ) (op : Op) (s : Store)
    → count (is_end_of i) (step op s).1.published ≡ count (is_end_of i) s.published + win i op s
unfolding step apply try_create_starting create_starting new_turn mark_running
    attach_assistant_message update_last_event heartbeat finalize_once
announced_step i (creates keys now id payload) s = ground (
  arith,
  count-append (is_end_of i) s.published [],
  count-append (is_end_of i) s.published (turn_started payload.user_id payload.chat_id id ∷ []),
)
announced_step i (finalizes now id status code detail) s =
    elim (Option-cases (find? (active_with id) s.rows)) [
      | inl e ↦ ground (arith, e, count-append (is_end_of i) s.published [])
      | inr (r, e) ↦ ground (
        arith,
        e,
        count-append (is_end_of i) s.published [],
        count-append (is_end_of i) s.published (turn_ended r.user_id r.chat_id id ∷ []),
      )
    ]
announced_step i _ s = omega (arith, count-append (is_end_of i) s.published [])

-- Each True of `finalize_once` is announced by one `turn_ended` event, and nothing else announces
-- the end of a turn.
pub announced-eq-wins :
    (i : ℕ) (ops : List Op) (s : Store)
    → count (is_end_of i) (run ops s).published ≡ count (is_end_of i) s.published + wins i ops s
unfolding run wins
announced-eq-wins i [] s = omega arith
announced-eq-wins i (op ∷ ops) s =
    omega (arith, announced_step i op s, announced-eq-wins i ops (step op s).1)
