-- ===== src/Turns/Runner/Delivered.antt =====
-- What one delivery of a turn leaves behind: on the table, the stream, the locks and the rate-limit
-- slot, in each of the outcomes.
use mathlib.Core.List.{append-nil}
use codex_server.Base.{
  suc, ◌≡◌, ◌≢◌, refl, ap, ◌∙◌, true, false, none, some, [], ◌∷◌, ◌++◌, arith, Option-cases, inl,
  inr,
}
use mathlib.Core.Path.{ap₂}
use codex_server.Turns.Locks.Hold.{kept_by_set}
use codex_server.Base.Text.{Text}
use codex_server.Base.Text.Decimal.{str}
use codex_server.Redis.{Redis, fine}
use codex_server.Turns.Status.{is_terminal, failed}
use codex_server.Turns.Table.{Turn, get_by_id}
use codex_server.Turns.Table.Run.{finalizes, step, run}
use codex_server.Turns.Locks.{
  LockAcquireOutcome, acquired, redelivery, active_busy, active_key, enter_turn_locks,
}
use codex_server.Turns.Locks.Hold.{enter-acquired, enter-redelivery, enter-busy, kept_by_set}
use codex_server.Turns.Runner.{
  error, Delivery, build_terminal_event, busy, skipped, World, conclude, with_lock, hold_and_run,
  under, execute_turn_inner, nothing,
}

-- Redis answers each call of the delivery.
pub record IsAnswered (d : Delivery) : Type 0 where
  pub lock_set : d.lock_set ≡ fine
  pub lock_get : d.lock_get ≡ fine
  pub lock_release : d.lock_release ≡ fine
  pub lease_set : d.lease_set ≡ fine
  pub lease_release : d.lease_release ≡ fine

-- The session that finalizes the turn goes through, and so does the release of the slot.
pub record IsFinalized (d : Delivery) : Type 0 where
  pub finalization : d.finalization ≡ fine
  pub slot_release : d.slot_release ≡ fine

module _ (redis : Redis) where
  open redis use {get, set_nx, get-set_nx, reply-set_nx, delex_ifeq, get-delex_ifeq}

  -- A delivery for a turn that can still run comes to the locks.
  pub execute-holds :
      (d : Delivery) (w : World redis) (turn : Turn)
      → get_by_id d.turn_id w.table.rows ≡ some turn
      → is_terminal turn.status ≡ false
      → d.user_found ≡ true
      → execute_turn_inner redis d w ≡ hold_and_run redis d turn.chat_id w
  unfolding execute_turn_inner
  execute-holds d w turn e t u = ground (arith, e, t, u)

  -- A delivery for a turn that has no row, or has ended, does nothing.
  pub execute-ended :
      (d : Delivery) (w : World redis)
      → ((r : Turn) → get_by_id d.turn_id w.table.rows ≡ some r → is_terminal r.status ≡ true)
      → execute_turn_inner redis d w ≡ w
  unfolding execute_turn_inner
  execute-ended d w h = elim (Option-cases (get_by_id d.turn_id w.table.rows)) [
    | inl e ↦ ground (arith, e)
    | inr (r, e) ↦ ground (arith, e, h r e)
  ]

  -- The world behind the `SET` of the lock.
  abbrev pub locked : Delivery → Turn → World redis → World redis
  locked d turn w = record w {
    process = record (w.process) {
      store = (set_nx (active_key turn.chat_id) (str d.turn_id) 30 w.process.store).1;
    };
  }

  -- What follows from the outcome at the lock.
  holds-under :
      (d : Delivery) (w : World redis) (turn : Turn) (r : LockAcquireOutcome)
      → IsAnswered d
      → enter_turn_locks redis fine fine turn.chat_id d.turn_id w.process.store
        ≡ (r, (set_nx (active_key turn.chat_id) (str d.turn_id) 30 w.process.store).1)
      → hold_and_run redis d turn.chat_id w ≡ under redis r d turn.chat_id (locked d turn w)
  unfolding hold_and_run
  holds-under d w turn r a entered =
      ap
        (λ (o : LockAcquireOutcome × redis.Store).
          under redis o.0 d turn.chat_id
            (record w { process = record (w.process) { store = o.1 } }))
        (ap₂
            (λ net net_get.
              enter_turn_locks redis net net_get turn.chat_id d.turn_id w.process.store)
            a.lock_set a.lock_get
          ∙ entered)

  holds-redelivery :
      (d : Delivery) (w : World redis) (turn : Turn)
      → IsAnswered d
      → get (active_key turn.chat_id) w.process.store ≡ some (str d.turn_id)
      → hold_and_run redis d turn.chat_id w ≡ conclude redis d (skipped, nothing) (locked d turn w)
  unfolding under
  holds-redelivery d w turn a held =
      holds-under d w turn redelivery a
        (enter-redelivery redis turn.chat_id d.turn_id w.process.store held)

  holds-busy :
      (d : Delivery) (w : World redis) (turn : Turn) (v : Text)
      → IsAnswered d
      → get (active_key turn.chat_id) w.process.store ≡ some v
      → v ≢ str d.turn_id
      → hold_and_run redis d turn.chat_id w ≡ conclude redis d (busy, nothing) (locked d turn w)
  unfolding under
  holds-busy d w turn v a held other =
      holds-under d w turn active_busy a
        (enter-busy redis turn.chat_id d.turn_id w.process.store v held other)

  pub holds-acquired :
      (d : Delivery) (w : World redis) (turn : Turn)
      → IsAnswered d
      → get (active_key turn.chat_id) w.process.store ≡ none
      → hold_and_run redis d turn.chat_id w ≡ with_lock redis d turn.chat_id (locked d turn w)
  unfolding under
  holds-acquired d w turn a free =
      holds-under d w turn acquired a
        (enter-acquired redis turn.chat_id d.turn_id w.process.store free)

  -- A delivery of a turn whose row is there and has not ended, whose user is there, and with Redis
  -- answering each call, that finds its own turn in the lock of the chat does nothing: it writes no
  -- row, publishes no event, gives no rate-limit slot back and leaves the lock with the turn.
  pub redelivery-does_nothing :
      (d : Delivery) (w : World redis) (turn : Turn)
      → get_by_id d.turn_id w.table.rows ≡ some turn
      → is_terminal turn.status ≡ false
      → d.user_found ≡ true
      → IsAnswered d
      → get (active_key turn.chat_id) w.process.store ≡ some (str d.turn_id)
      → let w' = execute_turn_inner redis d w in
        (w'.table ≡ run d.meanwhile w.table)
        × (w'.stream ≡ w.stream)
        × (w'.slots_released ≡ w.slots_released)
        × (get (active_key turn.chat_id) w'.process.store ≡ some (str d.turn_id))
  redelivery-does_nothing d w turn e t u a held =
      rw (execute-holds d w turn e t u ∙ holds-redelivery d w turn a held) (
        unfold conclude in
        (
          refl,
          append-nil w.stream,
          refl,
          kept_by_set redis turn.chat_id turn.chat_id d.turn_id (str d.turn_id) w.process.store
              held,
        ))

  -- A delivery of a turn whose row is there and has not ended, whose user is there, and with Redis
  -- answering each call, that finds another value in the lock of its chat, and whose last publish,
  -- finalization and release of the slot go through, fails its own turn: it finalizes it as FAILED with `turn_busy`, says so on the
  -- stream, gives its slot back, and leaves the lock alone.
  pub busy-fails :
      (d : Delivery) (w : World redis) (turn : Turn) (v : Text)
      → get_by_id d.turn_id w.table.rows ≡ some turn
      → is_terminal turn.status ≡ false
      → d.user_found ≡ true
      → IsAnswered d
      → IsFinalized d
      → d.last_published ≡ true
      → get (active_key turn.chat_id) w.process.store ≡ some v
      → v ≢ str d.turn_id
      → let w' = execute_turn_inner redis d w in
        (w'.table
          ≡ (step
              (finalizes d.now d.turn_id failed
                (some "turn_busy")
                (some "lock unavailable: active_busy"))
              (run d.meanwhile w.table)).1)
        × (w'.stream ≡ w.stream ++ error "turn_busy" (some "lock unavailable: active_busy") ∷ [])
        × (w'.slots_released ≡ suc w.slots_released)
        × (get (active_key turn.chat_id) w'.process.store ≡ some v)
  busy-fails d w turn v e t u a z p held other =
      rw (execute-holds d w turn e t u ∙ holds-busy d w turn v a held other) (
        unfold conclude build_terminal_event in
        (
          rw (z.finalization) refl,
          rw p refl,
          rw (z.finalization, z.slot_release) refl,
          kept_by_set redis turn.chat_id turn.chat_id d.turn_id v w.process.store held,
        ))
