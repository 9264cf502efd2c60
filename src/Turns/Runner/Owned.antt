-- ===== src/Turns/Runner/Owned.antt =====
-- A delivery that owns its turn: it has found the lock of the chat and the lease of the turn free,
-- and runs the stream to the end of the `finally` statement.
use codex_server.Base.{
  ℕ, suc, ◌≡◌, refl, ap, ◌∙◌, Bool, true, false, none, some, count, ◌<◌, All, if◌then◌else◌,
}
use mathlib.Core.Path.{ap₂}
use codex_server.Base.Text.Decimal.{str}
use codex_server.Redis.{Redis, fine, holds}
use codex_server.Turns.Status.{is_terminal}
use codex_server.Turns.Table.{Turn, get_by_id, active_with}
use codex_server.Turns.Lease.{lease_key, Process, acquire, release, add, discard}
use codex_server.Turns.Lease.{release_lua}
use codex_server.Turns.Locks.{acquired, active_key, exit_turn_locks, release_active}
use codex_server.Turns.Runner.{
  Delivery, start, consume, World, conclude, with_lock, hold_and_run, execute_turn_inner, nothing,
  under_lease, change_keys,
}
use codex_server.Turns.Runner.Delivered.{
  IsAnswered, IsFinalized, execute-holds, holds-acquired, locked,
}
use codex_server.Turns.Runner.Rounds.{
  ends_turn, decides, cancels, consume-settled, consume-IsHonest, consume-skip, consume-cancelled,
}
use codex_server.Turns.Runner.Keys.{
  spares, given_back, active-given_back, lease-given_back, leased-free,
}
use codex_server.Turns.Runner.Concluded.{conclude-settles, conclude-ends}

module _ (redis : Redis) where
  open redis use {get, set_nx, get-set_nx, reply-set_nx, delex_ifeq, get-delex_ifeq}

  -- The process of a worker that has taken the lease.
  abbrev leased : Delivery → ℕ → Process redis → Process redis
  leased d id p = record p {
    store = (set_nx (lease_key id) d.worker_id 30 p.store).1;
    active_leases = add (id, d.worker_id) p.active_leases;
  }

  acquire-free :
      (d : Delivery) (chat id : ℕ) (p : Process redis)
      → get (lease_key id) p.store ≡ none
      → let q = record p { store = (set_nx (active_key chat) (str id) 30 p.store).1 } in
        acquire redis fine id d.worker_id 30 q ≡ (true, leased d id q)
  unfolding acquire
  acquire-free d chat id p e = rw (leased-free redis chat id d.worker_id p.store e) refl

  with_lock-runs :
      (d : Delivery) (chat : ℕ) (w : World redis)
      → IsAnswered d
      → acquire redis fine d.turn_id d.worker_id 30 w.process ≡ (true, leased d d.turn_id w.process)
      → with_lock redis d chat w
        ≡ conclude redis d
            (consume d.turn_id d.crash_publish d.items d.ending (start, nothing))
            (record w {
              process = record {
                store =
                    (release_lua redis (lease_key d.turn_id) d.worker_id (
                      change_keys redis d.keys_leaving
                        (delex_ifeq (active_key chat) (str d.turn_id) (
                          change_keys redis d.keys_running
                            (set_nx (lease_key d.turn_id) d.worker_id 30 w.process.store).1)).1)).1;
                active_leases =
                    discard
                      (d.turn_id, d.worker_id)
                      (add (d.turn_id, d.worker_id) w.process.active_leases);
              };
            })
  unfolding with_lock under_lease release exit_turn_locks release_active
  with_lock-runs d chat w a e =
      ap₂
        (λ (r : Bool × Process redis) net. under_lease redis r.0 d (record w {
          process = record (r.1) {
            store =
                exit_turn_locks redis net acquired chat d.turn_id
                  (if r.0 then change_keys redis d.keys_running r.1.store else r.1.store);
          };
        }))
        (ap (λ net. acquire redis net d.turn_id d.worker_id 30 w.process) a.lease_set ∙ e)
        a.lock_release
      ∙ ap
          (λ net.
            conclude redis d (consume d.turn_id d.crash_publish d.items d.ending (start, nothing))
              (record w {
                process =
                    (release redis net d.turn_id d.worker_id
                      (record (leased d d.turn_id w.process) {
                        store = change_keys redis d.keys_leaving (
                            exit_turn_locks redis fine acquired chat d.turn_id (
                              change_keys redis d.keys_running
                                (leased d d.turn_id w.process).store));
                      })).1;
              }))
          a.lease_release

  -- The world in which a delivery that owns its turn concludes.
  abbrev pub owned : Delivery → Turn → World redis → World redis
  owned d turn w = record w {
    process = record {
      store = given_back redis d turn.chat_id w.process.store;
      active_leases =
          discard (d.turn_id, d.worker_id) (add (d.turn_id, d.worker_id) w.process.active_leases);
    };
  }

  -- A delivery that finds the lock and the lease free runs the stream.
  pub owned-runs :
      (d : Delivery) (w : World redis) (turn : Turn)
      → IsAnswered d
      → get (active_key turn.chat_id) w.process.store ≡ none
      → get (lease_key d.turn_id) w.process.store ≡ none
      → hold_and_run redis d turn.chat_id w
        ≡ conclude redis d
            (consume d.turn_id d.crash_publish d.items d.ending (start, nothing))
            (owned d turn w)
  owned-runs d w turn a free free_lease =
      holds-acquired redis d w turn a free
      ∙ with_lock-runs d turn.chat_id (locked redis d turn w) a
          (acquire-free d turn.chat_id d.turn_id w.process free_lease)

  -- A delivery of a turn whose row is there and has not ended, whose user is there, with Redis
  -- answering each of its calls and the session of the finalization and the release of the slot
  -- going through, that finds the lock of the chat and the lease of the turn free and whose stream
  -- decides how the turn ends (a final event, a lost ownership, a cancellation, an exception),
  -- leaves no active row of the turn, gives one rate-limit slot back, and no longer holds the lock
  -- or the lease, whatever others wrote to the table meanwhile and did to the keys of Redis while the
  -- stream ran. Others may also change the keys between the release of the lock and that of the
  -- lease, if they do not take the lock for the same turn there.
  pub owned-settles :
      (d : Delivery) (w : World redis) (turn : Turn)
      → get_by_id d.turn_id w.table.rows ≡ some turn
      → is_terminal turn.status ≡ false
      → d.user_found ≡ true
      → IsAnswered d
      → IsFinalized d
      → get (active_key turn.chat_id) w.process.store ≡ none
      → get (lease_key d.turn_id) w.process.store ≡ none
      → All (λ c. spares redis (active_key turn.chat_id) (str d.turn_id) c ≡ true) d.keys_leaving
      → decides d.items d.ending ≡ true
      → let w' = execute_turn_inner redis d w in
        (count (active_with d.turn_id) w'.table.rows ≡ 0)
        × (w'.slots_released ≡ suc w.slots_released)
        × (holds (get (active_key turn.chat_id) w'.process.store) (str d.turn_id) ≡ false)
        × (holds (get (lease_key d.turn_id) w'.process.store) d.worker_id ≡ false)
  owned-settles d w turn e t u a z free free_lease spared decided =
      rw (execute-holds redis d w turn e t u ∙ owned-runs d w turn a free free_lease) (
        let s = consume d.turn_id d.crash_publish d.items d.ending (start, nothing) in
        let w' : World redis = owned d turn w in
        let settles =
          conclude-settles redis d s w' z
            (consume-settled d.turn_id d.crash_publish d.items d.ending (start, nothing) decided)
            (consume-skip d.turn_id d.crash_publish d.items d.ending (start, nothing)) in
        (
          settles.0,
          settles.1,
          unfold conclude in active-given_back redis d turn.chat_id w.process.store spared,
          unfold conclude in lease-given_back redis d turn.chat_id w.process.store,
        ))

  -- A delivery of a turn whose row is there and has not ended, whose user is there, and with Redis
  -- answering each call, that finds the lock of the chat and the lease of the turn free, whose
  -- stream is not cancelled and whose last publish goes through, puts at least one final event on
  -- the stream of the turn.
  pub owned-ends :
      (d : Delivery) (w : World redis) (turn : Turn)
      → get_by_id d.turn_id w.table.rows ≡ some turn
      → is_terminal turn.status ≡ false
      → d.user_found ≡ true
      → IsAnswered d
      → get (active_key turn.chat_id) w.process.store ≡ none
      → get (lease_key d.turn_id) w.process.store ≡ none
      → cancels d.ending ≡ false
      → d.last_published ≡ true
      → count ends_turn w.stream < count ends_turn (execute_turn_inner redis d w).stream
  owned-ends d w turn e t u a free free_lease going sent =
      rw (execute-holds redis d w turn e t u ∙ owned-runs d w turn a free free_lease) (
        conclude-ends redis d (consume d.turn_id d.crash_publish d.items d.ending (start, nothing))
          (owned d turn w)
          (consume-IsHonest d.turn_id d.crash_publish d.items d.ending (start, nothing) (λ p. cc))
          (consume-cancelled d.turn_id d.crash_publish d.items d.ending (start, nothing) going)
          (consume-skip d.turn_id d.crash_publish d.items d.ending (start, nothing)) sent)
