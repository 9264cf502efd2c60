-- ===== src/Tests/Turns.antt =====
-- The turns of one chat: a starting turn, a delivery of it, and the theorems on them.
use codex_server.Base.{
  ◌≡◌, ◌≢◌, ◌≤◌, ◌<◌, ◌+◌, ◌⊎◌, refl, true, false, none, some, List, [], ◌∷◌, arith, count, find?,
  inl, All,
}
use codex_server.Base.Text.{Text, codes, text_eq_refl}
use codex_server.Base.Text.Decimal.{pos, str, str-injective}
use codex_server.Redis.{fine, reply_lost, holds}
use codex_server.Redis.Assoc.{assoc}
use codex_server.Turns.Status.{starting, completed, failed}
use codex_server.Turns.Table.{Turn, has_id, active_with, finalized, get_by_id}
use codex_server.Turns.Table.Run.{finalizes, step, run}
use codex_server.Turns.Table.Once.{
  SameEnd, wins, finalize_once_wins_once, finalize_once_lem, run-SameEnd,
}
use codex_server.Turns.Table.Fence.{IsFenced, run-IsFenced}
use codex_server.Turns.Table.Announced.{is_end_of, announced-eq-wins}
use codex_server.Turns.Lease.{lease_key, leader_key, turn_id_from_key, release_all_local}
use codex_server.Turns.Lease.Keys.{turn_id_from_key_lem}
use codex_server.Turns.Lease.Ownership.{
  acquires, releases, calls, calls-keep, LeaseCalls, lease_calls_lem,
}
use codex_server.Turns.Lease.Shutdown.{release_all_local_lem}
use codex_server.Turns.Locks.{
  active_key, acquired, redelivery, active_busy, enter_turn_locks, exit_turn_locks,
}
use codex_server.Turns.Locks.Hold.{enter_turn_locks_lem, other_turns_keep, lost_reply-redelivery}
use codex_server.Turns.Runner.{error, execute_turn_inner}
use codex_server.Turns.Runner.Rounds.{ends_turn}
use codex_server.Turns.Runner.Delivered.{redelivery-does_nothing, busy-fails}
use codex_server.Turns.Runner.Owned.{owned-settles, owned-ends}
use codex_server.Tests.Sample.{
  sample, table, table_ended, ops, worker, other_worker, busy_store, locked_store, busy_worker,
  world, delivery, answer, IsAnswered-by, IsFinalized-by,
}

table-IsFenced : IsFenced table.rows
table-IsFenced c = ground arith

locked_lookup : assoc.get (active_key 3) locked_store ≡ some (str 7)
locked_lookup = ground (arith, text_eq_refl (active_key 3))

busy_lookup : assoc.get (lease_key 7) busy_store ≡ some worker
busy_lookup = ground (arith, text_eq_refl (lease_key 7))

abbrev foreign_store : List (Text × Text)
foreign_store = (active_key 3, str 6) ∷ []

foreign_lookup : assoc.get (active_key 3) foreign_store ≡ some (str 6)
foreign_lookup = ground (arith, text_eq_refl (active_key 3))

owned-settles_example :
    (count (active_with 7) (execute_turn_inner assoc (delivery answer) (world [])).table.rows ≡ 0)
    × ((execute_turn_inner assoc (delivery answer) (world [])).slots_released ≡ 1)
    × (holds
          (assoc.get
            (active_key 3)
            (execute_turn_inner assoc (delivery answer) (world [])).process.store)
          (str 7)
        ≡ false)
    × (holds
          (assoc.get
            (lease_key 7)
            (execute_turn_inner assoc (delivery answer) (world [])).process.store)
          worker
        ≡ false)
unfolding get_by_id
owned-settles_example =
    owned-settles assoc (delivery answer) (world []) (sample starting) refl refl refl
      (IsAnswered-by answer) (IsFinalized-by answer) refl refl (refl, tt) refl

owned-ends_example :
    count ends_turn []
    < count ends_turn (execute_turn_inner assoc (delivery answer) (world [])).stream
unfolding get_by_id
owned-ends_example =
    owned-ends assoc (delivery answer) (world []) (sample starting) refl refl refl
      (IsAnswered-by answer) refl refl refl refl

redelivery-does_nothing_example :
    ((execute_turn_inner assoc (delivery answer) (world locked_store)).table ≡ run [] table)
    × ((execute_turn_inner assoc (delivery answer) (world locked_store)).stream ≡ [])
    × ((execute_turn_inner assoc (delivery answer) (world locked_store)).slots_released ≡ 0)
    × (assoc.get
          (active_key 3)
          (execute_turn_inner assoc (delivery answer) (world locked_store)).process.store
        ≡ some (str 7))
unfolding get_by_id
redelivery-does_nothing_example =
    redelivery-does_nothing assoc (delivery answer) (world locked_store) (sample starting) refl refl
      refl (IsAnswered-by answer) locked_lookup

busy-fails_example :
    ((execute_turn_inner assoc (delivery answer) (world foreign_store)).table
      ≡ (step
          (finalizes 110 7 failed (some "turn_busy") (some "lock unavailable: active_busy"))
          table).1)
    × ((execute_turn_inner assoc (delivery answer) (world foreign_store)).stream
        ≡ error "turn_busy" (some "lock unavailable: active_busy") ∷ [])
    × ((execute_turn_inner assoc (delivery answer) (world foreign_store)).slots_released ≡ 1)
    × (assoc.get
          (active_key 3)
          (execute_turn_inner assoc (delivery answer) (world foreign_store)).process.store
        ≡ some (str 6))
unfolding get_by_id run
busy-fails_example =
    busy-fails assoc (delivery answer) (world foreign_store) (sample starting) (str 6) refl refl
      refl (IsAnswered-by answer) (IsFinalized-by answer) refl foreign_lookup
      (λ e. omega (arith, str-injective 6 7 e))

finalize_once_wins_once_example :
    (wins 7 ops table ≤ 1) × (count (active_with 7) table.rows ≡ 0 → wins 7 ops table ≡ 0)
finalize_once_wins_once_example =
    finalize_once_wins_once 7 ops table (omega arith)
      (tt, ((λ e. omega (arith, e)), (tt, (tt, tt))))

run-IsFenced_example : IsFenced (run ops table).rows
run-IsFenced_example = run-IsFenced ops table table-IsFenced

announced-eq-wins_example : count (is_end_of 7) (run ops table).published ≡ 0 + wins 7 ops table
announced-eq-wins_example = announced-eq-wins 7 ops table

finalize_once_lem_example :
    ((step (finalizes 103 7 completed none none) table).0 ≡ true)
    × (find? (has_id 7) (step (finalizes 103 7 completed none none) table).1.rows
        ≡ some (finalized 103 completed none none (sample starting)))
finalize_once_lem_example =
    finalize_once_lem 103 7 completed none none table (sample starting) refl refl (omega arith)

run-SameEnd_example :
    (r : Turn) × (find? (has_id 7) (run ops table_ended).rows ≡ some r)
    × SameEnd (sample completed) r
run-SameEnd_example = run-SameEnd ops table_ended 7 (sample completed) refl refl

calls-keep_example :
    assoc.get
      (lease_key 7)
      (calls assoc
        (acquires fine 7 other_worker ∷ releases reply_lost 8 other_worker ∷ [])
        busy_worker).store
    ≡ some worker
calls-keep_example =
    calls-keep assoc 7 worker
      (acquires fine 7 other_worker ∷ releases reply_lost 8 other_worker ∷ []) busy_worker
      (tt, (inl (λ e. omega (arith, e)), tt)) busy_lookup

lease_calls_lem_example : LeaseCalls assoc 7 worker 30 busy_worker (lease_key 7)
lease_calls_lem_example = lease_calls_lem assoc 7 worker 30 busy_worker (lease_key 7)

turn_id_from_key_lem_example :
    (turn_id_from_key (lease_key 42) ≡ some (pos 42))
    × (turn_id_from_key (leader_key (codes "listener")) ≡ none)
turn_id_from_key_lem_example = turn_id_from_key_lem 42 (codes "listener")

release_all_local_lem_example :
    ((release_all_local assoc (λ _. fine) busy_worker).1.active_leases ≡ [])
    × All
        (λ m.
          holds
            (assoc.get (lease_key m.0) (release_all_local assoc (λ _. fine) busy_worker).1.store)
            m.1
          ≡ false)
        busy_worker.active_leases
release_all_local_lem_example = release_all_local_lem assoc busy_worker

enter_turn_locks_lem_example :
    ((assoc.get (active_key 3) locked_store ≡ none)
      × ((enter_turn_locks assoc fine fine 3 7 locked_store).0 ≡ acquired)
      × (assoc.get (active_key 3) (enter_turn_locks assoc fine fine 3 7 locked_store).1
          ≡ some (str 7)))
    ⊎ ((assoc.get (active_key 3) locked_store ≡ some (str 7))
        × ((enter_turn_locks assoc fine fine 3 7 locked_store).0 ≡ redelivery)
        × (assoc.get (active_key 3) (enter_turn_locks assoc fine fine 3 7 locked_store).1
            ≡ some (str 7)))
    ⊎ ((v : Text) × (assoc.get (active_key 3) locked_store ≡ some v)
        × (v ≢ str 7)
        × ((enter_turn_locks assoc fine fine 3 7 locked_store).0 ≡ active_busy)
        × (assoc.get (active_key 3) (enter_turn_locks assoc fine fine 3 7 locked_store).1 ≡ some v))
enter_turn_locks_lem_example = enter_turn_locks_lem assoc 3 7 locked_store

other_turns_keep_example :
    assoc.get (active_key 3) (
      exit_turn_locks assoc fine
        (enter_turn_locks assoc fine fine 3 9 locked_store).0
        3
        9
        (enter_turn_locks assoc fine fine 3 9 locked_store).1)
    ≡ some (str 7)
other_turns_keep_example =
    other_turns_keep assoc 3 7 3 9 fine fine fine locked_store (λ e. omega (arith, e)) locked_lookup

lost_reply-redelivery_example :
    ((enter_turn_locks assoc reply_lost fine 3 7 []).0 ≡ redelivery)
    × (assoc.get (active_key 3) (enter_turn_locks assoc reply_lost fine 3 7 []).1 ≡ some (str 7))
lost_reply-redelivery_example = lost_reply-redelivery assoc 3 7 [] refl
