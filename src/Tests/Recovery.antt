-- ===== src/Tests/Recovery.antt =====
-- A turn whose heartbeat is two minutes old, and older.
use codex_server.Base.{◌≡◌, refl, true, some, arith, find?}
use codex_server.Redis.{fine, not_sent}
use codex_server.Redis.Assoc.{assoc}
use codex_server.Turns.Status.{starting, failed}
use codex_server.Turns.Table.{has_id, finalized}
use codex_server.Turns.Recovery.{reconcile_stale_turns, reconcile_if_stale}
use codex_server.Turns.Recovery.Sweep.{reconcile_stale_turns_lem}
use codex_server.Turns.Recovery.Cases.{reconcile_if_stale-late}
use codex_server.Tests.Sample.{sample, table, table_ended, locked_store}

reconcile_stale_turns_lem_example :
    find?
      (has_id 7)
      (reconcile_stale_turns assoc (λ _. not_sent) 130000000 (table, locked_store)).1.0.rows
    ≡ some (
        finalized 130000000 failed
          (some "orphan_heartbeat")
          (some "no heartbeat for >120.0s")
          (sample starting))
reconcile_stale_turns_lem_example =
    reconcile_stale_turns_lem assoc (λ _. not_sent) 130000000 7 table locked_store (sample starting)
      refl (omega arith)

reconcile_if_stale-late_example :
    ((reconcile_if_stale assoc fine 130000000 (sample starting) (table_ended, locked_store)).0
      ≡ true)
    × ((reconcile_if_stale assoc fine 130000000
          (sample starting)
          (table_ended, locked_store)).1.0.rows
        ≡ table_ended.rows)
reconcile_if_stale-late_example =
    reconcile_if_stale-late assoc fine 130000000 (sample starting) table_ended locked_store
      (omega arith) refl
