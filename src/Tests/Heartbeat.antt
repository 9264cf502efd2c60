-- ===== src/Tests/Heartbeat.antt =====
-- Two rounds of the heartbeat of a worker that owns its turn.
use codex_server.Base.{◌≡◌, refl, some, [], ◌∷◌}
use codex_server.Base.Text.{codes}
use codex_server.Base.Text.Decimal.{str}
use codex_server.Redis.{fine}
use codex_server.Redis.Assoc.{assoc}
use codex_server.Turns.Table.{heartbeat}
use codex_server.Turns.Table.Run.{step, apply, run}
use codex_server.Turns.Lease.{lease_key, refresh, refresh_lua}
use codex_server.Turns.Locks.{active_key, heartbeat_active}
use codex_server.Turns.Heartbeat.{Tick, Beat, lease_round, beat, heartbeat_loop, cancelled}
use codex_server.Turns.Heartbeat.Owns.{IsOwned, heartbeat_loop-IsOwned}
use codex_server.Tests.Sample.{table, worker}

abbrev tick : Tick
tick = record {
  now = 120;
  others = [];
  expired = codes "turn:active:9" ∷ [];
  database = fine;
  lock = fine;
  lease = fine;
}

abbrev working : Beat assoc
working = record {
  table = table;
  process = record {
    store = (active_key 3, str 7) ∷ (lease_key 7, worker) ∷ [];
    active_leases = [];
  };
}

working-kept : (heartbeat_loop assoc 7 3 (some worker) (tick ∷ tick ∷ []) working).0 ≡ cancelled
unfolding heartbeat_loop beat lease_round step apply run heartbeat heartbeat_active refresh
    refresh_lua active_key lease_key str
working-kept = refl

heartbeat_loop-IsOwned_example :
    IsOwned assoc 7 3 worker (heartbeat_loop assoc 7 3 (some worker) (tick ∷ tick ∷ []) working).1
heartbeat_loop-IsOwned_example =
    heartbeat_loop-IsOwned assoc 7 3 worker tick (tick ∷ []) working working-kept
