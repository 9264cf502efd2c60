-- ===== src/Turns/Heartbeat.antt =====
-- `heartbeat_loop` of app/services/turns/runner.py. What happens between two rounds comes with the
-- round: the calls of others on the table, the keys that ran out, and the fate of the Redis calls.
pub mod Owns
use codex_server.Base.{ℕ, Bool, true, false, not, Option, none, some, List, [], ◌∷◌, if◌then◌else◌}
use codex_server.Base.Text.{Text}
use codex_server.Redis.{Redis, Net, fine, not_sent, reply_lost}
use codex_server.Turns.Table.Run.{Op, beats, Store, step, run}
use codex_server.Turns.Lease.{Process, lease_ttl_s, refresh}
use codex_server.Turns.Locks.{heartbeat_active}

pub record Tick : Type 0 where
  pub now : ℕ
  pub others : List Op
  pub expired : List Text
  pub database : Net
  pub lock : Net
  pub lease : Net

-- How the loop ends: by a cancellation in its sleep, with `ownership_lost` set, or by an exception
-- (of the database, or a cancellation in the middle of a round), which sets nothing.
pub data LoopEnd : Type 0 where
  cancelled ownership_lost crashed : LoopEnd

module _ (redis : Redis) where
  open redis use {Store as Keys, del}

  pub record Beat : Type 0 where
    pub table : Store
    pub process : Process redis

  abbrev pub run_out : List Text → Keys → Keys
  run_out [] keys = keys
  run_out (k ∷ ks) keys = run_out ks (del k keys).1

  abbrev pub between : Tick → Beat → Beat
  between tick b = record b {
    table = run tick.others b.table;
    process = record (b.process) { store = run_out tick.expired b.process.store };
  }

  -- The refresh of the lease, which a caller without a holder leaves out.
  unfoldable pub lease_round : Net → (turn_id : ℕ) → Option Text → Beat → Bool × Beat
  lease_round net turn_id none b = (true, b)
  lease_round net turn_id (some holder) b =
      let (ok, p) = refresh redis net turn_id holder lease_ttl_s b.process in
      (ok, record b { process = p })

  -- One round behind the sleep: whether the turn is still owned.
  unfoldable pub beat : (turn_id chat_id : ℕ) → Option Text → Tick → Beat → Bool × Beat
  unfolding lease_round
  beat turn_id chat_id holder tick b =
      let (owned, table) = step (beats tick.now turn_id) b.table in
      let b1 : Beat = record b { table = table } in
      let (held, keys) = heartbeat_active redis tick.lock chat_id turn_id b1.process.store in
      let b2 : Beat = record b1 { process = record (b1.process) { store = keys } } in
      if not owned
      then (false, b1)
      else if not held
      then (false, b2)
      else lease_round tick.lease turn_id holder b2

  -- What the session of the round does: it goes through with the rest of the round behind it, or it
  -- raises with nothing written, or behind its commit.
  abbrev pub in_session :
      Net → Beat → (wrote : Store) → Bool × Beat → LoopEnd × Beat → LoopEnd × Beat
  in_session fine b wrote (true, b') rest = rest
  in_session fine b wrote (false, b') rest = (ownership_lost, b')
  in_session not_sent b wrote r rest = (crashed, b)
  in_session reply_lost b wrote r rest = (crashed, record b { table = wrote })

  unfoldable pub heartbeat_loop :
      (turn_id chat_id : ℕ) → Option Text → List Tick → Beat → LoopEnd × Beat
  unfolding beat
  heartbeat_loop turn_id chat_id holder [] b = (cancelled, b)
  heartbeat_loop turn_id chat_id holder (tick ∷ ticks) b =
      let b0 : Beat = between tick b in
      let (owned, b') = beat turn_id chat_id holder tick b0 in
      let rest = heartbeat_loop turn_id chat_id holder ticks b' in
      in_session tick.database b0 (step (beats tick.now turn_id) b0.table).1 (owned, b') rest
