-- ===== src/Turns/Heartbeat/Owns.antt =====
-- A loop that has not reported a loss owns its turn.
use mathlib.Core.Path.{subst}
use codex_server.Base.{
  sym, ℕ, ◌<◌, ◌≡◌, refl, ap, ◌∙◌, Bool, true, false, not, some, List, [], ◌∷◌, arith, count,
  if◌then◌else◌,
}
use codex_server.Base.Text.{Text, text_eq_refl}
use codex_server.Base.Text.Decimal.{str}
use codex_server.Redis.{Redis, Net, fine, not_sent, reply_lost, holds}
use codex_server.Turns.Table.{Turn, active_with, update_where, beaten, heartbeat}
use codex_server.Turns.Table.Run.{beats, Store, step, apply}
use codex_server.Turns.Lease.{lease_key, refresh}
use codex_server.Turns.Lease.Ownership.{get-refresh_lua, reply-refresh_lua}
use codex_server.Turns.Locks.{active_key, heartbeat_active}
use codex_server.Turns.Heartbeat.{
  Tick, Beat, between, lease_round, beat, heartbeat_loop, LoopEnd, cancelled, in_session,
}

-- A heartbeat ends no turn.
count-beaten :
    (now i : ℕ) (rows : List Turn)
    → count (active_with i) (update_where (active_with i) (beaten now) rows)
      ≡ count (active_with i) rows
count-beaten now i [] = refl
count-beaten now i (r ∷ rows) = ground (arith, count-beaten now i rows)

step-beats :
    (now i : ℕ) (s : Store)
    → (step (beats now i) s).0 ≡ true
    → 0 < count (active_with i) (step (beats now i) s).1.rows
unfolding step apply heartbeat
step-beats now i s h = ground (arith, count-beaten now i s.rows)

module _ (redis : Redis) where
  open redis use {Store as Keys, get, set_ifeq, reply-set_ifeq, get-set_ifeq}

  -- Its row is active, the lock has its id, and the lease its worker.
  pub record IsOwned (turn_id chat_id : ℕ) (holder : Text) (b : Beat redis) : Type 0 where
    pub active : 0 < count (active_with turn_id) b.table.rows
    pub lock : holds (get (active_key chat_id) b.process.store) (str turn_id) ≡ true
    pub lease : holds (get (lease_key turn_id) b.process.store) holder ≡ true

  lock_held :
      (net : Net) (chat turn : ℕ) (keys : Keys)
      → (heartbeat_active redis net chat turn keys).0 ≡ true
      → holds (get (active_key chat) (heartbeat_active redis net chat turn keys).1) (str turn)
        ≡ true
  unfolding heartbeat_active
  lock_held fine chat turn keys h =
      let k = active_key chat in
      ground (
        arith,
        reply-set_ifeq k (str turn) 30 (str turn) keys,
        get-set_ifeq k (str turn) 30 (str turn) keys k,
        text_eq_refl k,
        text_eq_refl (str turn),
      )
  lock_held not_sent chat turn keys h = cc
  lock_held reply_lost chat turn keys h = cc

  lease_held :
      (net : Net) (chat turn : ℕ) (holder : Text) (b : Beat redis)
      → (lease_round redis net turn (some holder) b).0 ≡ true
      → 0 < count (active_with turn) b.table.rows
      → holds (get (active_key chat) b.process.store) (str turn) ≡ true
      → IsOwned turn chat holder (lease_round redis net turn (some holder) b).1
  unfolding lease_round refresh
  lease_held fine chat turn holder b h live lock =
      let l = lease_key turn in
      let s = b.process.store in
      record {
        active = live;
        lock = ground (arith, get-refresh_lua redis l holder 30 s (active_key chat));
        lease =
            ground
              (arith, get-refresh_lua redis l holder 30 s l, reply-refresh_lua redis l holder 30 s);
      }
  lease_held not_sent chat turn holder b h live lock = cc
  lease_held reply_lost chat turn holder b h live lock = cc

  passed :
      (a c : Bool) (x y : Beat redis) (z : Bool × Beat redis)
      → (if not a then (false, x) else if not c then (false, y) else z).0 ≡ true
      → (a ≡ true)
        × (c ≡ true)
        × ((if not a then (false, x) else if not c then (false, y) else z) ≡ z)
  passed true true x y z h = (refl, refl, refl)
  passed true false x y z h = cc
  passed false c x y z h = cc

  beat-IsOwned :
      (turn chat : ℕ) (holder : Text) (tick : Tick) (b : Beat redis)
      → (beat redis turn chat (some holder) tick b).0 ≡ true
      → IsOwned turn chat holder (beat redis turn chat (some holder) tick b).1
  unfolding beat
  beat-IsOwned turn chat holder tick b h =
      let b1 : Beat redis = record b { table = (step (beats tick.now turn) b.table).1 } in
      let lock = heartbeat_active redis tick.lock chat turn b.process.store in
      let b2 : Beat redis = record b1 { process = record (b.process) { store = lock.1 } } in
      let z = lease_round redis tick.lease turn (some holder) b2 in
      let (owned, held, e) = passed (step (beats tick.now turn) b.table).0 lock.0 b1 b2 z h in
      subst (λ r. IsOwned turn chat holder r.1) (sym e)
        (lease_held tick.lease chat turn holder b2 (ap (λ r. r.0) (sym e) ∙ h)
          (step-beats tick.now turn b.table owned)
          (lock_held tick.lock chat turn b.process.store held))

  goes_on :
      (net : Net) (b : Beat redis) (wrote : Store) (r : Bool × Beat redis)
      (rest : LoopEnd × Beat redis)
      → (in_session redis net b wrote r rest).0 ≡ cancelled
      → (r.0 ≡ true) × (in_session redis net b wrote r rest ≡ rest)
  goes_on fine b wrote (true, b') rest h = (refl, refl)
  goes_on fine b wrote (false, b') rest h = cc
  goes_on not_sent b wrote r rest h = cc
  goes_on reply_lost b wrote r rest h = cc

  -- A loop with a lease holder that went at least one round and was then cancelled in its sleep
  -- (neither reporting a lost ownership nor ended by an exception) leaves the turn owned by its
  -- worker: its row is active, the chat's lock has its id, and its lease the worker's. This holds
  -- whatever others wrote before a round, whichever keys ran out before it, and whatever becomes of
  -- the calls of its rounds.
  pub heartbeat_loop-IsOwned :
      (turn chat : ℕ) (holder : Text) (tick : Tick) (ticks : List Tick) (b : Beat redis)
      → (heartbeat_loop redis turn chat (some holder) (tick ∷ ticks) b).0 ≡ cancelled
      → IsOwned turn chat holder (heartbeat_loop redis turn chat (some holder) (tick ∷ ticks) b).1
  unfolding heartbeat_loop
  heartbeat_loop-IsOwned turn chat holder tick [] b h =
      let b0 : Beat redis = between redis tick b in
      let r = beat redis turn chat (some holder) tick b0 in
      let wrote = (step (beats tick.now turn) b0.table).1 in
      let (owned, e) = goes_on tick.database b0 wrote r (cancelled, r.1) h in
      subst (λ x. IsOwned turn chat holder x.1) (sym e)
        (beat-IsOwned turn chat holder tick b0 owned)
  heartbeat_loop-IsOwned turn chat holder tick (next ∷ ticks) b h =
      let b0 : Beat redis = between redis tick b in
      let r = beat redis turn chat (some holder) tick b0 in
      let wrote = (step (beats tick.now turn) b0.table).1 in
      let rest = heartbeat_loop redis turn chat (some holder) (next ∷ ticks) r.1 in
      let (owned, e) = goes_on tick.database b0 wrote r rest h in
      subst (λ x. IsOwned turn chat holder x.1) (sym e)
        (heartbeat_loop-IsOwned turn chat holder next ticks r.1 (ap (λ x. x.0) (sym e) ∙ h))
