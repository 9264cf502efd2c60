-- ===== src/Turns/Locks.antt =====
-- app/services/turns/locks.py: the lock of a chat, `turn:active:{chat_id}`, with the turn's id as
-- value, over any Redis.
pub mod Hold
use codex_server.Base.{ℕ, Bool, true, false, Option, none, some, ◌++◌, if◌then◌else◌, ◌≡◌}
use codex_server.Base.Text.{Text, codes, text_eq}
use codex_server.Base.Text.Decimal.{str}
use codex_server.Redis.{Redis, Net, fine, not_sent, reply_lost, holds}

abbrev pub lock_ttl_s : ℕ
lock_ttl_s = 30

pub data LockAcquireOutcome : Type 0 where
  acquired redelivery active_busy : LockAcquireOutcome

unfoldable pub active_key : ℕ → Text
active_key chat_id = codes "turn:active:" ++ str chat_id

module _ (redis : Redis) where
  open redis use {Store, get, set_nx, set_ifeq, delex_ifeq}

  abbrev pub answered : Net → (Store → Bool × Store) → Store → Bool × Store
  answered fine command s = command s
  answered not_sent command s = (false, s)
  answered reply_lost command s = (false, (command s).1)

  pub try_acquire_active : Net → (chat_id turn_id : ℕ) → Store → Bool × Store
  try_acquire_active net chat_id turn_id =
      answered net (set_nx (active_key chat_id) (str turn_id) lock_ttl_s)

  pub active_lock_value : Net → (chat_id : ℕ) → Store → Option Text
  active_lock_value fine chat_id s = get (active_key chat_id) s
  active_lock_value _ chat_id s = none

  unfoldable pub heartbeat_active : Net → (chat_id turn_id : ℕ) → Store → Bool × Store
  heartbeat_active net chat_id turn_id =
      answered net (set_ifeq (active_key chat_id) (str turn_id) lock_ttl_s (str turn_id))

  unfoldable pub release_active : Net → (chat_id turn_id : ℕ) → Store → Bool × Store
  release_active net chat_id turn_id = answered net (delex_ifeq (active_key chat_id) (str turn_id))

  -- What `hold_turn_locks` yields: `net` is the fate of the `SET`, `net_get` that of the `GET`.
  pub enter_turn_locks :
      (net net_get : Net) (chat_id turn_id : ℕ) → Store → LockAcquireOutcome × Store
  unfolding try_acquire_active active_lock_value
  enter_turn_locks net net_get chat_id turn_id s =
      let (ok, s') = try_acquire_active net chat_id turn_id s in
      (
        if ok
            then acquired
            else if holds (active_lock_value net_get chat_id s') (str turn_id)
            then redelivery
            else active_busy,
        s',
      )

  -- The `finally` of the context: only an acquired lock is given back.
  unfoldable pub exit_turn_locks : Net → LockAcquireOutcome → (chat_id turn_id : ℕ) → Store → Store
  unfolding release_active
  exit_turn_locks net acquired chat_id turn_id s = (release_active net chat_id turn_id s).1
  exit_turn_locks net _ chat_id turn_id s = s
