-- ===== src/Turns/Recovery.antt =====
-- app/services/turns/recovery.py: the sweep over stale turns, the check of one turn by a caller, and
-- what follows a lease that ran out. Times are microseconds.
pub mod Sweep
pub mod Cases
use codex_server.Base.{
  ℕ, ◌+◌, String, Bool, true, false, not, Option, none, some, List, [], ◌∷◌, if◌then◌else◌, ltb,
  length,
}
use codex_server.Redis.{Redis, Net}
use codex_server.Turns.Status.{failed, is_active}
use codex_server.Turns.Table.{Turn, Session, finalize_once, find_stale_active, get_by_id}
use codex_server.Turns.Table.Run.{Store, begin, close}
use codex_server.Turns.Locks.{release_active}

-- `_STALE_THRESHOLD`, two minutes.
abbrev pub stale_threshold : ℕ
stale_threshold = 120000000

-- The `finalize_once` of a status that is terminal: it does not raise.
abbrev pub fail_with : (now turn_id : ℕ) → (code detail : String) → Session → Session
fail_with now turn_id code detail s =
    elim (finalize_once now turn_id failed (some code) (some detail) s) [
      | none ↦ s
      | some (won, s') ↦ s'
    ]

module _ (redis : Redis) where
  open redis use {Store as Keys}

  unfoldable pub finalize_orphan : Net → (now : ℕ) → Turn → Session × Keys → Session × Keys
  finalize_orphan net now turn (s, keys) = (
    fail_with now turn.id "orphan_heartbeat" "no heartbeat for >120.0s" s,
    (release_active redis net turn.chat_id turn.id keys).1,
  )

  pub finalize_each : (ℕ → Net) → (now : ℕ) → List Turn → Session × Keys → Session × Keys
  unfolding finalize_orphan
  finalize_each net now [] w = w
  finalize_each net now (turn ∷ turns) w =
      finalize_each net now turns (finalize_orphan (net turn.id) now turn w)

  -- The answer is the number of stale turns; `net` is the fate of each turn's call to Redis.
  pub reconcile_stale_turns : (ℕ → Net) → (now : ℕ) → Store × Keys → ℕ × (Store × Keys)
  unfolding finalize_each find_stale_active
  reconcile_stale_turns net now (table, keys) =
      let stale = find_stale_active now stale_threshold table.rows in
      let (s, keys') = finalize_each net now stale (begin table, keys) in
      (length stale, (close s, keys'))

  -- `turn` is the row as the caller read it before.
  unfoldable pub reconcile_if_stale : Net → (now : ℕ) → Turn → Store × Keys → Bool × (Store × Keys)
  unfolding finalize_orphan
  reconcile_if_stale net now turn (table, keys) =
      if ltb now (turn.heartbeat_at + stale_threshold)
      then (false, (table, keys))
      else (let (s, keys') = finalize_orphan net now turn (begin table, keys) in
          (true, (close s, keys')))

  pub finalize_lease_expired : Net → (now turn_id : ℕ) → Store × Keys → Store × Keys
  finalize_lease_expired net now turn_id (table, keys) = elim (get_by_id turn_id table.rows) [
    | none ↦ (table, keys)
    | some turn ↦ if not (is_active turn.status) then (table, keys) else (
      close (
          fail_with now turn.id "lease_expired" "worker lease expired without release"
            (begin table)),
      (release_active redis net turn.chat_id turn.id keys).1,
    )
  ]
