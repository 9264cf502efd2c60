-- ===== src/Chat/Start/Live.antt =====
-- An active turn that has a worker: what `_handle_active_turn` does with it.
use codex_server.Base.{
  ℕ, ◌+◌, ◌≡◌, refl, Bool, true, false, ◌&&◌, not, none, some, arith, is_some, ltb, inl, inr, ◌⊎◌,
}
use codex_server.Redis.{Redis, fine}
use codex_server.Turns.Table.{Turn, get_active_for_chat}
use codex_server.Turns.Lease.{lease_key, exists}
use codex_server.Turns.Recovery.{stale_threshold, reconcile_if_stale}
use codex_server.Chat.Start.{
  Server, try_steer_active_turn, try_interrupt_active_turn, if_proceeds, talk_to_active,
  clear_zombie, handle_active_turn,
}
use codex_server.Chat.Request.{
  PreparedRunTurn, Control, answers, stale_sidecar, rpc_error, control_raises, Surroundings,
  Outcome, proceeds,
}

abbrev pub tells_stale : Control → Bool
tells_stale (stale_sidecar actual) = true
tells_stale _ = false

-- The steer has failed in a way that leaves the interrupt to try.
abbrev pub is_declined : Control → Bool
is_declined (answers false) = true
is_declined rpc_error = true
is_declined _ = false

abbrev pub is_accepted : Control → Bool
is_accepted (answers true) = true
is_accepted _ = false

abbrev pub is_on : Outcome → Bool
is_on proceeds = true
is_on _ = false

module _ (redis : Redis) where
  -- The turns, the keys and the threads are as before, and the call goes on exactly if it may.
  abbrev Kept : Server redis → (may : Bool) → Outcome × Server redis → Type 0
  Kept w may r =
      (r.1.table ≡ w.table)
      × (r.1.keys ≡ w.keys)
      × (r.1.quarantined ≡ w.quarantined)
      × (is_on r.0 ≡ may)

  interrupt-Kept :
      (now : ℕ) (turn : Turn) (c : Control) (w w' : Server redis)
      → tells_stale c ≡ false
      → Kept w true (proceeds, w')
      → Kept w (is_accepted c) (try_interrupt_active_turn redis now turn c w')
  interrupt-Kept now turn (answers true) w w' e h = h
  interrupt-Kept now turn (answers false) w w' e (t, k, q, on) = (t, k, q, refl)
  interrupt-Kept now turn (stale_sidecar actual) w w' e h = cc
  interrupt-Kept now turn rpc_error w w' e (t, k, q, on) = (t, k, q, refl)
  interrupt-Kept now turn control_raises w w' e (t, k, q, on) = (t, k, q, refl)

  talks-Kept :
      (now : ℕ) (p : PreparedRunTurn) (turn : Turn) (c d : Control) (w : Server redis)
      → tells_stale c ≡ false
      → tells_stale d ≡ false
      → Kept w (is_declined c && is_accepted d) (
          if_proceeds redis
            (try_interrupt_active_turn redis now turn d)
            (try_steer_active_turn redis now p turn c w))
  talks-Kept now p turn (answers true) d w e f = (refl, refl, refl, refl)
  talks-Kept now p turn (answers false) d w e f =
      interrupt-Kept now turn d w w f (refl, refl, refl, refl)
  talks-Kept now p turn (stale_sidecar actual) d w e f = cc
  talks-Kept now p turn rpc_error d w e f = interrupt-Kept now turn d w w f (refl, refl, refl, refl)
  talks-Kept now p turn control_raises d w e f = (refl, refl, refl, refl)

  talk-Kept :
      (env : Surroundings) (p : PreparedRunTurn) (turn : Turn) (w : Server redis) (a b : Bool)
      → is_some turn.codex_turn_id ≡ a
      → p.has_uploads ≡ b
      → tells_stale env.steer ≡ false
      → tells_stale env.interrupt ≡ false
      → Kept w
          (a && (not b && (is_declined env.steer && is_accepted env.interrupt)))
          (talk_to_active redis env p turn w)
  unfolding talk_to_active
  talk-Kept env p turn w false b x y e f = rw x (refl, refl, refl, refl)
  talk-Kept env p turn w true true x y e f = rw (x, y) (refl, refl, refl, refl)
  talk-Kept env p turn w true false x y e f =
      rw (x, y) (talks-Kept env.now p turn env.steer env.interrupt w e f)

  not_zombie :
      (env : Surroundings) (turn : Turn) (w : Server redis)
      → (turn.codex_turn_id ≡ none)
        ⊎ ((env.lease_net ≡ fine) × (is_some (redis.get (lease_key turn.id) w.keys) ≡ true))
      → is_some turn.codex_turn_id && not (exists redis env.lease_net turn.id w.keys) ≡ false
  unfolding exists
  not_zombie env turn w (inl e) = rw e refl
  not_zombie env turn w (inr (e, h)) = rw (e, h) (ground arith)

  -- A turn that is active in the chat, whose row had a heartbeat within the last two minutes, that
  -- Codex has not yet started or whose lease somebody holds, with Redis answering, and of which the
  -- sidecar does not say that it holds another turn, is left alone: the rows, the keys and the
  -- threads stay as they are. The call goes on to a new turn exactly if Codex has started the active
  -- one, the request has no uploads, the steer is declined or fails as an RPC, and the interrupt is
  -- accepted.
  pub live_turn-kept :
      (env : Surroundings) (p : PreparedRunTurn) (turn : Turn) (w : Server redis)
      → get_active_for_chat p.chat_id w.table.rows ≡ some turn
      → ltb env.now (turn.heartbeat_at + stale_threshold) ≡ true
      → (turn.codex_turn_id ≡ none)
        ⊎ ((env.lease_net ≡ fine) × (is_some (redis.get (lease_key turn.id) w.keys) ≡ true))
      → tells_stale env.steer ≡ false
      → tells_stale env.interrupt ≡ false
      → let r = handle_active_turn redis env p w in
        (r.1.table ≡ w.table)
        × (r.1.keys ≡ w.keys)
        × (r.1.quarantined ≡ w.quarantined)
        × (is_on r.0
            ≡ is_some turn.codex_turn_id
              && (not p.has_uploads && (is_declined env.steer && is_accepted env.interrupt)))
  unfolding handle_active_turn clear_zombie reconcile_if_stale
  live_turn-kept env p turn w active fresh alive e f =
      rw (active, fresh, not_zombie env turn w alive)
        (talk-Kept env p turn w (is_some turn.codex_turn_id) p.has_uploads refl refl e f)
