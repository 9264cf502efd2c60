-- ===== src/Turns/Locks/Hold.antt =====
-- What the outcome of `hold_turn_locks` says about the lock, and what the context leaves behind.
use codex_server.Base.{
  ℕ, ◌≡◌, ◌≢◌, ◌⊎◌, ap, ◌∙◌, none, some, arith, Bool-cases, Option-cases, inl, inr,
}
use codex_server.Base.Text.{
  Text, codes, text_eq, text_eq_iff, text_eq_refl, strip_prefix, strip_prefix-append,
}
use codex_server.Base.Text.Decimal.{str, str-injective}
use codex_server.Redis.{Redis, Net, fine, not_sent, reply_lost}
use codex_server.Turns.Locks.{
  LockAcquireOutcome, acquired, redelivery, active_busy, active_key, enter_turn_locks,
  exit_turn_locks,
}

strip-active_key : (n : ℕ) → strip_prefix (codes "turn:active:") (active_key n) ≡ some (str n)
unfolding active_key
strip-active_key n = strip_prefix-append (codes "turn:active:") (str n)

pub active_key-injective : (m n : ℕ) → active_key m ≡ active_key n → m ≡ n
active_key-injective m n e =
    str-injective m n
      (cc (ap (strip_prefix (codes "turn:active:")) e, strip-active_key m, strip-active_key n))

module _ (redis : Redis) where
  open redis use {
    Store, get, set_nx, set_ifeq, delex_ifeq, get-set_nx, reply-set_nx, get-delex_ifeq,
    get-set_ifeq, reply-set_ifeq, reply-delex_ifeq,
  }

  pub enter-acquired :
      (chat turn : ℕ) (s : Store)
      → get (active_key chat) s ≡ none
      → enter_turn_locks redis fine fine chat turn s
        ≡ (acquired, (set_nx (active_key chat) (str turn) 30 s).1)
  unfolding enter_turn_locks
  enter-acquired chat turn s e = ground (arith, reply-set_nx (active_key chat) (str turn) 30 s)

  pub enter-redelivery :
      (chat turn : ℕ) (s : Store)
      → get (active_key chat) s ≡ some (str turn)
      → enter_turn_locks redis fine fine chat turn s
        ≡ (redelivery, (set_nx (active_key chat) (str turn) 30 s).1)
  unfolding enter_turn_locks
  enter-redelivery chat turn s e =
      let k = active_key chat in
      ground (
        arith,
        reply-set_nx k (str turn) 30 s,
        get-set_nx k (str turn) 30 s k,
        text_eq_refl k,
        text_eq_refl (str turn),
      )

  pub enter-busy :
      (chat turn : ℕ) (s : Store) (v : Text)
      → get (active_key chat) s ≡ some v
      → v ≢ str turn
      → enter_turn_locks redis fine fine chat turn s
        ≡ (active_busy, (set_nx (active_key chat) (str turn) 30 s).1)
  unfolding enter_turn_locks
  enter-busy chat turn s v e d =
      let k = active_key chat in
      ground (
        arith,
        reply-set_nx k (str turn) 30 s,
        get-set_nx k (str turn) 30 s k,
        text_eq_refl k,
        text_eq_iff v (str turn),
      )

  -- What the calls answer when Redis answers: `acquired` if the lock was free, and then the lock is
  -- this turn's; `redelivery` if it is this turn's already; `active_busy` if it is another value's.
  -- In the last two cases the lock keeps its value.
  pub enter_turn_locks_lem :
      (chat turn : ℕ) (s : Store)
      → let (outcome, s') = enter_turn_locks redis fine fine chat turn s in
        ((get (active_key chat) s ≡ none)
          × (outcome ≡ acquired)
          × (get (active_key chat) s' ≡ some (str turn)))
        ⊎ ((get (active_key chat) s ≡ some (str turn))
            × (outcome ≡ redelivery)
            × (get (active_key chat) s' ≡ some (str turn)))
        ⊎ ((v : Text) × (get (active_key chat) s ≡ some v)
            × (v ≢ str turn)
            × (outcome ≡ active_busy)
            × (get (active_key chat) s' ≡ some v))
  unfolding enter_turn_locks
  enter_turn_locks_lem chat turn s =
      let k = active_key chat in
      let reply = reply-set_nx k (str turn) 30 s in
      let value = get-set_nx k (str turn) 30 s k in
      elim (Option-cases (get k s)) [
        | inl free ↦
            inl (free, ground (arith, reply, free), ground (arith, value, free, text_eq_refl k))
        | inr (v, held) ↦ elim (Bool-cases (text_eq v (str turn))) [
          | inl own ↦
              let e : v ≡ str turn = (text_eq_iff v (str turn)).0 own in
              inr (
                inl (
                  held ∙ ap some e,
                  ground (arith, reply, value, held, own, text_eq_refl k),
                  ground (arith, value, held, e, text_eq_refl k),
                ))
          | inr other ↦ inr (
              inr (
                v,
                held,
                λ e. ground (arith, other, text_eq_iff v (str turn)),
                ground (arith, reply, value, held, other, text_eq_refl k),
                ground (arith, value, held, text_eq_refl k),
              ))
        ]
      ]

  -- A `SET … NX` takes no value away, whatever comes of its reply.
  pub kept_by_set :
      (chat chat' turn' : ℕ) (v : Text) (s : Store)
      → get (active_key chat) s ≡ some v
      → get (active_key chat) (set_nx (active_key chat') (str turn') 30 s).1 ≡ some v
  kept_by_set chat chat' turn' v s e =
      let k = active_key chat' in
      ground
        (arith, get-set_nx k (str turn') 30 s (active_key chat), text_eq_iff k (active_key chat))

  enter_keeps :
      (chat turn chat' turn' : ℕ) (net net_get : Net) (s : Store)
      → get (active_key chat) s ≡ some (str turn)
      → get (active_key chat) (enter_turn_locks redis net net_get chat' turn' s).1 ≡ some (str turn)
  unfolding enter_turn_locks
  enter_keeps chat turn chat' turn' fine net_get s e = kept_by_set chat chat' turn' (str turn) s e
  enter_keeps chat turn chat' turn' not_sent net_get s e = e
  enter_keeps chat turn chat' turn' reply_lost net_get s e =
      kept_by_set chat chat' turn' (str turn) s e

  kept_by_delex :
      (chat turn chat' turn' : ℕ) (s : Store)
      → turn ≢ turn'
      → get (active_key chat) s ≡ some (str turn)
      → get (active_key chat) (delex_ifeq (active_key chat') (str turn') s).1 ≡ some (str turn)
  kept_by_delex chat turn chat' turn' s d e =
      let k = active_key chat' in
      ground (
        arith,
        get-delex_ifeq k (str turn') s (active_key chat),
        text_eq_iff k (active_key chat),
        text_eq_iff (str turn) (str turn'),
        str-injective turn turn',
      )

  exit_keeps :
      (chat turn chat' turn' : ℕ) (net : Net) (outcome : LockAcquireOutcome) (s : Store)
      → turn ≢ turn'
      → get (active_key chat) s ≡ some (str turn)
      → get (active_key chat) (exit_turn_locks redis net outcome chat' turn' s) ≡ some (str turn)
  unfolding exit_turn_locks
  exit_keeps chat turn chat' turn' fine acquired s d e = kept_by_delex chat turn chat' turn' s d e
  exit_keeps chat turn chat' turn' not_sent acquired s d e = e
  exit_keeps chat turn chat' turn' reply_lost acquired s d e =
      kept_by_delex chat turn chat' turn' s d e
  exit_keeps chat turn chat' turn' net redelivery s d e = e
  exit_keeps chat turn chat' turn' net active_busy s d e = e

  -- A turn that holds the lock of its chat keeps it while another turn of any chat enters and
  -- leaves, whatever the network does.
  pub other_turns_keep :
      (chat turn chat' turn' : ℕ) (net net_get net_out : Net) (s : Store)
      → turn ≢ turn'
      → get (active_key chat) s ≡ some (str turn)
      → let (outcome, s') = enter_turn_locks redis net net_get chat' turn' s in
        get (active_key chat) (exit_turn_locks redis net_out outcome chat' turn' s')
        ≡ some (str turn)
  other_turns_keep chat turn chat' turn' net net_get net_out s d e =
      exit_keeps chat turn chat' turn' net_out (enter_turn_locks redis net net_get chat' turn' s).0
        (enter_turn_locks redis net net_get chat' turn' s).1 d
        (enter_keeps chat turn chat' turn' net net_get s e)

  -- If the lock is free and the reply of its `SET` is lost after the command was executed, the turn
  -- holds its lock, and is told that it was delivered before.
  pub lost_reply-redelivery :
      (chat turn : ℕ) (s : Store)
      → get (active_key chat) s ≡ none
      → ((enter_turn_locks redis reply_lost fine chat turn s).0 ≡ redelivery)
        × (get (active_key chat) (enter_turn_locks redis reply_lost fine chat turn s).1
            ≡ some (str turn))
  unfolding enter_turn_locks
  lost_reply-redelivery chat turn s e =
      let k = active_key chat in
      (
        ground (arith, get-set_nx k (str turn) 30 s k, text_eq_refl k, text_eq_refl (str turn)),
        ground (arith, get-set_nx k (str turn) 30 s k, text_eq_refl k),
      )
