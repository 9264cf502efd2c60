-- ===== src/Turns/Runner/Keys.antt =====
-- The lock and the lease through a delivery that owns its turn at first, with what others do to them.
use codex_server.Base.{
  ℕ, ◌≡◌, refl, ap, Bool, true, false, none, [], ◌∷◌, arith, Option-cases, Bool-cases, inl, inr,
  List, All, not, ◌&&◌,
}
use codex_server.Base.Text.{Text, text_eq, text_eq_refl, text_eq_iff}
use codex_server.Base.Text.Decimal.{str}
use codex_server.Redis.{Redis, holds}
use codex_server.Turns.Lease.{lease_key}
use codex_server.Turns.Lease.Ownership.{get-release_lua}
use codex_server.Turns.Lease.{release_lua}
use codex_server.Turns.Locks.{active_key}
use codex_server.Turns.Runner.{Delivery, KeyChange, takes, goes, change_keys}

keys_apart :
    (c i : ℕ)
    → (text_eq (active_key c) (lease_key i) ≡ false)
      × (text_eq (lease_key i) (active_key c) ≡ false)
unfolding active_key lease_key
keys_apart c i = (refl, refl)

module _ (redis : Redis) where
  open redis use {get, set_nx, get-set_nx, reply-set_nx, delex_ifeq, get-delex_ifeq}

  -- What others do leaves a key without a value.
  abbrev pub spares : Text → Text → KeyChange → Bool
  spares k v (takes j w) = not (text_eq j k && text_eq w v)
  spares k v (goes j) = true

  change-spares :
      (k v : Text) (cs : List KeyChange) (s : redis.Store)
      → All (λ c. spares k v c ≡ true) cs
      → holds (get k s) v ≡ false
      → holds (get k (change_keys redis cs s)) v ≡ false
  change-spares k v [] s a h = h
  change-spares k v (takes j w ∷ cs) s (a, rest) h =
      change-spares k v cs (set_nx j w 30 s).1 rest (elim (Bool-cases (text_eq j k)) [
        | inl e ↦
            let same : j ≡ k = (text_eq_iff j k).0 e in
            ground (arith, get-set_nx j w 30 s k, e, ap (λ x. get x s) same, Option-cases (get k s))
        | inr e ↦ ground (arith, get-set_nx j w 30 s k, e)
      ])
  change-spares k v (goes j ∷ cs) s (a, rest) h =
      change-spares k v cs (redis.del j s).1 rest (ground (arith, redis.get-del j s k))

  -- The store behind each call of a delivery that owns its turn at first.
  abbrev pub unlocked : Delivery → ℕ → redis.Store → redis.Store
  unlocked d chat s =
      (delex_ifeq (active_key chat) (str d.turn_id) (
        change_keys redis d.keys_running
          (set_nx (lease_key d.turn_id) d.worker_id 30
            (set_nx (active_key chat) (str d.turn_id) 30 s).1).1)).1

  abbrev pub given_back : Delivery → ℕ → redis.Store → redis.Store
  given_back d chat s =
      (release_lua redis (lease_key d.turn_id) d.worker_id
        (change_keys redis d.keys_leaving (unlocked d chat s))).1

  active-unlocked :
      (d : Delivery) (chat : ℕ) (s : redis.Store)
      → holds (get (active_key chat) (unlocked d chat s)) (str d.turn_id) ≡ false
  active-unlocked d chat s =
      let k = active_key chat in
      let s2 = (set_nx (lease_key d.turn_id) d.worker_id 30 (set_nx k (str d.turn_id) 30 s).1).1 in
      let s3 = change_keys redis d.keys_running s2 in
      ground (arith, get-delex_ifeq k (str d.turn_id) s3 k, text_eq_refl k)

  pub active-given_back :
      (d : Delivery) (chat : ℕ) (s : redis.Store)
      → All (λ c. spares (active_key chat) (str d.turn_id) c ≡ true) d.keys_leaving
      → holds (get (active_key chat) (given_back d chat s)) (str d.turn_id) ≡ false
  active-given_back d chat s spared =
      let k = active_key chat in
      let l = lease_key d.turn_id in
      let s4 = unlocked d chat s in
      ground (
        arith,
        get-release_lua redis l d.worker_id (change_keys redis d.keys_leaving s4) k,
        (keys_apart chat d.turn_id).1,
        change-spares k (str d.turn_id) d.keys_leaving s4 spared (active-unlocked d chat s),
      )

  pub lease-given_back :
      (d : Delivery) (chat : ℕ) (s : redis.Store)
      → holds (get (lease_key d.turn_id) (given_back d chat s)) d.worker_id ≡ false
  lease-given_back d chat s =
      let l = lease_key d.turn_id in
      let s5 = change_keys redis d.keys_leaving (unlocked d chat s) in
      ground (arith, get-release_lua redis l d.worker_id s5 l, text_eq_refl l)

  pub leased-free :
      (chat id : ℕ) (worker : Text) (s : redis.Store)
      → get (lease_key id) s ≡ none
      → (set_nx (lease_key id) worker 30 (set_nx (active_key chat) (str id) 30 s).1).0 ≡ true
  leased-free chat id worker s e =
      let k = active_key chat in
      let l = lease_key id in
      ground (
        arith,
        get-set_nx k (str id) 30 s l,
        reply-set_nx l worker 30 (set_nx k (str id) 30 s).1,
        (keys_apart chat id).0,
      )
