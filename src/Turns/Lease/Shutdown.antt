-- ===== src/Turns/Lease/Shutdown.antt =====
-- `release_all_local`, the worker's way out: nothing of its own stays behind.
use codex_server.Base.{◌≡◌, refl, ℕ, Bool, true, false, ◌||◌, List, [], ◌∷◌, arith, All, eq_refl}
use codex_server.Base.Text.{Text, text_eq_refl}
use codex_server.Redis.{Redis, fine, holds}
use codex_server.Turns.Lease.{
  lease_key, Process, release_lua, release_each, release_all_local, discard, same_lease,
}
use codex_server.Turns.Lease.Ownership.{get-release_lua}

abbrev among : ℕ × Text → List (ℕ × Text) → Bool
among m [] = false
among m (l ∷ ls) = same_lease m l || among m ls

same_lease_refl : (m : ℕ × Text) → same_lease m m ≡ true
same_lease_refl (i, h) = ground (arith, eq_refl i, text_eq_refl h)

abbrev Within : List (ℕ × Text) → List (ℕ × Text) → Type 0
Within ms ls = All (λ m. among m ls ≡ true) ms

Within-cons : (l : ℕ × Text) (ls ms : List (ℕ × Text)) → Within ms ls → Within ms (l ∷ ls)
Within-cons l ls [] h = tt
Within-cons l ls (m ∷ ms) h = (ground (arith, h.0), Within-cons l ls ms h.1)

Within-refl : (ls : List (ℕ × Text)) → Within ls ls
Within-refl [] = tt
Within-refl (l ∷ ls) = (ground (arith, same_lease_refl l), Within-cons l ls ls (Within-refl ls))

Within-nil : (ms : List (ℕ × Text)) → Within ms [] → ms ≡ []
Within-nil [] h = refl
Within-nil (m ∷ ms) h = cc (h.0)

Within-discard :
    (l : ℕ × Text) (ls ms : List (ℕ × Text)) → Within ms (l ∷ ls) → Within (discard l ms) ls
Within-discard l ls [] h = tt
Within-discard l ls (m ∷ ms) h = ground (arith, h.0, Within-discard l ls ms h.1)

module _ (redis : Redis) where
  open redis use {Store, get}

  abbrev IsReleased : Store → ℕ × Text → Type 0
  IsReleased s m = holds (get (lease_key m.0) s) m.1 ≡ false

  IsReleased-stays :
      (m : ℕ × Text) (k w : Text) (s : Store)
      → IsReleased s m
      → IsReleased (release_lua redis k w s).1 m
  IsReleased-stays (i, h) k w s e = ground (arith, get-release_lua redis k w s (lease_key i))

  IsReleased-now :
      (i : ℕ) (h : Text) (s : Store) → IsReleased (release_lua redis (lease_key i) h s).1 (i, h)
  IsReleased-now i h s =
      let k = lease_key i in ground (arith, get-release_lua redis k h s k, text_eq_refl k)

  each_stays :
      (m : ℕ × Text) (ls : List (ℕ × Text)) (n : ℕ) (p : Process redis)
      → IsReleased p.store m
      → IsReleased (release_each redis (λ _. fine) ls n p).1.store m
  unfolding release_each
  each_stays m [] n p e = e
  each_stays m ((i, h) ∷ ls) n p e =
      each_stays m ls _ _ (IsReleased-stays m (lease_key i) h p.store e)

  each-IsReleased :
      (ls : List (ℕ × Text)) (n : ℕ) (p : Process redis)
      → All (IsReleased (release_each redis (λ _. fine) ls n p).1.store) ls
  unfolding release_each
  each-IsReleased [] n p = tt
  each-IsReleased ((i, h) ∷ ls) n p =
      (each_stays (i, h) ls _ _ (IsReleased-now i h p.store), each-IsReleased ls _ _)

  each_discards :
      (ls : List (ℕ × Text)) (n : ℕ) (p : Process redis)
      → Within p.active_leases ls
      → (release_each redis (λ _. fine) ls n p).1.active_leases ≡ []
  unfolding release_each
  each_discards [] n p w = Within-nil p.active_leases w
  each_discards ((i, h) ∷ ls) n p w =
      each_discards ls _ _ (Within-discard (i, h) ls p.active_leases w)

  -- With Redis at hand, `release_all_local` empties the registry, and no lease that was in it is
  -- still held in this process's name.
  pub release_all_local_lem :
      (p : Process redis)
      → ((release_all_local redis (λ _. fine) p).1.active_leases ≡ [])
        × All (IsReleased (release_all_local redis (λ _. fine) p).1.store) p.active_leases
  unfolding release_all_local
  release_all_local_lem p = (
    each_discards p.active_leases 0 p (Within-refl p.active_leases),
    each-IsReleased p.active_leases 0 p,
  )
