-- ===== src/Turns/Lease/Ownership.antt =====
-- Who holds a lease: over any calls of other workers, with any network failures.
use codex_server.Base.{
  ◌≡◌, ◌≢◌, ◌⊎◌, ◌∙◌, ℕ, Bool, false, ◌&&◌, not, Option, none, some, List, [], ◌∷◌, arith,
  if◌then◌else◌, is_some, All, Bool-cases, inl, inr, refl, ap,
}
use codex_server.Base.Text.{Text, text_eq, text_eq_iff}
use codex_server.Redis.{Redis, Net, fine, not_sent, reply_lost, holds, or_else}
use codex_server.Turns.Lease.{
  lease_key, Process, refresh_lua, release_lua, acquire, refresh, release, discard,
}
use codex_server.Turns.Lease.Keys.{lease_key-injective}

module _ (redis : Redis) where
  open redis use {
    Store, get, set_nx, expire, del, get-set_nx, reply-set_nx, get-expire, get-del, reply-del,
    reply-expire,
  }

  pub get-release_lua :
      (k w : Text) (s : Store) (j : Text)
      → get j (release_lua redis k w s).1
        ≡ (if text_eq k j && holds (get k s) w then none else get j s)
  unfolding release_lua
  get-release_lua k w s j = ground (arith, get-del k s j)

  pub reply-release_lua : (k w : Text) (s : Store) → (release_lua redis k w s).0 ≡ holds (get k s) w
  unfolding release_lua
  reply-release_lua k w s = ground (arith, reply-del k s)

  pub get-refresh_lua :
      (k w : Text) (ttl : ℕ) (s : Store) (j : Text)
      → get j (refresh_lua redis k w ttl s).1 ≡ get j s
  unfolding refresh_lua
  get-refresh_lua k w ttl s j = ground (arith, get-expire k ttl s j)

  pub reply-refresh_lua :
      (k w : Text) (ttl : ℕ) (s : Store) → (refresh_lua redis k w ttl s).0 ≡ holds (get k s) w
  unfolding refresh_lua
  reply-refresh_lua k w ttl s = ground (arith, reply-expire k ttl s)

  -- A worker's call on the lease of a turn.
  pub data Call : Type 0 where
    acquires refreshes releases : Net → ℕ → Text → Call

  pub call : Call → Process redis → Bool × Process redis
  call (acquires net i h) p = acquire redis net i h 30 p
  call (refreshes net i h) p = refresh redis net i h 30 p
  call (releases net i h) p = release redis net i h p

  abbrev pub IsForeign : ℕ → Text → Call → Type 0
  IsForeign i h (releases net j w) = (i ≢ j) ⊎ (h ≢ w)
  IsForeign i h _ = Unit {0}

  pub calls : List Call → Process redis → Process redis
  calls [] p = p
  calls (c ∷ cs) p = calls cs (call c p).1

  keys_differ : (i j : ℕ) → i ≢ j → text_eq (lease_key j) (lease_key i) ≡ false
  keys_differ i j d = elim (Bool-cases (text_eq (lease_key j) (lease_key i))) [
    | inr e ↦ e
    | inl e ↦
        absurd
          (d (lease_key-injective i j (ground (arith, text_eq_iff (lease_key j) (lease_key i)))))
  ]

  kept_by_acquire :
      (i j : ℕ) (h w : Text) (s : Store)
      → get (lease_key i) s ≡ some h
      → get (lease_key i) (set_nx (lease_key j) w 30 s).1 ≡ some h
  kept_by_acquire i j h w s e =
      let k = lease_key j in
      ground (arith, get-set_nx k w 30 s (lease_key i), text_eq_iff k (lease_key i))

  kept_by_release :
      (i j : ℕ) (h w : Text) (s : Store)
      → (i ≢ j) ⊎ (h ≢ w)
      → get (lease_key i) s ≡ some h
      → get (lease_key i) (release_lua redis (lease_key j) w s).1 ≡ some h
  kept_by_release i j h w s (inl d) e =
      ground (arith, get-release_lua (lease_key j) w s (lease_key i), keys_differ i j d)
  kept_by_release i j h w s (inr d) e =
      let k = lease_key j in
      ground
        (arith, get-release_lua k w s (lease_key i), text_eq_iff k (lease_key i), text_eq_iff h w)

  call-keeps :
      (i : ℕ) (h : Text) (c : Call) (p : Process redis)
      → IsForeign i h c
      → get (lease_key i) p.store ≡ some h
      → get (lease_key i) (call c p).1.store ≡ some h
  unfolding call acquire refresh release
  call-keeps i h (acquires fine j w) p f e = kept_by_acquire i j h w p.store e
  call-keeps i h (acquires not_sent j w) p f e = e
  call-keeps i h (acquires reply_lost j w) p f e = kept_by_acquire i j h w p.store e
  call-keeps i h (refreshes fine j w) p f e =
      get-refresh_lua (lease_key j) w 30 p.store (lease_key i) ∙ e
  call-keeps i h (refreshes not_sent j w) p f e = e
  call-keeps i h (refreshes reply_lost j w) p f e =
      get-refresh_lua (lease_key j) w 30 p.store (lease_key i) ∙ e
  call-keeps i h (releases fine j w) p f e = kept_by_release i j h w p.store f e
  call-keeps i h (releases not_sent j w) p f e = e
  call-keeps i h (releases reply_lost j w) p f e = kept_by_release i j h w p.store f e

  -- While a worker holds the lease of a turn, which does not run out, no calls of `acquire` and
  -- `refresh` by anyone and no `release` by another worker or of another turn take it away,
  -- whatever the network does.
  pub calls-keep :
      (i : ℕ) (h : Text) (cs : List Call) (p : Process redis)
      → All (IsForeign i h) cs
      → get (lease_key i) p.store ≡ some h
      → get (lease_key i) (calls cs p).store ≡ some h
  unfolding calls
  calls-keep i h [] p f e = e
  calls-keep i h (c ∷ cs) p f e = calls-keep i h cs (call c p).1 f.1 (call-keeps i h c p f.0 e)

  -- What the three calls answer, what they leave at a key, and what in the registry.
  pub record LeaseCalls (i : ℕ) (h : Text) (ttl : ℕ) (p : Process redis) (j : Text) : Type 0 where
    pub acquired : (acquire redis fine i h ttl p).0 ≡ not (is_some (get (lease_key i) p.store))
    pub acquired_key : get j (acquire redis fine i h ttl p).1.store ≡ (
        if not (is_some (get (lease_key i) p.store)) && text_eq (lease_key i) j
        then some h
        else get j p.store)
    pub acquired_leases : (acquire redis fine i h ttl p).1.active_leases ≡ (
        if is_some (get (lease_key i) p.store)
        then p.active_leases
        else (i, h) ∷ discard (i, h) p.active_leases)
    pub refreshed : (refresh redis fine i h ttl p).0 ≡ holds (get (lease_key i) p.store) h
    pub refreshed_key : get j (refresh redis fine i h ttl p).1.store ≡ get j p.store
    pub refreshed_leases : (refresh redis fine i h ttl p).1.active_leases ≡ p.active_leases
    pub released : (release redis fine i h p).0 ≡ holds (get (lease_key i) p.store) h
    pub released_key : get j (release redis fine i h p).1.store ≡ (
        if holds (get (lease_key i) p.store) h && text_eq (lease_key i) j
        then none
        else get j p.store)
    pub released_leases :
        (release redis fine i h p).1.active_leases ≡ discard (i, h) p.active_leases

  or_else-keeps :
      (k j : Text) (h : Text) (s : Store) (o : Option Text)
      → get k s ≡ o
      → (if text_eq k j then or_else o h else get j s)
        ≡ (if not (is_some o) && text_eq k j then some h else get j s)
  or_else-keeps k j h s none e = refl
  or_else-keeps k j h s (some v) e = elim (Bool-cases (text_eq k j)) [
    | inl same ↦ ground (arith, e, same, ap (λ x. get x s) ((text_eq_iff k j).0 same))
    | inr other ↦ ground (arith, other)
  ]

  -- Without a failure, `acquire` returns True exactly if nobody holds the lease, and then makes the
  -- caller its holder and registers it; `refresh` returns True exactly if the caller holds the lease,
  -- and changes no value; `release` returns True exactly if the caller holds it, and then takes its
  -- key away; its registration goes in any case. Every other key keeps its value, and where the
  -- answer is False all keys do.
  pub lease_calls_lem :
      (i : ℕ) (h : Text) (ttl : ℕ) (p : Process redis) (j : Text) → LeaseCalls i h ttl p j
  unfolding acquire refresh release
  lease_calls_lem i h ttl p j =
      let k = lease_key i in
      record {
        acquired = reply-set_nx k h ttl p.store;
        acquired_key =
            get-set_nx k h ttl p.store j ∙ or_else-keeps k j h p.store (get k p.store) refl;
        acquired_leases = ground (arith, reply-set_nx k h ttl p.store);
        refreshed = reply-refresh_lua k h ttl p.store;
        refreshed_key = get-refresh_lua k h ttl p.store j;
        refreshed_leases = refl;
        released = reply-release_lua k h p.store;
        released_key = ground (arith, get-release_lua k h p.store j);
        released_leases = refl;
      }
