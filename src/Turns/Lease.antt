-- ===== src/Turns/Lease.antt =====
-- app/services/turns/lease.py: the key `turn:lease:{id}` with its worker as value, the registry of
-- this process's leases, and the leader locks, over any Redis.
pub mod Keys
pub mod Ownership
pub mod Shutdown
use codex_server.Base.{
  ℕ, suc, ◌+◌, Bool, true, false, ◌&&◌, not, Option, none, some, List, [], ◌∷◌, ◌++◌, ◌==◌,
  if◌then◌else◌, is_some,
}
use codex_server.Base.Text.{Text, codes, text_eq, strip_prefix}
use codex_server.Base.Text.Decimal.{ℤ, str, int}
use codex_server.Redis.{Redis, Net, fine, not_sent, reply_lost, holds}

abbrev pub lease_ttl_s : ℕ
lease_ttl_s = 30

abbrev pub leader_ttl_s : ℕ
leader_ttl_s = 30

abbrev pub lease_key_prefix : Text
lease_key_prefix = codes "turn:lease:"

abbrev pub leader_key_prefix : Text
leader_key_prefix = codes "leader:"

unfoldable pub lease_key : ℕ → Text
lease_key turn_id = lease_key_prefix ++ str turn_id

unfoldable pub leader_key : Text → Text
leader_key name = leader_key_prefix ++ name

pub turn_id_from_key : Text → Option ℤ
turn_id_from_key key = elim (strip_prefix lease_key_prefix key) [
  | none ↦ none
  | some rest ↦ int rest
]

-- The registry `_ACTIVE_LEASES` is a set.
abbrev pub same_lease : ℕ × Text → ℕ × Text → Bool
same_lease (i, h) (j, k) = i == j && text_eq h k

abbrev pub discard : ℕ × Text → List (ℕ × Text) → List (ℕ × Text)
discard l [] = []
discard l (m ∷ ms) = let rest = discard l ms in if same_lease m l then rest else m ∷ rest

abbrev pub add : ℕ × Text → List (ℕ × Text) → List (ℕ × Text)
add l ms = l ∷ discard l ms

abbrev pub is_fine : Net → Bool
is_fine fine = true
is_fine _ = false

module _ (redis : Redis) where
  open redis use {Store, get, set_nx, expire, del}

  -- The store, and the leases that this process has registered.
  pub record Process : Type 0 where
    pub store : Store
    pub active_leases : List (ℕ × Text)

  -- `_REFRESH_LUA`.
  unfoldable pub refresh_lua : Text → Text → ℕ → Store → Bool × Store
  refresh_lua key holder ttl s = if holds (get key s) holder then expire key ttl s else (false, s)

  -- `_RELEASE_LUA`.
  pub release_lua : Text → Text → Store → Bool × Store
  release_lua key holder s = if holds (get key s) holder then del key s else (false, s)

  -- A call whose `RedisError` the caller turns into False.
  abbrev pub guarded : Net → (Store → Bool × Store) → Store → Bool × Store
  guarded fine command s = command s
  guarded not_sent command s = (false, s)
  guarded reply_lost command s = (false, (command s).1)

  unfoldable pub acquire : Net → ℕ → Text → ℕ → Process → Bool × Process
  acquire net turn_id holder ttl p =
      let (ok, s) = guarded net (set_nx (lease_key turn_id) holder ttl) p.store in
      (
        ok,
        record p {
          store = s;
          active_leases = if ok then add (turn_id, holder) p.active_leases else p.active_leases;
        },
      )

  unfoldable pub refresh : Net → ℕ → Text → ℕ → Process → Bool × Process
  refresh net turn_id holder ttl p =
      let (ok, s) = guarded net (refresh_lua (lease_key turn_id) holder ttl) p.store in
      (ok, record p { store = s })

  unfoldable pub release : Net → ℕ → Text → Process → Bool × Process
  release net turn_id holder p =
      let (ok, s) = guarded net (release_lua (lease_key turn_id) holder) p.store in
      (ok, record p { store = s; active_leases = discard (turn_id, holder) p.active_leases })

  -- The rounds of the loop over the snapshot: a failed call leaves its lease registered.
  pub release_each : (ℕ × Text → Net) → List (ℕ × Text) → ℕ → Process → ℕ × Process
  unfolding release_lua
  release_each net [] released p = (released, p)
  release_each net ((turn_id, holder) ∷ rest) released p =
      let (ok, s) =
        guarded (net (turn_id, holder)) (release_lua (lease_key turn_id) holder) p.store in
      let kept =
        if is_fine (net (turn_id, holder))
        then discard (turn_id, holder) p.active_leases
        else p.active_leases in
      release_each net rest (if ok then suc released else released)
        (record p { store = s; active_leases = kept })

  pub release_all_local : (ℕ × Text → Net) → Process → ℕ × Process
  unfolding release_each
  release_all_local net p = release_each net p.active_leases 0 p

  unfoldable pub exists : Net → ℕ → Store → Bool
  exists fine turn_id s = is_some (get (lease_key turn_id) s)
  exists _ turn_id s = false

  pub acquire_leader : Net → Text → Text → ℕ → Store → Bool × Store
  acquire_leader net name holder ttl = guarded net (set_nx (leader_key name) holder ttl)

  pub refresh_leader : Net → Text → Text → ℕ → Store → Bool × Store
  refresh_leader net name holder ttl = guarded net (refresh_lua (leader_key name) holder ttl)

  pub release_leader : Net → Text → Text → Store → Bool × Store
  release_leader net name holder = guarded net (release_lua (leader_key name) holder)
