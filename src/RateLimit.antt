-- ===== src/RateLimit.antt =====
-- app/services/rate_limit/service.py: the reserve script and the release, on the two keys of one
-- user, with the kinds of users of app/services/runtime_settings/schemas.py. Times are microseconds.
-- The times to live that the script sets are no part of the state: that a key runs out is a step of
-- its own in RateLimit/Held.antt.
pub mod Held
pub mod Race
use codex_server.Base.{
  ℕ, zero, suc, ◌+◌, Bool, true, false, ◌&&◌, not, Option, none, some, List, [], ◌∷◌, if◌then◌else◌,
  leb, ltb, ◌==◌, length, filter, count, ◌*◌,
}
use codex_server.Base.Text.Decimal.{ℤ, pos, negsuc}

pub data UserKind : Type 0 where
  admin web_user tg_guest : UserKind

pub record User : Type 0 where
  pub has_admin_role : Bool
  pub has_email : Bool

abbrev pub user_kind : User → UserKind
user_kind u = if u.has_admin_role then admin else if u.has_email then web_user else tg_guest

pub record TurnLimits : Type 0 where
  pub active : ℕ
  pub hourly : ℕ

pub record RuntimeSettings : Type 0 where
  pub web_user : TurnLimits
  pub tg_guest : TurnLimits
  pub tg_guest_max_upload_mb : ℕ

abbrev pub turn_limits : RuntimeSettings → UserKind → TurnLimits
turn_limits s admin = record { active = 0; hourly = 0 }
turn_limits s web_user = s.web_user
turn_limits s tg_guest = s.tg_guest

abbrev pub mb : ℕ
mb = 1048576

abbrev pub max_upload_bytes : RuntimeSettings → UserKind → Option ℕ
max_upload_bytes s tg_guest =
    if s.tg_guest_max_upload_mb == 0 then none else some (s.tg_guest_max_upload_mb * mb)
max_upload_bytes s _ = none

-- The counter `ratelimit:active:{id}`, if it is there, and the members of `ratelimit:hourly:{id}`:
-- each is the time of a reservation.
pub record Usage : Type 0 where
  pub active : Option ℤ
  pub hourly : List ℕ

abbrev pub hourly_window : ℕ
hourly_window = 3600000000

-- `INCR` and `DECR`.
abbrev pub incr : Option ℤ → ℤ
incr none = pos 1
incr (some (pos n)) = pos (suc n)
incr (some (negsuc zero)) = pos 0
incr (some (negsuc (suc n))) = negsuc n

abbrev pub decr : Option ℤ → ℤ
decr none = negsuc 0
decr (some (pos zero)) = negsuc 0
decr (some (pos (suc n))) = pos n
decr (some (negsuc n)) = negsuc (suc n)

abbrev pub exceeds : ℤ → ℕ → Bool
exceeds (pos n) limit = ltb limit n
exceeds (negsuc n) limit = false

-- `ZREMRANGEBYSCORE` and `ZADD`: a member that is there already is not added again.
abbrev pub trimmed : (now : ℕ) → List ℕ → List ℕ
trimmed now = filter (λ t. not (leb (t + hourly_window) now))

abbrev pub added : ℕ → List ℕ → List ℕ
added t ts = if ltb 0 (count (λ s. s == t) ts) then ts else t ∷ ts

pub data Status : Type 0 where
  ok hourly_reached active_reached : Status

-- The last part of `_RESERVE_LUA`, with the window as it was left by the first.
pub reserve_active : (now : ℕ) → TurnLimits → Usage → Status × Usage
reserve_active now limits u =
    let n = incr u.active in
    if ltb 0 limits.active && exceeds n limits.active
    then (active_reached, record u { active = some (decr (some n)) })
    else (
      ok,
      record {
        active = some n;
        hourly = if ltb 0 limits.hourly then added now u.hourly else u.hourly;
      },
    )

pub reserve_lua : (now : ℕ) → TurnLimits → Usage → Status × Usage
unfolding reserve_active
reserve_lua now limits u =
    let window = trimmed now u.hourly in
    if ltb 0 limits.hourly
    then if leb limits.hourly (length window)
      then (hourly_reached, record u { hourly = window })
      else reserve_active now limits (record u { hourly = window })
    else reserve_active now limits u

-- The answer is False for `RateLimited`.
pub reserve_turn : RuntimeSettings → User → (now : ℕ) → Usage → Bool × Usage
unfolding reserve_lua
reserve_turn settings user now u = elim (user_kind user) [
  | admin ↦ (true, u)
  | kind ↦
      let (status, u') = reserve_lua now (turn_limits settings kind) u in
      (elim status [ ok ↦ true | _ ↦ false ], u')
]

-- `release_turn` is two commands: the `DECR`, with its answer, and the deletion that may follow it.
unfoldable pub release_decr : Usage → Bool × Usage
release_decr u = (not (exceeds (decr u.active) 0), record u { active = some (decr u.active) })

pub release_delete : Bool → Usage → Usage
release_delete drop u = if drop then record u { active = none } else u

pub release_turn : User → Usage → Usage
unfolding release_decr release_delete
release_turn user u = elim (user_kind user) [
  | admin ↦ u
  | _ ↦ let (drop, u') = release_decr u in release_delete drop u'
]
