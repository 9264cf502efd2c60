-- ===== src/RateLimit/Race.antt =====
-- A reservation between the two commands of a release.
use codex_server.Base.{ℕ, ◌≡◌, true, none, some, arith}
use codex_server.Base.Text.Decimal.{pos}
use codex_server.RateLimit.{
  TurnLimits, Usage, ok, reserve_active, reserve_lua, release_decr, release_delete,
}

-- With one slot held, no hourly limit and any limit of active turns, a reservation that comes between
-- the `DECR` of the release and the deletion behind it is granted, and the deletion then takes its
-- count away: the counter is absent while the new turn holds its slot.
pub released-reserve_lost :
    (now : ℕ) (limits : TurnLimits) (u : Usage)
    → limits.hourly ≡ 0
    → u.active ≡ some (pos 1)
    → let (drop, u1) = release_decr u in
      let (status, u2) = reserve_lua now limits u1 in
      (drop ≡ true)
      × (status ≡ ok)
      × (u2.active ≡ some (pos 1))
      × ((release_delete drop u2).active ≡ none)
unfolding release_decr release_delete reserve_lua reserve_active
released-reserve_lost now limits u unlimited one = (
  ground (arith, one),
  ground (arith, one, unlimited),
  ground (arith, one, unlimited),
  ground (arith, one, unlimited),
)
