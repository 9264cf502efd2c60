-- ===== src/Tests/RateLimit.antt =====
-- A guest with two slots.
use codex_server.Base.{◌≡◌, refl, true, false, none, some, [], ◌∷◌, arith}
use codex_server.Base.Text.Decimal.{pos}
use codex_server.RateLimit.{
  User, TurnLimits, RuntimeSettings, Usage, ok, reserve_lua, release_decr, release_delete,
}
use codex_server.RateLimit.Held.{reserves, releases, run, IsTracked, limits_of, run-IsTracked}
use codex_server.RateLimit.Race.{released-reserve_lost}

abbrev guest : User
guest = record { has_admin_role = false; has_email = false }

abbrev limits : TurnLimits
limits = record { active = 2; hourly = 0 }

abbrev settings : RuntimeSettings
settings = record { web_user = limits; tg_guest = limits; tg_guest_max_upload_mb = 20 }

abbrev unused : Usage
unused = record { active = none; hourly = [] }

abbrev one_held : Usage
one_held = record { active = some (pos 1); hourly = [] }

run-IsTracked_example :
    IsTracked
      (limits_of settings guest)
      (run settings guest (reserves 10 ∷ reserves 11 ∷ reserves 12 ∷ releases ∷ []) (0, unused))
run-IsTracked_example =
    run-IsTracked settings guest (reserves 10 ∷ reserves 11 ∷ reserves 12 ∷ releases ∷ [])
      (0, unused) refl (tt, (tt, (tt, (tt, tt)))) (refl, λ l. omega arith)

released-reserve_lost_example :
    ((release_decr one_held).0 ≡ true)
    × ((reserve_lua 20 limits (release_decr one_held).1).0 ≡ ok)
    × ((reserve_lua 20 limits (release_decr one_held).1).1.active ≡ some (pos 1))
    × ((release_delete true (reserve_lua 20 limits (release_decr one_held).1).1).active ≡ none)
unfolding release_decr
released-reserve_lost_example = released-reserve_lost 20 limits one_held refl refl
