-- ===== src/RateLimit/Held.antt =====
-- The counter against the turns that hold a slot.
use codex_server.Base.{
  ◌⊎◌, ap, ◌∙◌, ℕ, suc, zero, ◌≤◌, ◌<◌, ◌≡◌, refl, true, false, ◌&&◌, Option, none, some, List, [],
  ◌∷◌, arith, if◌then◌else◌, leb, ltb, Bool-cases, inl, inr, length, Bool, All,
}
use codex_server.Base.Text.Decimal.{ℤ, pos}
use codex_server.RateLimit.{
  active_reached, User, RuntimeSettings, TurnLimits, Usage, ok, reserve_active, reserve_lua,
  reserve_turn, release_turn, release_decr, release_delete, incr, decr, trimmed, hourly_reached,
  turn_limits, Status, user_kind,
}

-- The counter of a user whose turns hold so many slots.
abbrev pub counter : ℕ → Option ℤ
counter zero = none
counter (suc n) = some (pos (suc n))

pub data Op : Type 0 where
  reserves : (now : ℕ) → Op
  releases : Op
  runs_out : Op

-- The slots held and the keys, over calls of which each is done before the next begins; a turn
-- releases its slot once. The key of the counter has a time to live of 600 seconds from its first
-- `INCR`, which nothing renews: it can run out.
pub step : RuntimeSettings → User → Op → ℕ × Usage → ℕ × Usage
step settings user (reserves now) (held, u) =
    let (granted, u') = reserve_turn settings user now u in
    ((if granted then suc held else held), u')
step settings user releases (zero, u) = (zero, u)
step settings user releases (suc held, u) = (held, release_turn user u)
step settings user runs_out (held, u) = (held, record u { active = none })

-- The key of the counter is there for as long as it is needed.
abbrev pub Lasts : Op → Type 0
Lasts runs_out = ⊥
Lasts _ = Unit {0}

pub run : RuntimeSettings → User → List Op → ℕ × Usage → ℕ × Usage
unfolding step
run settings user [] s = s
run settings user (op ∷ ops) s = run settings user ops (step settings user op s)

-- The counter is right, and so is the limit, where there is one.
abbrev pub IsTracked : TurnLimits → ℕ × Usage → Type 0
IsTracked limits (held, u) = (u.active ≡ counter held) × (0 < limits.active → held ≤ limits.active)

incr-counter : (held : ℕ) → incr (counter held) ≡ pos (suc held)
incr-counter zero = refl
incr-counter (suc held) = refl

decr-counter : (held : ℕ) → decr (some (pos (suc held))) ≡ pos held
decr-counter held = refl

-- A counter that was put back is there, so a turn held a slot.
back :
    (held limit : ℕ) → ltb 0 limit && ltb limit (suc held) ≡ true → some (pos held) ≡ counter held
back zero limit h = absurd (ground arith)
back (suc held) limit h = refl

active-IsTracked :
    (now held : ℕ) (limits : TurnLimits) (u : Usage)
    → IsTracked limits (held, u)
    → let (status, u') = reserve_active now limits u in
      IsTracked limits ((elim status [ ok ↦ suc held | _ ↦ held ]), u')
unfolding reserve_active
active-IsTracked now held limits u h =
    let e : incr u.active ≡ pos (suc held) = ap incr h.0 ∙ incr-counter held in
    elim (Bool-cases (ltb 0 limits.active && ltb limits.active (suc held))) [
      | inl full ↦ rw (e, reserve_active, full) (back held limits.active full, h.1)
      | inr free ↦ rw (e, reserve_active, free) (refl, λ l. ground arith)
    ]

branches :
    (a b : Bool) (x y z : Status × Usage)
    → ((if a then if b then x else y else z) ≡ x)
      ⊎ ((if a then if b then x else y else z) ≡ y)
      ⊎ ((if a then if b then x else y else z) ≡ z)
branches true true x y z = inl refl
branches true false x y z = inr (inl refl)
branches false b x y z = inr (inr refl)

-- The script refuses for the hour, or comes to the counter.
reserve_lua-cases :
    (now : ℕ) (limits : TurnLimits) (u : Usage)
    → let trim : Usage = record u { hourly = trimmed now u.hourly } in
      (reserve_lua now limits u ≡ (hourly_reached, trim))
      ⊎ (reserve_lua now limits u ≡ reserve_active now limits trim)
      ⊎ (reserve_lua now limits u ≡ reserve_active now limits u)
unfolding reserve_lua
reserve_lua-cases now limits u =
    let trim : Usage = record u { hourly = trimmed now u.hourly } in
    branches (ltb 0 limits.hourly) (leb limits.hourly (length (trimmed now u.hourly)))
      (hourly_reached, trim) (reserve_active now limits trim) (reserve_active now limits u)

lua-IsTracked :
    (now held : ℕ) (limits : TurnLimits) (u : Usage)
    → IsTracked limits (held, u)
    → let (status, u') = reserve_lua now limits u in
      IsTracked limits ((elim status [ ok ↦ suc held | _ ↦ held ]), u')
lua-IsTracked now held limits u h =
    let trim : Usage = record u { hourly = trimmed now u.hourly } in
    elim (reserve_lua-cases now limits u) [
      | inl e ↦ rw e h
      | inr (inl e) ↦ rw e (active-IsTracked now held limits trim h)
      | inr (inr e) ↦ rw e (active-IsTracked now held limits u h)
    ]

release-counter :
    (held : ℕ) (u : Usage) (user : User)
    → u.active ≡ counter (suc held)
    → user.has_admin_role ≡ false
    → (release_turn user u).active ≡ counter held
unfolding release_turn release_decr release_delete
release-counter zero u user e plain = ground (arith, e, plain)
release-counter (suc held) u user e plain = ground (arith, e, plain)

-- The limits of a user who is no admin.
abbrev pub limits_of : RuntimeSettings → User → TurnLimits
limits_of settings user = turn_limits settings (user_kind user)

granted-if :
    (status : Status) (held : ℕ)
    → (if elim status [ ok ↦ true | _ ↦ false ] then suc held else held)
      ≡ elim status [ ok ↦ suc held | _ ↦ held ]
granted-if ok held = refl
granted-if hourly_reached held = refl
granted-if active_reached held = refl

reserve_turn-plain :
    (settings : RuntimeSettings) (user : User) (now : ℕ) (u : Usage)
    → user.has_admin_role ≡ false
    → let (status, u') = reserve_lua now (limits_of settings user) u in
      reserve_turn settings user now u ≡ ((elim status [ ok ↦ true | _ ↦ false ]), u')
unfolding reserve_turn
reserve_turn-plain settings user now u plain = elim (Bool-cases user.has_email) [
  | inl mail ↦ rw (plain, mail, reserve_turn) refl
  | inr guest ↦ rw (plain, guest, reserve_turn) refl
]

step-IsTracked :
    (settings : RuntimeSettings) (user : User) (op : Op) (s : ℕ × Usage)
    → user.has_admin_role ≡ false
    → Lasts op
    → IsTracked (limits_of settings user) s
    → IsTracked (limits_of settings user) (step settings user op s)
unfolding step
step-IsTracked settings user (reserves now) (held, u) plain lasts h =
    let limits = limits_of settings user in
    rw (reserve_turn-plain settings user now u plain, granted-if (reserve_lua now limits u).0 held)
      (lua-IsTracked now held limits u h)
step-IsTracked settings user releases (zero, u) plain lasts h = h
step-IsTracked settings user releases (suc held, u) plain lasts h =
    (release-counter held u user h.0 plain, λ l. omega (arith, h.1 l))
step-IsTracked settings user runs_out (held, u) plain lasts h = absurd lasts

-- While each call to Redis is done before the next begins, and the key of the counter does not run
-- out, which it does 600 seconds behind its first reservation, the counter of a user who is no admin is
-- the number of the slots held, and with a limit set no more slots are held than it says, in any
-- order of reservations and releases.
pub run-IsTracked :
    (settings : RuntimeSettings) (user : User) (ops : List Op) (s : ℕ × Usage)
    → user.has_admin_role ≡ false
    → All Lasts ops
    → IsTracked (limits_of settings user) s
    → IsTracked (limits_of settings user) (run settings user ops s)
unfolding run
run-IsTracked settings user [] s plain lasts h = h
run-IsTracked settings user (op ∷ ops) s plain (l, lasts) h =
    run-IsTracked settings user ops (step settings user op s) plain lasts
      (step-IsTracked settings user op s plain l h)
