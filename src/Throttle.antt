-- ===== src/Throttle.antt =====
-- app/services/auth/throttle.py: the counter of failed logins of one address. Times to live are left
-- out: a counter that runs out is an absent one. A call to Redis that raises is passed over.
pub mod Window
use codex_server.Base.{
  ℕ, suc, Bool, true, false, not, Option, none, some, List, [], ◌∷◌, if◌then◌else◌, leb,
}
use codex_server.Base.Text.{Text}
use codex_server.Redis.{Net, fine, not_sent, reply_lost}

abbrev pub max_attempts : ℕ
max_attempts = 5

-- `not ip`.
abbrev pub is_blank : Option Text → Bool
is_blank none = true
is_blank (some []) = true
is_blank (some (c ∷ ip)) = false

abbrev pub counted : Option ℕ → ℕ
counted none = 1
counted (some n) = suc n

-- True is `LoginThrottled`.
pub check : Option Text → Net → Option ℕ → Bool
check ip net attempts = if is_blank ip then false else elim net [
  | fine ↦ elim attempts [ none ↦ false | some n ↦ leb max_attempts n ]
  | _ ↦ false
]

-- The counter behind the `INCR`; the times to live that the call sets behind it are left out.
pub register_failure : Option Text → Net → Option ℕ → Option ℕ
register_failure ip net attempts =
    if is_blank ip then attempts else elim net [ not_sent ↦ attempts | _ ↦ some (counted attempts) ]

pub clear : Option Text → Net → Option ℕ → Option ℕ
clear ip net attempts =
    if is_blank ip then attempts else elim net [ not_sent ↦ attempts | _ ↦ none ]
