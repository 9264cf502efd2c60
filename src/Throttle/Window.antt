-- ===== src/Throttle/Window.antt =====
-- When an address is blocked.
use codex_server.Base.{
  ℕ, suc, zero, ◌≡◌, refl, false, Option, none, some, List, [], ◌∷◌, if◌then◌else◌, leb, Bool-cases,
  inl, inr,
}
use codex_server.Base.Text.{Text}
use codex_server.Redis.{fine}
use codex_server.Throttle.{max_attempts, check, register_failure, clear, is_blank, counted}

-- A login that failed, and one that succeeded.
pub data Attempt : Type 0 where
  fails succeeds : Attempt

-- The counter behind the attempts, oldest first.
pub attempts_from : Option Text → Option ℕ → List Attempt → Option ℕ
unfolding register_failure clear
attempts_from ip n [] = n
attempts_from ip n (fails ∷ rest) = attempts_from ip (register_failure ip fine n) rest
attempts_from ip n (succeeds ∷ rest) = attempts_from ip (clear ip fine n) rest

-- The failures since the last success, from so many on.
abbrev pub failures_from : ℕ → List Attempt → ℕ
failures_from n [] = n
failures_from n (fails ∷ rest) = failures_from (suc n) rest
failures_from n (succeeds ∷ rest) = failures_from 0 rest

abbrev stored : ℕ → Option ℕ
stored zero = none
stored (suc n) = some (suc n)

counted-stored : (n : ℕ) → some (counted (stored n)) ≡ stored (suc n)
counted-stored zero = refl
counted-stored (suc n) = refl

attempts-stored :
    (ip : Option Text) (n : ℕ) (rest : List Attempt)
    → is_blank ip ≡ false
    → attempts_from ip (stored n) rest ≡ stored (failures_from n rest)
unfolding attempts_from register_failure clear
attempts-stored ip n [] h = refl
attempts-stored ip n (fails ∷ rest) h =
    rw (h, attempts_from, counted-stored n) (attempts-stored ip (suc n) rest h)
attempts-stored ip n (succeeds ∷ rest) h = rw (h, attempts_from) (attempts-stored ip 0 rest h)

blocked-stored :
    (ip : Option Text) (n : ℕ) → is_blank ip ≡ false → check ip fine (stored n) ≡ leb max_attempts n
unfolding check
blocked-stored ip zero h = rw (h, check) refl
blocked-stored ip (suc n) h = rw (h, check) refl

-- With Redis at hand, an address is blocked exactly when it has failed five times or more since its
-- last success; a client without an address is never blocked.
pub check_lem :
    (ip : Option Text) (rest : List Attempt)
    → check ip fine (attempts_from ip none rest)
      ≡ (if is_blank ip then false else leb max_attempts (failures_from 0 rest))
check_lem ip rest = elim (Bool-cases (is_blank ip)) [
  | inl blank ↦ rw blank (unfold check in rw blank refl)
  | inr address ↦
      rw
        (
          attempts-stored ip 0 rest address,
          blocked-stored ip (failures_from 0 rest) address,
          address,
        )
        refl
]
