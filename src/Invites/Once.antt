-- ===== src/Invites/Once.antt =====
-- A token is redeemed once.
use mathlib.Core.Path.{subst}
use codex_server.Base.{
  sym, ℕ, ◌+◌, ◌≤◌, ◌<◌, ◌≡◌, refl, ◌∙◌, Bool, true, false, ◌&&◌, none, some, List, [], ◌∷◌, ◌++◌,
  map, arith, if◌then◌else◌, count, count-append, find?, ltb, leb, ◌==◌, Bool-cases, Option-cases,
  inl, inr,
}
use codex_server.Base.Text.{Text, text_eq, text_eq_iff, text_eq_refl}
use codex_server.Invites.{
  taken, delete_row, new_invite, Invite, has_token, is_used, create, redeem, revoke, Reply, granted,
  refused,
}

pub data Op : Type 0 where
  creates : (now day id : ℕ) → Text → (user ttl_days : ℕ) → Op
  redeems : (now : ℕ) → Text → (user : ℕ) → Op
  revokes : ℕ → Op

pub apply : Op → List Invite → List Invite
apply (creates now day id token user ttl) rows = elim (create now day id token user ttl rows) [
  | none ↦ rows
  | some rows' ↦ rows'
]
apply (redeems now token user) rows = (redeem now token user rows).1
apply (revokes id) rows = (revoke id rows).1

abbrev is_granted : Reply → Bool
is_granted (granted i) = true
is_granted (refused e) = false

-- 1 where the call redeems this token.
abbrev pub grant : Text → Op → List Invite → ℕ
grant t (redeems now token user) rows =
    if text_eq token t && is_granted (redeem now token user rows).0 then 1 else 0
grant t _ rows = 0

-- How often a list of calls redeems this token.
pub grants : Text → List Op → List Invite → ℕ
unfolding apply
grants t [] rows = 0
grants t (op ∷ ops) rows = grant t op rows + grants t ops (apply op rows)

abbrev pub used_with : Text → Invite → Bool
used_with t i = has_token t i && is_used i

used-le : (t : Text) (rows : List Invite) → count (used_with t) rows ≤ count (has_token t) rows
used-le t [] = omega arith
used-le t (r ∷ rows) = ground (arith, used-le t rows)

-- What a call keeps of a token's rows: there is at most one, and each redemption of the token adds
-- to the used ones.
abbrev Keeps : Text → ℕ → List Invite → List Invite → Type 0
Keeps t n rows rows' =
    (count (has_token t) rows' ≤ 1) × (n + count (used_with t) rows ≤ count (used_with t) rows')

added_once :
    (t token : Text) (row : Invite) (rows : List Invite)
    → count (has_token t) rows ≤ 1
    → count (has_token token) rows ≡ 0
    → row.token ≡ token
    → count (has_token t) (rows ++ row ∷ []) ≤ 1
added_once t token row rows one fresh e = elim (Bool-cases (has_token t row)) [
  | inl same ↦
      let q : token ≡ t = sym e ∙ (text_eq_iff row.token t).0 same in
      ground (
        arith,
        same,
        subst (λ x. count (has_token x) rows ≡ 0) q fresh,
        count-append (has_token t) rows (row ∷ []),
      )
  | inr other ↦ ground (arith, other, count-append (has_token t) rows (row ∷ []))
]

create-Keeps :
    (t : Text) (now day id : ℕ) (token : Text) (user ttl : ℕ) (rows : List Invite)
    → count (has_token t) rows ≤ 1
    → Keeps t 0 rows (apply (creates now day id token user ttl) rows)
unfolding apply create
create-Keeps t now day id token user ttl rows one =
    elim (Bool-cases (ltb 0 (count (has_token token) rows))) [
      | inl there ↦ rw (there, create, apply) (one, omega arith)
      | inr fresh ↦
          let row : Invite = new_invite now day id token user ttl in
          rw (fresh, create, apply)
            (
              added_once t token row rows one (ground arith) refl,
              omega (arith, count-append (used_with t) rows (row ∷ [])),
            )
    ]

taken-count :
    (t : Text) (now : ℕ) (token : Text) (user : ℕ) (rows : List Invite)
    → count (has_token t) (map (taken now token user) rows) ≡ count (has_token t) rows
taken-count t now token user [] = refl
taken-count t now token user (r ∷ rows) = ground (arith, taken-count t now token user rows)

taken-used :
    (t : Text) (now : ℕ) (token : Text) (user : ℕ) (rows : List Invite)
    → count (used_with t) rows ≤ count (used_with t) (map (taken now token user) rows)
taken-used t now token user [] = omega arith
taken-used t now token user (r ∷ rows) = ground (arith, taken-used t now token user rows)

taken_all :
    (now : ℕ) (token : Text) (user : ℕ) (rows : List Invite)
    → count (used_with token) (map (taken now token user) rows) ≡ count (has_token token) rows
taken_all now token user [] = refl
taken_all now token user (r ∷ rows) = ground (arith, taken_all now token user rows)

one_unused :
    (token : Text) (rows : List Invite) (i : Invite)
    → find? (has_token token) rows ≡ some i
    → is_used i ≡ false
    → count (used_with token) rows < count (has_token token) rows
one_unused token [] i h f = cc
one_unused token (r ∷ rows) i h f = ground (arith, one_unused token rows i, used-le token rows)

granted_once :
    (t : Text) (now : ℕ) (token : Text) (user : ℕ) (rows : List Invite) (i : Invite)
    → find? (has_token token) rows ≡ some i
    → is_used i ≡ false
    → (if text_eq token t && true then 1 else 0) + count (used_with t) rows
      ≤ count (used_with t) (map (taken now token user) rows)
granted_once t now token user rows i h f = elim (Bool-cases (text_eq token t)) [
  | inl same ↦
      rw (sym ((text_eq_iff token t).0 same), text_eq_refl token)
        (omega (arith, one_unused token rows i h f, taken_all now token user rows))
  | inr other ↦ rw other (omega (arith, taken-used t now token user rows))
]

redeem-Keeps :
    (t : Text) (now : ℕ) (token : Text) (user : ℕ) (rows : List Invite)
    → count (has_token t) rows ≤ 1
    → Keeps t (grant t (redeems now token user) rows) rows (apply (redeems now token user) rows)
unfolding apply redeem
redeem-Keeps t now token user rows one = elim (Option-cases (find? (has_token token) rows)) [
  | inl e ↦ rw (e, redeem, apply) (one, ground arith)
  | inr (i, e) ↦ elim (Bool-cases (is_used i)) [
    | inl old ↦ rw (e, redeem, apply, old) (one, ground arith)
    | inr unused ↦ elim (Bool-cases (leb i.expires_at now)) [
      | inl late ↦ rw (e, redeem, apply, unused, late) (one, ground arith)
      | inr timely ↦
          rw (e, redeem, apply, unused, timely)
            (
              omega (arith, taken-count t now token user rows),
              granted_once t now token user rows i e unused,
            )
    ]
  ]
]

delete_row-count :
    (t : Text) (id : ℕ) (rows : List Invite)
    → count (has_token t) (delete_row id rows) ≤ count (has_token t) rows
delete_row-count t id [] = omega arith
delete_row-count t id (r ∷ rows) = ground (arith, delete_row-count t id rows)

delete_row-used :
    (t : Text) (id : ℕ) (rows : List Invite) (i : Invite)
    → find? (λ r. r.id == id) rows ≡ some i
    → is_used i ≡ false
    → count (used_with t) rows ≤ count (used_with t) (delete_row id rows)
delete_row-used t id [] i h f = cc
delete_row-used t id (r ∷ rows) i h f = ground (arith, delete_row-used t id rows i)

revoke-Keeps :
    (t : Text) (id : ℕ) (rows : List Invite)
    → count (has_token t) rows ≤ 1
    → Keeps t 0 rows (apply (revokes id) rows)
unfolding apply revoke
revoke-Keeps t id rows one = elim (Option-cases (find? (λ r. r.id == id) rows)) [
  | inl e ↦ rw (e, revoke, apply) (one, omega arith)
  | inr (i, e) ↦ elim (Bool-cases (is_used i)) [
    | inl old ↦ rw (e, revoke, apply, old) (one, omega arith)
    | inr unused ↦
        rw (e, revoke, apply, unused)
          (
            omega (arith, delete_row-count t id rows),
            omega (arith, delete_row-used t id rows i e unused),
          )
  ]
]

apply-Keeps :
    (t : Text) (op : Op) (rows : List Invite)
    → count (has_token t) rows ≤ 1
    → Keeps t (grant t op rows) rows (apply op rows)
apply-Keeps t (creates now day id token user ttl) rows one =
    create-Keeps t now day id token user ttl rows one
apply-Keeps t (redeems now token user) rows one = redeem-Keeps t now token user rows one
apply-Keeps t (revokes id) rows one = revoke-Keeps t id rows one

-- Over any calls, in any order, a token is redeemed at most once, and not at all if its invite was
-- used to begin with. The token has at most one row at the start.
pub grants-le :
    (t : Text) (ops : List Op) (rows : List Invite)
    → count (has_token t) rows ≤ 1
    → grants t ops rows + count (used_with t) rows ≤ 1
unfolding grants
grants-le t [] rows one = omega (arith, used-le t rows)
grants-le t (op ∷ ops) rows one =
    let (one', more) = apply-Keeps t op rows one in
    omega (arith, grants-le t ops (apply op rows) one', more)
