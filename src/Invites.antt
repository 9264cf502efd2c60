-- ===== src/Invites.antt =====
-- app/services/invites/service.py over the `invites` table (app/models/invite.py), a list of rows.
-- `redeem` holds its row to the end of the transaction, so it is one step. Times are numbers of one
-- unit; the token comes from `secrets`.
pub mod Once
use codex_server.Base.{
  ℕ, ◌+◌, ◌*◌, Bool, true, false, ◌&&◌, ◌||◌, not, Option, none, some, List, [], ◌∷◌, ◌++◌, map,
  if◌then◌else◌, leb, ltb, ◌==◌, is_some, count, find?, filter,
}
use codex_server.Base.Text.{Text, text_eq}

pub record Invite : Type 0 where
  pub id : ℕ
  pub token : Text
  pub created_by_user_id : ℕ
  pub created_at : ℕ
  pub expires_at : ℕ
  pub used_at : Option ℕ
  pub used_by_user_id : Option ℕ

pub data InviteError : Type 0 where
  not_found used expired : InviteError

abbrev pub default_ttl_days : ℕ
default_ttl_days = 7

abbrev pub max_ttl_days : ℕ
max_ttl_days = 30

abbrev pub days_of : ℕ → ℕ
days_of ttl_days =
    if ltb 0 ttl_days && leb ttl_days max_ttl_days then ttl_days else default_ttl_days

abbrev pub has_token : Text → Invite → Bool
has_token t i = text_eq i.token t

abbrev pub is_used : Invite → Bool
is_used i = is_some i.used_at

abbrev pub new_invite : (now day id : ℕ) → Text → (user ttl_days : ℕ) → Invite
new_invite now day id token user ttl_days = record {
  id = id;
  token = token;
  created_by_user_id = user;
  created_at = now;
  expires_at = now + days_of ttl_days * day;
  used_at = none;
  used_by_user_id = none;
}

-- `none` is the `IntegrityError` of the unique token. `day` is the length of a day.
pub create : (now day id : ℕ) → Text → (user ttl_days : ℕ) → List Invite → Option (List Invite)
create now day id token user ttl_days rows =
    if ltb 0 (count (has_token token) rows)
    then none
    else some (rows ++ new_invite now day id token user ttl_days ∷ [])

abbrev pub redeemed : (now user : ℕ) → Invite → Invite
redeemed now user i = record i { used_at = some now; used_by_user_id = some user }

abbrev pub taken : (now : ℕ) → Text → (user : ℕ) → Invite → Invite
taken now token user i = if has_token token i then redeemed now user i else i

pub data Reply : Type 0 where
  granted : Invite → Reply
  refused : InviteError → Reply

pub redeem : (now : ℕ) → Text → (user : ℕ) → List Invite → Reply × List Invite
redeem now token user rows = elim (find? (has_token token) rows) [
  | none ↦ (refused not_found, rows)
  | some i ↦
      if is_used i
      then (refused used, rows)
      else if leb i.expires_at now
      then (refused expired, rows)
      else (granted (redeemed now user i), map (taken now token user) rows)
]

-- The row of a primary key is taken out.
abbrev pub delete_row : ℕ → List Invite → List Invite
delete_row id [] = []
delete_row id (r ∷ rows) = let rest = delete_row id rows in if r.id == id then rows else r ∷ rest

pub revoke : ℕ → List Invite → Bool × List Invite
revoke id rows = elim (find? (λ i. i.id == id) rows) [
  | none ↦ (false, rows)
  | some i ↦ if is_used i then (false, rows) else (true, delete_row id rows)
]

-- `order_by(Invite.created_at.desc())`; rows of one time stay in the order of the table.
abbrev pub insert_newest : Invite → List Invite → List Invite
insert_newest i [] = i ∷ []
insert_newest i (j ∷ js) =
    let rest = insert_newest i js in
    if leb j.created_at i.created_at then i ∷ (j ∷ js) else j ∷ rest

abbrev pub newest_first : List Invite → List Invite
newest_first [] = []
newest_first (i ∷ is) = insert_newest i (newest_first is)

pub list_active : ℕ → List Invite → List Invite
list_active now rows = newest_first (filter (λ i. not (is_used i) && ltb now i.expires_at) rows)
