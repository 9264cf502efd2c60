-- ===== src/Tests/Accounts.antt =====
-- An invite that two users try, and an address that keeps failing.
use codex_server.Base.{◌≤◌, ◌+◌, none, [], ◌∷◌, arith, count}
use codex_server.Base.Text.{codes}
use codex_server.Invites.{Invite}
use codex_server.Invites.Once.{redeems, revokes, grants, used_with, grants-le}

abbrev invite : Invite
invite = record {
  id = 1;
  token = codes "abc";
  created_by_user_id = 1;
  created_at = 0;
  expires_at = 100;
  used_at = none;
  used_by_user_id = none;
}

grants-le_example :
    grants
        (codes "abc")
        (redeems 50 (codes "abc") 2 ∷ redeems 51 (codes "abc") 3 ∷ revokes 1 ∷ [])
        (invite ∷ [])
      + count (used_with (codes "abc")) (invite ∷ [])
    ≤ 1
grants-le_example =
    grants-le (codes "abc")
      (redeems 50 (codes "abc") 2 ∷ redeems 51 (codes "abc") 3 ∷ revokes 1 ∷ []) (invite ∷ [])
      (omega arith)
