-- ===== src/Turns/Table/Rows.antt =====
-- What an `UPDATE … WHERE` does to counts and look-ups.
use mathlib.Core.Option
use codex_server.Base.{
  ℕ, ◌≤◌, ◌≡◌, refl, Bool, true, some, List, [], ◌∷◌, ◌++◌, arith, if◌then◌else◌, count, find?,
}
use codex_server.Turns.Table.{Turn, update_where, has_id}

-- Rows that pass `q` afterwards passed it before, so an update does not add to them.
pub count-update_where-le :
    (q p : Turn → Bool) (f : Turn → Turn)
    → ((r : Turn) → p r ≡ true → q (f r) ≡ true → q r ≡ true)
    → (rows : List Turn) → count q (update_where p f rows) ≤ count q rows
count-update_where-le q p f h [] = omega arith
count-update_where-le q p f h (r ∷ rows) = ground (arith, h r, count-update_where-le q p f h rows)

-- A look-up by id finds the changed row.
pub find?-update_where :
    (p : Turn → Bool) (f : Turn → Turn)
    → ((r : Turn) → p r ≡ true → (f r).id ≡ r.id)
    → (i : ℕ) (rows : List Turn)
    → find? (has_id i) (update_where p f rows)
      ≡ Option.map (λ r. if p r then f r else r) (find? (has_id i) rows)
find?-update_where p f h i [] = refl
find?-update_where p f h i (r ∷ rows) = ground (arith, h r, find?-update_where p f h i rows)

pub find?-append :
    (q : Turn → Bool) (rows : List Turn) (t r : Turn)
    → find? q rows ≡ some r
    → find? q (rows ++ t ∷ []) ≡ some r
find?-append q [] t r h = cc
find?-append q (x ∷ rows) t r h = ground (arith, find?-append q rows t r)
