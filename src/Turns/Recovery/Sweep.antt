-- ===== src/Turns/Recovery/Sweep.antt =====
-- The sweep: it ends exactly the turns that are stale, and their locks are free of them.
use mathlib.Core.Option
use codex_server.Base.{
  ℕ, ◌≤◌, ◌≡◌, refl, ap, ◌∙◌, Bool, true, false, ◌&&◌, ◌||◌, ==_iff, some, List, [], ◌∷◌, arith,
  if◌then◌else◌, ltb, count, find?, find?-some, filter, All, ◌==◌,
}
use codex_server.Base.Text.{Text, text_eq_refl}
use codex_server.Base.Text.Decimal.{str}
use codex_server.Redis.{Redis, Net, fine, not_sent, reply_lost, holds}
use codex_server.Turns.Status.{failed, is_active}
use codex_server.Turns.Table.{
  Turn, Session, finalize_once, finalized, has_id, active_with, is_stale, find_stale_active,
  update_where, publish_after_commit,
}
use codex_server.Turns.Table.Rows.{find?-update_where}
use codex_server.Turns.Table.Run.{Store, begin}
use codex_server.Turns.Locks.{active_key, release_active}
use codex_server.Turns.Recovery.{
  stale_threshold, fail_with, finalize_orphan, finalize_each, reconcile_stale_turns,
}

pub fail_with-rows :
    (now i : ℕ) (code detail : _) (s : Session)
    → (fail_with now i code detail s).rows
      ≡ update_where (active_with i) (finalized now failed (some code) (some detail)) s.rows
unfolding finalize_once publish_after_commit
fail_with-rows now i code detail s = ground arith

abbrev orphaned : (now : ℕ) → Bool → Turn → Turn
orphaned now hit r =
    if hit && is_active r.status
    then finalized now failed (some "orphan_heartbeat") (some "no heartbeat for >120.0s") r
    else r

orphaned_again :
    (now i : ℕ) (hit : Bool) (t r : Turn)
    → r.id == i ≡ true
    → orphaned now hit (
        if active_with t.id r
        then finalized now failed (some "orphan_heartbeat") (some "no heartbeat for >120.0s") r
        else r)
      ≡ orphaned now ((t.id == i) || hit) r
orphaned_again now i hit t r h = ground (arith, ==_iff r.id i, ==_iff r.id t.id, ==_iff t.id i)

-- A row among those that a test keeps.
count-filter-le : (p q : Turn → Bool) (rows : List Turn) → count p (filter q rows) ≤ count p rows
count-filter-le p q [] = omega arith
count-filter-le p q (r ∷ rows) = ground (arith, count-filter-le p q rows)

kept_iff :
    (q : Turn → Bool) (i : ℕ) (rows : List Turn) (r : Turn)
    → find? (has_id i) rows ≡ some r
    → count (has_id i) rows ≤ 1
    → ltb 0 (count (has_id i) (filter q rows)) ≡ q r
kept_iff q i [] r h one = cc
kept_iff q i (t ∷ rows) r h one =
    ground (arith, kept_iff q i rows r, count-filter-le (has_id i) q rows)

hit_cons :
    (i : ℕ) (t : Turn) (ts : List Turn)
    → (t.id == i) || ltb 0 (count (has_id i) ts) ≡ ltb 0 (count (has_id i) (t ∷ ts))
hit_cons i t ts = ground arith

module _ (redis : Redis) where
  open redis use {Store as Keys, get, delex_ifeq, get-delex_ifeq}

  each-lookup :
      (net : ℕ → Net) (now i : ℕ) (ts : List Turn) (s : Session) (keys : Keys) (r : Turn)
      → find? (has_id i) s.rows ≡ some r
      → find? (has_id i) (finalize_each redis net now ts (s, keys)).0.rows
        ≡ some (orphaned now (ltb 0 (count (has_id i) ts)) r)
  unfolding finalize_each finalize_orphan
  each-lookup net now i [] s keys r h = h
  each-lookup net now i (t ∷ ts) s keys r h =
      let f = finalized now failed (some "orphan_heartbeat") (some "no heartbeat for >120.0s") in
      let s' = fail_with now t.id "orphan_heartbeat" "no heartbeat for >120.0s" s in
      each-lookup net now i ts s' (release_active redis (net t.id) t.chat_id t.id keys).1
        (if active_with t.id r then f r else r)
        (ap (find? (has_id i)) (fail_with-rows now t.id _ _ s)
          ∙ find?-update_where (active_with t.id) f (λ x y. refl) i s.rows
          ∙ ap (Option.map (λ x. if active_with t.id x then f x else x)) h)
      ∙ ap some (
          orphaned_again now i (ltb 0 (count (has_id i) ts)) t r (find?-some (has_id i) s.rows r h)
          ∙ ap (λ hit. orphaned now hit r) (hit_cons i t ts))

  abbrev pub IsFreed : Keys → Turn → Type 0
  IsFreed keys t = holds (get (active_key t.chat_id) keys) (str t.id) ≡ false

  delex-IsFreed :
      (t : Turn) (k w : Text) (keys : Keys) → IsFreed keys t → IsFreed (delex_ifeq k w keys).1 t
  delex-IsFreed t k w keys e = ground (arith, get-delex_ifeq k w keys (active_key t.chat_id))

  pub IsFreed-stays :
      (net : Net) (t u : Turn) (keys : Keys)
      → IsFreed keys t
      → IsFreed (release_active redis net u.chat_id u.id keys).1 t
  unfolding release_active
  IsFreed-stays fine t u keys e = delex-IsFreed t (active_key u.chat_id) (str u.id) keys e
  IsFreed-stays not_sent t u keys e = e
  IsFreed-stays reply_lost t u keys e = delex-IsFreed t (active_key u.chat_id) (str u.id) keys e

  pub IsFreed-now :
      (t : Turn) (keys : Keys) → IsFreed (release_active redis fine t.chat_id t.id keys).1 t
  unfolding release_active
  IsFreed-now t keys =
      let k = active_key t.chat_id in
      ground (arith, get-delex_ifeq k (str t.id) keys k, text_eq_refl k)

  each-stays :
      (t : Turn) (now : ℕ) (ts : List Turn) (s : Session) (keys : Keys)
      → IsFreed keys t
      → IsFreed (finalize_each redis (λ _. fine) now ts (s, keys)).1 t
  unfolding finalize_each finalize_orphan
  each-stays t now [] s keys e = e
  each-stays t now (u ∷ ts) s keys e = each-stays t now ts _ _ (IsFreed-stays fine t u keys e)

  each-IsFreed :
      (now : ℕ) (ts : List Turn) (s : Session) (keys : Keys)
      → All (IsFreed (finalize_each redis (λ _. fine) now ts (s, keys)).1) ts
  unfolding finalize_each finalize_orphan
  each-IsFreed now [] s keys = tt
  each-IsFreed now (u ∷ ts) s keys =
      (each-stays u now ts _ _ (IsFreed-now u keys), each-IsFreed now ts _ _)

  -- The sweep takes a turn that is on the table once to FAILED with `orphan_heartbeat` if it is
  -- active and without heartbeat for more than two minutes, and leaves it as it is otherwise,
  -- whatever becomes of the calls to Redis.
  pub reconcile_stale_turns_lem :
      (net : ℕ → Net) (now i : ℕ) (table : Store) (keys : Keys) (r : Turn)
      → find? (has_id i) table.rows ≡ some r
      → count (has_id i) table.rows ≤ 1
      → find? (has_id i) (reconcile_stale_turns redis net now (table, keys)).1.0.rows
        ≡ some (
            if is_stale now stale_threshold r
            then finalized now failed (some "orphan_heartbeat") (some "no heartbeat for >120.0s") r
            else r)
  unfolding reconcile_stale_turns find_stale_active
  reconcile_stale_turns_lem net now i table keys r h one =
      let stale = filter (is_stale now stale_threshold) table.rows in
      each-lookup net now i stale (begin table) keys r h
      ∙ ap some (
          ap (λ hit. orphaned now hit r)
            (kept_iff (is_stale now stale_threshold) i table.rows r h one)
          ∙ ground arith)

  -- If Redis answers, no turn that the sweep found stale is the value of its chat's lock any more.
  pub reconcile_stale_turns-IsFreed :
      (now : ℕ) (table : Store) (keys : Keys)
      → All
          (IsFreed (reconcile_stale_turns redis (λ _. fine) now (table, keys)).1.1)
          (find_stale_active now stale_threshold table.rows)
  unfolding reconcile_stale_turns
  reconcile_stale_turns-IsFreed now table keys =
      each-IsFreed now (find_stale_active now stale_threshold table.rows) (begin table) keys
