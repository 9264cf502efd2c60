-- ===== src/Turns/Recovery/Cases.antt =====
-- One turn: the caller's check, and the lease that ran out.
use codex_server.Base.{
  ◌⊎◌, inl, inr, Bool-cases, Option-cases, find?-some, eq_refl, ℕ, ◌+◌, ◌≤◌, ◌<◌, ◌≡◌, refl, ap,
  ◌∙◌, Bool, true, false, none, some, List, [], ◌∷◌, arith, ltb, count, find?,
}
use codex_server.Redis.{Redis, Net, fine}
use codex_server.Turns.Status.{failed, is_active}
use codex_server.Turns.Table.{Turn, finalized, has_id, active_with, update_where, get_by_id}
use codex_server.Turns.Table.Rows.{find?-update_where}
use codex_server.Turns.Table.Run.{Store, begin}
use codex_server.Turns.Recovery.{
  stale_threshold, finalize_orphan, reconcile_if_stale, finalize_lease_expired,
}
use codex_server.Turns.Recovery.Sweep.{fail_with-rows, IsFreed, IsFreed-now}

update_where-none :
    (p : Turn → Bool) (f : Turn → Turn) (rows : List Turn)
    → count p rows ≡ 0
    → update_where p f rows ≡ rows
update_where-none p f [] h = refl
update_where-none p f (r ∷ rows) h = ground (arith, update_where-none p f rows)

failed-active :
    (now i : ℕ) (code detail : _) (rows : List Turn)
    → count
        (active_with i)
        (update_where (active_with i) (finalized now failed (some code) (some detail)) rows)
      ≡ 0
failed-active now i code detail [] = refl
failed-active now i code detail (r ∷ rows) = ground (arith, failed-active now i code detail rows)

module _ (redis : Redis) where
  open redis use {Store as Keys, get}

  -- With Redis at hand, the caller's check answers True exactly if the row it is given has been
  -- without heartbeat for two minutes or more. It then leaves no active row of that turn, even if
  -- the row on the table has a newer heartbeat, and the turn is not the value of its chat's lock
  -- any more; else it does nothing.
  pub reconcile_if_stale_lem :
      (now : ℕ) (turn : Turn) (table : Store) (keys : Keys)
      → let (answer, w) = reconcile_if_stale redis fine now turn (table, keys) in
        ((now < turn.heartbeat_at + stale_threshold) × (answer ≡ false) × (w ≡ (table, keys)))
        ⊎ ((turn.heartbeat_at + stale_threshold ≤ now)
            × (answer ≡ true)
            × (count (active_with turn.id) w.0.rows ≡ 0)
            × IsFreed redis w.1 turn)
  unfolding reconcile_if_stale finalize_orphan
  reconcile_if_stale_lem now turn table keys =
      elim (Bool-cases (ltb now (turn.heartbeat_at + stale_threshold))) [
        | inl young ↦ inl (ground arith, rw young refl, rw young refl)
        | inr old ↦ inr (
          ground arith,
          rw old refl,
          rw old (
              ap (count (active_with turn.id)) (fail_with-rows now turn.id _ _ (begin table))
              ∙ failed-active now turn.id _ _ table.rows),
          rw old (IsFreed-now redis turn keys),
        )
      ]

  -- For a turn that has ended in the meantime, the check of an old row still answers True, and
  -- changes no row.
  pub reconcile_if_stale-late :
      (net : Net) (now : ℕ) (turn : Turn) (table : Store) (keys : Keys)
      → turn.heartbeat_at + stale_threshold ≤ now
      → count (active_with turn.id) table.rows ≡ 0
      → ((reconcile_if_stale redis net now turn (table, keys)).0 ≡ true)
        × ((reconcile_if_stale redis net now turn (table, keys)).1.0.rows ≡ table.rows)
  unfolding reconcile_if_stale finalize_orphan
  reconcile_if_stale-late net now turn table keys old ended =
      let e : ltb now (turn.heartbeat_at + stale_threshold) ≡ false = ground arith in
      (
        rw e refl,
        rw e (
            fail_with-rows now turn.id _ _ (begin table)
            ∙ update_where-none (active_with turn.id) _ table.rows ended),
      )

  -- With Redis at hand, a lease that ran out takes its turn to FAILED with `lease_expired`, if the
  -- turn is active, and takes the turn out of its chat's lock; of a turn that has ended, or is
  -- unknown, it changes nothing.
  pub finalize_lease_expired_lem :
      (now i : ℕ) (table : Store) (keys : Keys)
      → let w = finalize_lease_expired redis fine now i (table, keys) in
        ((get_by_id i table.rows ≡ none) × (w ≡ (table, keys)))
        ⊎ ((r : Turn) × (get_by_id i table.rows ≡ some r)
            × (is_active r.status ≡ false)
            × (w ≡ (table, keys)))
        ⊎ ((r : Turn) × (get_by_id i table.rows ≡ some r)
            × (is_active r.status ≡ true)
            × (get_by_id i w.0.rows
                ≡ some (
                    finalized now failed
                      (some "lease_expired")
                      (some "worker lease expired without release")
                      r))
            × IsFreed redis w.1 r)
  unfolding finalize_lease_expired get_by_id
  finalize_lease_expired_lem now i table keys = elim (Option-cases (find? (has_id i) table.rows)) [
    | inl e ↦ inl (e, rw (e, finalize_lease_expired) refl)
    | inr (r, e) ↦ elim (Bool-cases (is_active r.status)) [
      | inr ended ↦ inr (inl (r, e, ended, rw (e, finalize_lease_expired, ended) refl))
      | inl live ↦ inr (
          inr (
            r,
            e,
            live,
            rw (e, finalize_lease_expired, live)
                (ap (find? (has_id i)) (fail_with-rows now r.id _ _ (begin table))
                  ∙ find?-update_where (active_with r.id) _ (λ x y. refl) i table.rows
                  ∙ ground (arith, e, live, find?-some (has_id i) table.rows r e, eq_refl r.id)),
            rw (e, finalize_lease_expired, live) (IsFreed-now redis r keys),
          ))
    ]
  ]
