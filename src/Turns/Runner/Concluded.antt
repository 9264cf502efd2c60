-- ===== src/Turns/Runner/Concluded.antt =====
-- What the `finally` statement of a delivery leaves behind.
use codex_server.Base.{
  suc, ◌≡◌, refl, true, false, Option, none, some, [], ◌∷◌, ◌++◌, arith, String, count, ◌<◌,
  Option-cases, Bool-cases, inl, inr, count-append,
}
use codex_server.Redis.{Redis}
use codex_server.Turns.Status.{TurnStatus, starting, running, completed, failed, cancelled}
use codex_server.Turns.Table.{active_with}
use codex_server.Turns.Table.Once.{finalize-clears}
use codex_server.Turns.Table.Run.{run}
use codex_server.Turns.Runner.{Delivery, build_terminal_event, World, conclude, Local, Output}
use codex_server.Turns.Runner.Delivered.{IsFinalized}
use codex_server.Turns.Runner.Rounds.{ends_turn, is_settled, IsHonest}

build-ends :
    (st : Option TurnStatus) (e : Option String × Option String)
    → ends_turn (build_terminal_event st e) ≡ true
unfolding build_terminal_event
build-ends none e = refl
build-ends (some completed) e = refl
build-ends (some starting) e = refl
build-ends (some running) e = refl
build-ends (some failed) e = refl
build-ends (some cancelled) e = refl

module _ (redis : Redis) where
  pub conclude-settles :
      (d : Delivery) (s : Local × Output) (w : World redis)
      → IsFinalized d
      → is_settled s.0 ≡ true
      → s.0.redelivery_skip ≡ false
      → (count (active_with d.turn_id) (conclude redis d s w).table.rows ≡ 0)
        × ((conclude redis d s w).slots_released ≡ suc w.slots_released)
  unfolding conclude
  conclude-settles d (l, out) w z settled own = elim (Option-cases l.terminal_status) [
    | inl e ↦ ground (arith, e)
    | inr (st, e) ↦ (
      rw (e, own, z.finalization)
          (finalize-clears d.now d.turn_id st l.terminal_error.0 l.terminal_error.1
            (run (out.notes ++ d.meanwhile) w.table) (ground (arith, e))),
      rw (e, own, z.finalization, z.slot_release) refl,
    )
  ]

  pub conclude-ends :
      (d : Delivery) (s : Local × Output) (w : World redis)
      → IsHonest s
      → s.0.was_cancelled ≡ false
      → s.0.redelivery_skip ≡ false
      → d.last_published ≡ true
      → count ends_turn w.stream < count ends_turn (conclude redis d s w).stream
  unfolding conclude
  conclude-ends d (l, out) w honest going own sent =
      let last = build_terminal_event l.terminal_status l.terminal_error in
      elim (Bool-cases l.terminal_published) [
        | inl published ↦
            rw (published)
              (omega (arith, honest published, count-append ends_turn w.stream out.stream))
        | inr missing ↦
            rw (missing, going, own, sent)
              (ground (
                arith,
                build-ends l.terminal_status l.terminal_error,
                count-append ends_turn w.stream (out.stream ++ last ∷ []),
                count-append ends_turn out.stream (last ∷ []),
              ))
      ]
