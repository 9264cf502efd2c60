-- ===== src/Turns/Runner/Rounds.antt =====
-- The loop over the stream: what decides the status, and what is on the stream at the end.
use mathlib.Core.List.{append-nil, append_assoc}
use codex_server.Base.{
  ℕ, ◌≡◌, refl, Bool, true, false, ◌&&◌, ◌||◌, not, none, some, List, [], ◌∷◌, arith, ◌<◌,
  count-append, count, String, Bool-cases, ◌⊎◌, inl, inr, ◌++◌, map, sym, ◌∙◌, ap,
}
use codex_server.Redis.{Net, fine, not_sent, reply_lost}
use codex_server.Turns.Status.{is_terminal}
use codex_server.Turns.Table.Run.{notes_event}
use codex_server.Turns.Runner.{
  StreamEvent, done, error, other, Fate, delivered, Item, Ending, ends, is_cancelled, raises, Local,
  Output, consume, finish, handle, crashed, absorb_terminal, cancelled_out, background_crashed, Op,
  publish_raises, ownership_failed, expire_raises, note_raises,
}

abbrev pub ends_turn : StreamEvent → Bool
ends_turn (done text) = true
ends_turn (error code detail) = true
ends_turn (other kind) = false

abbrev pub arrives : Fate → Bool
arrives (delivered id) = true
arrives _ = false

-- Something in the stream decides how the turn ends: a final event, a lost ownership, a failure.
abbrev pub decides : List Item → Ending → Bool
decides [] ends = false
decides [] is_cancelled = true
decides [] (raises exc) = true
decides (item ∷ items) ending =
    item.ownership_lost || not (arrives item.fate) || ends_turn item.event || decides items ending

abbrev pub is_settled : Local → Bool
is_settled l = elim l.terminal_status [ none ↦ false | some st ↦ is_terminal st ]

finish-settled :
    (crash : Net) (ending : Ending) (s : Local × Output)
    → is_settled s.0 ≡ true
    → is_settled (finish crash ending s).0 ≡ true
unfolding finish
finish-settled crash ends s h = h
finish-settled crash is_cancelled s h = refl
finish-settled crash (raises exc) s h = refl

handle-settled :
    (id : ℕ) (crash : Net) (item : Item) (s : Local × Output)
    → is_settled s.0 || (item.ownership_lost || not (arrives item.fate) || ends_turn item.event)
      ≡ true
    → is_settled (handle id crash item s).1.0 ≡ true
unfolding handle
handle-settled id crash item s h = ground arith

handle-more :
    (id : ℕ) (crash : Net) (item : Item) (s : Local × Output)
    → (handle id crash item s).0 ≡ not item.ownership_lost && arrives item.fate
unfolding handle
handle-more id crash item s = ground arith

-- If something decides, or has decided, the status at the end is a terminal one.
pub consume-settled :
    (id : ℕ) (crash : Net) (items : List Item) (ending : Ending) (s : Local × Output)
    → is_settled s.0 || decides items ending ≡ true
    → is_settled (consume id crash items ending s).0 ≡ true
unfolding consume
consume-settled id crash [] ends s h = ground (arith, finish-settled crash ends s)
consume-settled id crash [] is_cancelled s h = unfold finish in refl
consume-settled id crash [] (raises exc) s h = unfold finish in refl
consume-settled id crash (item ∷ items) ending s h = ground (
  arith,
  handle-settled id crash item s,
  handle-more id crash item s,
  consume-settled id crash items ending (handle id crash item s).1,
)

-- Nothing in the stream marks a delivery as skipped.
handle-skip :
    (id : ℕ) (crash : Net) (item : Item) (s : Local × Output)
    → (handle id crash item s).1.0.redelivery_skip ≡ s.0.redelivery_skip
unfolding handle
handle-skip id crash item s = ground arith

pub consume-skip :
    (id : ℕ) (crash : Net) (items : List Item) (ending : Ending) (s : Local × Output)
    → (consume id crash items ending s).0.redelivery_skip ≡ s.0.redelivery_skip
unfolding consume
consume-skip id crash [] ends s = unfold finish in refl
consume-skip id crash [] is_cancelled s = unfold finish in refl
consume-skip id crash [] (raises exc) s = unfold finish in refl
consume-skip id crash (item ∷ items) ending s = ground (
  arith,
  handle-skip id crash item s,
  consume-skip id crash items ending (handle id crash item s).1,
)

-- A final event that was published is on the stream.
abbrev pub IsHonest : Local × Output → Type 0
IsHonest (l, out) = l.terminal_published ≡ true → 0 < count ends_turn out.stream

crashed-IsHonest :
    (crash : Net) (exc : String) (s : Local × Output) → IsHonest s → IsHonest (crashed crash exc s)
unfolding crashed
crashed-IsHonest not_sent exc s h = h
crashed-IsHonest fine exc s h = λ _. omega (
  arith,
  count-append ends_turn s.1.stream (error "codex_error" (some (background_crashed exc)) ∷ []),
)
crashed-IsHonest reply_lost exc s h = λ p. omega (
  arith,
  h p,
  count-append ends_turn s.1.stream (error "codex_error" (some (background_crashed exc)) ∷ []),
)

published-IsHonest :
    (event : StreamEvent) (l : Local) (out : Output)
    → IsHonest (l, out)
    → IsHonest (l, record out { stream = out.stream ++ event ∷ [] })
published-IsHonest event l out h =
    λ p. omega (arith, h p, count-append ends_turn out.stream (event ∷ []))

absorb-IsHonest :
    (event : StreamEvent) (l : Local) (out : Output) (notes : List Op)
    → IsHonest (l, out)
    → IsHonest
        (absorb_terminal event l, record out { stream = out.stream ++ event ∷ []; notes = notes })
unfolding absorb_terminal
absorb-IsHonest (done text) l out notes h =
    λ _. omega (arith, count-append ends_turn out.stream (done text ∷ []))
absorb-IsHonest (error code detail) l out notes h =
    λ _. omega (arith, count-append ends_turn out.stream (error code detail ∷ []))
absorb-IsHonest (other kind) l out notes h =
    λ p. omega (arith, h p, count-append ends_turn out.stream (other kind ∷ []))

pub Fate-cases :
    (f : Fate)
    → ((id : String) × (f ≡ delivered id))
      ⊎ ((exc : String) × (f ≡ publish_raises exc))
      ⊎ ((exc : String) × (f ≡ expire_raises exc))
      ⊎ ((exc : String) × (f ≡ note_raises exc))
Fate-cases (delivered id) = inl (id, refl)
Fate-cases (publish_raises exc) = inr (inl (exc, refl))
Fate-cases (expire_raises exc) = inr (inr (inl (exc, refl)))
Fate-cases (note_raises exc) = inr (inr (inr (exc, refl)))

handle-IsHonest :
    (id : ℕ) (crash : Net) (item : Item) (s : Local × Output)
    → IsHonest s
    → IsHonest (handle id crash item s).1
unfolding handle
handle-IsHonest id crash item (l, out) h = elim (Bool-cases item.ownership_lost) [
  | inl lost ↦ rw (lost, handle) (unfold ownership_failed in h)
  | inr held ↦ elim (Fate-cases item.fate) [
    | inl (event_id, e) ↦
        rw (held, e, handle)
          (absorb-IsHonest item.event l out (out.notes ++ notes_event id event_id ∷ []) h)
    | inr (inl (exc, e)) ↦ rw (held, e, handle) (crashed-IsHonest crash exc (l, out) h)
    | inr (inr (inl (exc, e))) ↦
        rw (held, e, handle)
          (crashed-IsHonest crash exc (l, record out { stream = out.stream ++ item.event ∷ [] })
            (published-IsHonest item.event l out h))
    | inr (inr (inr (exc, e))) ↦
        rw (held, e, handle)
          (crashed-IsHonest crash exc (l, record out { stream = out.stream ++ item.event ∷ [] })
            (published-IsHonest item.event l out h))
  ]
]

finish-IsHonest :
    (crash : Net) (ending : Ending) (s : Local × Output)
    → IsHonest s
    → IsHonest (finish crash ending s)
unfolding finish cancelled_out
finish-IsHonest crash ends s h = h
finish-IsHonest crash is_cancelled s h = h
finish-IsHonest crash (raises exc) s h = crashed-IsHonest crash exc s h

pub consume-IsHonest :
    (id : ℕ) (crash : Net) (items : List Item) (ending : Ending) (s : Local × Output)
    → IsHonest s
    → IsHonest (consume id crash items ending s)
unfolding consume
consume-IsHonest id crash [] ending s h = finish-IsHonest crash ending s h
consume-IsHonest id crash (item ∷ items) ending s h = elim (Bool-cases (handle id crash item s).0) [
  | inl more ↦
      rw (more, consume)
        (consume-IsHonest id crash items ending (handle id crash item s).1
          (handle-IsHonest id crash item s h))
  | inr stop ↦ rw (stop, consume) (handle-IsHonest id crash item s h)
]

-- Only a cancellation of the stream makes the delivery a cancelled one.
handle-cancelled :
    (id : ℕ) (crash : Net) (item : Item) (s : Local × Output)
    → (handle id crash item s).1.0.was_cancelled ≡ s.0.was_cancelled
unfolding handle
handle-cancelled id crash item s = ground arith

abbrev pub cancels : Ending → Bool
cancels is_cancelled = true
cancels _ = false

pub consume-cancelled :
    (id : ℕ) (crash : Net) (items : List Item) (ending : Ending) (s : Local × Output)
    → cancels ending ≡ false
    → (consume id crash items ending s).0.was_cancelled ≡ s.0.was_cancelled
unfolding consume
consume-cancelled id crash [] ends s h = unfold finish in refl
consume-cancelled id crash [] is_cancelled s h = cc
consume-cancelled id crash [] (raises exc) s h = unfold finish in refl
consume-cancelled id crash (item ∷ items) ending s h = ground (
  arith,
  handle-cancelled id crash item s,
  consume-cancelled id crash items ending (handle id crash item s).1,
)

absorb-other :
    (event : StreamEvent) (l : Local) → ends_turn event ≡ false → absorb_terminal event l ≡ l
unfolding absorb_terminal
absorb-other (done text) l h = cc
absorb-other (error code detail) l h = cc
absorb-other (other kind) l h = refl

handle-quiet :
    (id : ℕ) (crash : Net) (item : Item) (s : Local × Output)
    → item.ownership_lost || not (arrives item.fate) || ends_turn item.event ≡ false
    → ((handle id crash item s).0 ≡ true)
      × ((handle id crash item s).1.0 ≡ s.0)
      × ((handle id crash item s).1.1.stream ≡ s.1.stream ++ item.event ∷ [])
unfolding handle
handle-quiet id crash item s h =
    (ground arith, ground (arith, absorb-other item.event s.0), ground arith)

-- If nothing decides, the call goes through the whole stream with no status.
pub consume-undecided :
    (id : ℕ) (crash : Net) (items : List Item) (ending : Ending) (s : Local × Output)
    → decides items ending ≡ false
    → ((consume id crash items ending s).0 ≡ s.0)
      × ((consume id crash items ending s).1.stream ≡ s.1.stream ++ map (λ i. i.event) items)
unfolding consume
consume-undecided id crash [] ends s h = unfold finish in (refl, sym (append-nil s.1.stream))
consume-undecided id crash [] is_cancelled s h = cc
consume-undecided id crash [] (raises exc) s h = cc
consume-undecided id crash (item ∷ items) ending s h =
    let (more, same, grown) = handle-quiet id crash item s (ground arith) in
    let (same', grown') =
      consume-undecided id crash items ending (handle id crash item s).1 (ground arith) in
    (
      rw (more, consume) (same' ∙ same),
      rw (more, consume)
          (grown'
            ∙ ap (λ out. out ++ map (λ i. i.event) items) grown
            ∙ append_assoc s.1.stream (item.event ∷ []) (map (λ i. i.event) items)),
    )
