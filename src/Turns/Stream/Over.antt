-- ===== src/Turns/Stream/Over.antt =====
-- When `tail` returns: the stream is complete, and the row of the turn has ended.
use codex_server.Base.{
  ℕ, ◌≡◌, refl, sym, ap, ◌∙◌, Bool, true, false, ◌&&◌, List, [], ◌∷◌, ◌++◌, arith, take, All,
  length, length-append, is_nil, ◌<◌,
}
use mathlib.Core.Path.{subst}
use mathlib.Core.List.{append_assoc}
use codex_server.Turns.Stream.{Entry, after, deliver, Streams, Round, tail, read_on}
use codex_server.Turns.Stream.Deliver.{
  after-split, split-at, Increasing, UpTo, response-take, deliver-IsPart, deliver-shrinks,
}
use codex_server.Turns.Stream.Tail.{IsSeen, IsThere, UpTo-append}

over-pick :
    (f g : Bool) (sent : List Entry) (rest : List Entry × Bool)
    → rest.1 ≡ true
    → (read_on f g sent rest).1 ≡ true
over-pick true g sent rest h = refl
over-pick false true sent rest h = refl
over-pick false false sent rest h = h

module _ (streams : Streams) where
  open streams use {entries, xread, xread_law}

  -- The row of the turn has ended.
  abbrev pub IsEnded : List (Round streams) → Type 0
  IsEnded = All (λ r. r.ended ≡ true)

  -- With the whole stream there and the row ended, one round more than there are entries left.
  over-there :
      (rounds : List (Round streams)) (c : ℕ) (old new : List Entry)
      → IsThere streams (old ++ new) rounds
      → IsEnded rounds
      → UpTo c old
      → Increasing c new
      → length new < length rounds
      → (tail streams rounds c).1 ≡ true
  unfolding tail deliver
  over-there [] c old new s d u h l = let none_left : ⊥ = omega arith in absurd none_left
  over-there (r ∷ rounds) c old [] (here, s) (done, d) u h l =
      subst
        (λ resp.
          (read_on (deliver resp c).final (is_nil resp && r.ended) (deliver resp c).sent
            (tail streams rounds (deliver resp c).cursor)).1
          ≡ true)
        (sym (
          xread_law c 64 r.stream
          ∙ (ap (λ x. take 64 (after c x)) here ∙ ap (take 64) (after-split c old [] u h))))
        (ground (arith, done))
  over-there (r ∷ rounds) c old (e ∷ new) (here, s) (done, d) u h l =
      let all_new = e ∷ new in
      let p = deliver-IsPart 64 c all_new h in
      let b = deliver (take 64 all_new) c in
      let later : (tail streams rounds b.cursor).1 ≡ true =
        over-there rounds b.cursor (old ++ b.sent) p.left
          (subst (λ x. IsThere streams x rounds)
            (ap (λ x. old ++ x) p.whole ∙ sym (append_assoc old b.sent p.left)) s)
          d (UpTo-append c b.cursor old b.sent p.from u p.low) p.up
          (omega (
            arith,
            ap length p.whole,
            length-append b.sent p.left,
            deliver-shrinks 63 c e new,
            l,
          )) in
      subst
        (λ resp.
          (read_on (deliver resp c).final (is_nil resp && r.ended) (deliver resp c).sent
            (tail streams rounds (deliver resp c).cursor)).1
          ≡ true)
        (sym (
          xread_law c 64 r.stream
          ∙ (ap (λ x. take 64 (after c x)) here ∙ ap (take 64) (after-split c old all_new u h))))
        (over-pick b.final (is_nil (take 64 all_new) && r.ended) b.sent
          (tail streams rounds b.cursor) later)

  -- The same behind rounds that saw parts of the stream.
  over-seen :
      (early late : List (Round streams)) (c : ℕ) (old new : List Entry)
      → IsSeen streams (old ++ new) early
      → IsThere streams (old ++ new) late
      → IsEnded late
      → UpTo c old
      → Increasing c new
      → length new < length late
      → (tail streams (early ++ late) c).1 ≡ true
  unfolding tail
  over-seen [] late c old new s t d u h l = over-there late c old new t d u h l
  over-seen (r ∷ early) late c old new ((n, e), s) t d u h l =
      let (k, q) = response-take n c old new u h in
      let p = deliver-IsPart k c new h in
      let b = deliver (take k new) c in
      let same : old ++ new ≡ (old ++ b.sent) ++ p.left =
        ap (λ x. old ++ x) p.whole ∙ sym (append_assoc old b.sent p.left) in
      let later : (tail streams (early ++ late) b.cursor).1 ≡ true =
        over-seen early late b.cursor (old ++ b.sent) p.left
          (subst (λ x. IsSeen streams x early) same s) (subst (λ x. IsThere streams x late) same t)
          d (UpTo-append c b.cursor old b.sent p.from u p.low) p.up
          (omega (arith, ap length p.whole, length-append b.sent p.left, l)) in
      subst
        (λ resp.
          (read_on (deliver resp c).final (is_nil resp && r.ended) (deliver resp c).sent
            (tail streams (early ++ late) (deliver resp c).cursor)).1
          ≡ true)
        (sym (xread_law c 64 r.stream ∙ (ap (λ x. take 64 (after c x)) e ∙ q)))
        (over-pick b.final (is_nil (take k new) && r.ended) b.sent
          (tail streams (early ++ late) b.cursor) later)

  -- The ids of the stream go up, the first rounds see some first entries of it, and in the later
  -- ones, of which there are more than entries behind the cursor, the whole stream is there and the
  -- row of the turn has ended or is gone.
  pub record IsCompleted (all : List Entry) (cursor : ℕ) (early late : List (Round streams))
      : Type 0 where
    pub up : Increasing 0 all
    pub seen : IsSeen streams all early
    pub there : IsThere streams all late
    pub ended : IsEnded late
    pub enough : length (after cursor all) < length late

  -- A reader of a stream that is completed, and whose turn has then ended, returns, wherever it began
  -- and whether or not the stream has an entry that ends the turn.
  pub tail-over :
      (all : List Entry) (cursor : ℕ) (early late : List (Round streams))
      → IsCompleted all cursor early late
      → (tail streams (early ++ late) cursor).1 ≡ true
  tail-over all cursor early late c =
      let (old, new, e, u, up) = split-at cursor 0 all c.up in
      over-seen early late cursor old new (subst (λ x. IsSeen streams x early) e c.seen)
        (subst (λ x. IsThere streams x late) e c.there) c.ended u up
        (subst (λ (x : List Entry). length x < length late)
          (ap (after cursor) e ∙ after-split cursor old new u up) c.enough)
