-- ===== src/Turns/Stream/Tail.antt =====
-- A reader of a turn's stream misses nothing, sees nothing twice, and comes to the end.
use codex_server.Base.{
  ℕ, ◌≤◌, ◌≡◌, refl, sym, ap, ◌∙◌, Bool, true, false, ◌&&◌, List, [], ◌∷◌, ◌++◌, arith, take, All,
  length, length-append, is_nil,
}
use mathlib.Core.Path.{subst}
use mathlib.Core.List.{append_assoc, append-nil}
use codex_server.Turns.Stream.{Entry, after, Batch, deliver, Streams, Round, tail, read_on}
use codex_server.Turns.Stream.Deliver.{
  after-split, split-at, Increasing, UpTo, upto_final, has_final, response-take, IsPart,
  deliver-IsPart, deliver-shrinks,
}

pub UpTo-append :
    (c d : ℕ) (old sent : List Entry) → c ≤ d → UpTo c old → UpTo d sent → UpTo d (old ++ sent)
UpTo-append c d [] sent l h k = k
UpTo-append c d (e ∷ old) sent l (h, hs) k = (omega arith, UpTo-append c d old sent l hs k)

-- What one round makes of a batch and of the rounds behind it.
pick-from :
    (f g : Bool) (b : Batch) (c : ℕ) (new : List Entry) (rest : List Entry × Bool)
    (p : IsPart b c new)
    → b.final ≡ f
    → (left : List Entry) × (upto_final p.left ≡ rest.0 ++ left)
    → (left : List Entry) × (upto_final new ≡ (read_on f g b.sent rest).0 ++ left)
pick-from true g b c new rest p e q = ([], p.ends e ∙ sym (append-nil b.sent))
pick-from false true b c new rest p e q = (upto_final new, refl)
pick-from false false b c new rest p e (left, q) =
    (left, p.goes_on e ∙ (ap (λ x. b.sent ++ x) q ∙ sym (append_assoc b.sent rest.0 left)))

module _ (streams : Streams) where
  open streams use {entries, xread, xread_law}

  -- Each round sees some first entries of the stream as it is in the end.
  abbrev pub IsSeen : List Entry → List (Round streams) → Type 0
  IsSeen all [] = Unit
  IsSeen all (r ∷ rounds) = ((n : ℕ) × (entries r.stream ≡ take n all)) × IsSeen all rounds

  -- With the entries up to the cursor behind it and the others before it, the reader gets those
  -- before it in order.
  tail-from :
      (rounds : List (Round streams)) (c : ℕ) (old new : List Entry)
      → IsSeen (old ++ new) rounds
      → UpTo c old
      → Increasing c new
      → (left : List Entry) × (upto_final new ≡ (tail streams rounds c).0 ++ left)
  unfolding tail
  tail-from [] c old new s u h = (upto_final new, refl)
  tail-from (r ∷ rounds) c old new ((n, e), s) u h =
      let (k, q) = response-take n c old new u h in
      let p = deliver-IsPart k c new h in
      let b = deliver (take k new) c in
      let seen =
        subst (λ x. IsSeen x rounds)
          (ap (λ x. old ++ x) p.whole ∙ sym (append_assoc old b.sent p.left)) s in
      let rest = tail streams rounds b.cursor in
      let later =
        tail-from rounds b.cursor (old ++ b.sent) p.left seen
          (UpTo-append c b.cursor old b.sent p.from u p.low) p.up in
      subst
        (λ resp.
          (left : List Entry) × (upto_final new
            ≡ (read_on (deliver resp c).final (is_nil resp && r.ended) (deliver resp c).sent
                (tail streams rounds (deliver resp c).cursor)).0
              ++ left))
        (sym (xread_law c 64 r.stream ∙ (ap (λ x. take 64 (after c x)) e ∙ q)))
        (pick-from b.final (is_nil (take k new) && r.ended) b c new rest p refl later)

  ends-pick :
      (f : Bool) (b : Batch) (c : ℕ) (new : List Entry) (rest : List Entry × Bool)
      (p : IsPart b c new)
      → b.final ≡ f
      → (f ≡ false → rest ≡ (upto_final p.left, true))
      → read_on f false b.sent rest ≡ (upto_final new, true)
  ends-pick true b c new rest p e q = ap (λ x. (x, true)) (sym (p.ends e))
  ends-pick false b c new rest p e q =
      ap (λ (r : List Entry × Bool). (b.sent ++ r.0, r.1)) (q refl)
      ∙ ap (λ x. (x, true)) (sym (p.goes_on e))

  -- Each round sees the whole stream.
  abbrev pub IsThere : List Entry → List (Round streams) → Type 0
  IsThere all = All (λ r. entries r.stream ≡ all)

  ends-from :
      (rounds : List (Round streams)) (c : ℕ) (old new : List Entry)
      → IsThere (old ++ new) rounds
      → UpTo c old
      → Increasing c new
      → has_final new ≡ true
      → length new ≤ length rounds
      → tail streams rounds c ≡ (upto_final new, true)
  unfolding tail
  ends-from rounds c old [] s u h f l = cc
  ends-from [] c old (e ∷ new) s u h f l = let none_left : ⊥ = omega arith in absurd none_left
  ends-from (r ∷ rounds) c old (e ∷ new) (here, s) u h f l =
      let all_new = e ∷ new in
      let p = deliver-IsPart 64 c all_new h in
      let b = deliver (take 64 all_new) c in
      let later : b.final ≡ false → tail streams rounds b.cursor ≡ (upto_final p.left, true) = λ g.
        ends-from rounds b.cursor (old ++ b.sent) p.left
          (subst (λ x. IsThere x rounds)
            (ap (λ x. old ++ x) p.whole ∙ sym (append_assoc old b.sent p.left)) s)
          (UpTo-append c b.cursor old b.sent p.from u p.low) p.up (p.finals g ∙ f)
          (omega (
            arith,
            ap length p.whole,
            length-append b.sent p.left,
            deliver-shrinks 63 c e new,
            l,
          )) in
      subst
        (λ resp.
          read_on (deliver resp c).final (is_nil resp && r.ended) (deliver resp c).sent
            (tail streams rounds (deliver resp c).cursor)
          ≡ (upto_final all_new, true))
        (sym (
          xread_law c 64 r.stream
          ∙ (ap (λ x. take 64 (after c x)) here ∙ ap (take 64) (after-split c old all_new u h))))
        (ends-pick b.final b c all_new (tail streams rounds b.cursor) p refl later)

  -- The ids of a stream go up. In whatever parts the stream is there when the reader looks, and
  -- whatever the row of the turn says, what the reader is sent begins the entries behind its cursor
  -- up to the first that ends the turn: nothing is missed, nothing comes twice, nothing follows the
  -- end.
  pub tail-prefix :
      (rounds : List (Round streams)) (cursor : ℕ) (all : List Entry)
      → Increasing 0 all
      → IsSeen all rounds
      → (left : List Entry) × (upto_final (after cursor all)
          ≡ (tail streams rounds cursor).0 ++ left)
  tail-prefix rounds cursor all h s =
      let (old, new, e, u, up) = split-at cursor 0 all h in
      let (left, q) = tail-from rounds cursor old new (subst (λ x. IsSeen x rounds) e s) u up in
      (left, ap upto_final (ap (after cursor) e ∙ after-split cursor old new u up) ∙ q)

  -- With the ids going up, and an entry that ends the turn behind the cursor, a reader that finds the
  -- whole stream there returns within as many rounds as entries are behind its cursor, and has been
  -- sent just the entries up to the end, whatever the row of the turn says.
  pub tail-returns :
      (rounds : List (Round streams)) (cursor : ℕ) (all : List Entry)
      → Increasing 0 all
      → IsThere all rounds
      → has_final (after cursor all) ≡ true
      → length (after cursor all) ≤ length rounds
      → tail streams rounds cursor ≡ (upto_final (after cursor all), true)
  tail-returns rounds cursor all h s f l =
      let (old, new, e, u, up) = split-at cursor 0 all h in
      let behind = ap (after cursor) e ∙ after-split cursor old new u up in
      ends-from rounds cursor old new (subst (λ x. IsThere x rounds) e s) u up
        (ap has_final (sym behind) ∙ f) (omega (arith, ap length behind, l))
      ∙ ap (λ x. (upto_final x, true)) (sym behind)
