-- ===== src/Turns/Stream/Deliver.antt =====
-- What `tail` sends of the entries behind its cursor.
use codex_server.Base.{
  dec_lt, ℕ, zero, suc, ◌≤◌, ◌<◌, ◌≡◌, refl, ap, ◌∙◌, Bool, true, false, ◌||◌, List, [], ◌∷◌, ◌++◌,
  arith, if◌then◌else◌, take, All, length,
}
use codex_server.Turns.Runner.Rounds.{ends_turn}
use codex_server.Turns.Stream.{Entry, after, Batch, deliver}

-- The ids go up, from one above `c` on.
abbrev pub Increasing : ℕ → List Entry → Type 0
Increasing c [] = Unit
Increasing c (e ∷ es) = (c < e.id) × Increasing e.id es

abbrev pub UpTo : ℕ → List Entry → Type 0
UpTo c = All (λ e. e.id ≤ c)

-- The reference: the entries up to the first that ends the turn.
abbrev pub upto_final : List Entry → List Entry
upto_final [] = []
upto_final (e ∷ es) = let rest = upto_final es in if ends_turn e.event then e ∷ [] else e ∷ rest

abbrev pub has_final : List Entry → Bool
has_final [] = false
has_final (e ∷ es) = ends_turn e.event || has_final es

Increasing-lower : (c d : ℕ) (es : List Entry) → d ≤ c → Increasing c es → Increasing d es
Increasing-lower c d [] l h = tt
Increasing-lower c d (e ∷ es) l (h, hs) = (omega arith, hs)

after-all : (c : ℕ) (es : List Entry) → Increasing c es → after c es ≡ es
after-all c [] h = refl
after-all c (e ∷ es) (h, hs) =
    ground (arith, after-all c es (Increasing-lower e.id c es (omega arith) hs))

Increasing-take : (n c : ℕ) (es : List Entry) → Increasing c es → Increasing c (take n es)
Increasing-take zero c es h = tt
Increasing-take (suc n) c [] h = tt
Increasing-take (suc n) c (e ∷ es) (h, hs) = (h, Increasing-take n e.id es hs)

take-take : (a b : ℕ) (es : List Entry) → (k : ℕ) × (take a (take b es) ≡ take k es)
take-take zero b es = (0, refl)
take-take (suc a) zero es = (0, refl)
take-take (suc a) (suc b) [] = (0, refl)
take-take (suc a) (suc b) (e ∷ es) = let (k, h) = take-take a b es in (suc k, ap (λ x. e ∷ x) h)

-- Of a part of the stream that is there already, `after` gives a part of what is behind the cursor.
after-take :
    (n c : ℕ) (old new : List Entry)
    → UpTo c old
    → Increasing c new
    → (k : ℕ) × (after c (take n (old ++ new)) ≡ take k new)
after-take n c [] new u h = (n, after-all c (take n new) (Increasing-take n c new h))
after-take zero c (e ∷ old) new u h = (0, refl)
after-take (suc n) c (e ∷ old) new (u, us) h =
    let (k, q) = after-take n c old new us h in (k, ground (arith, q))

-- The response to a read of such a part.
pub response-take :
    (n c : ℕ) (old new : List Entry)
    → UpTo c old
    → Increasing c new
    → (k : ℕ) × (take 64 (after c (take n (old ++ new))) ≡ take k new)
response-take n c old new u h =
    let (k, q) = after-take n c old new u h in
    let (j, r) = take-take 64 k new in (j, ap (take 64) q ∙ r)

-- What a batch is of the new entries: the first of them, up to the end or with `left` behind them.
pub record IsPart (b : Batch) (c : ℕ) (new : List Entry) : Type 0 where
  pub left : List Entry
  pub whole : new ≡ b.sent ++ left
  pub ends : b.final ≡ true → upto_final new ≡ b.sent
  pub goes_on : b.final ≡ false → upto_final new ≡ b.sent ++ upto_final left
  pub finals : b.final ≡ false → has_final left ≡ has_final new
  pub up : Increasing b.cursor left
  pub low : UpTo b.cursor b.sent
  pub from : c ≤ b.cursor

nothing-IsPart :
    (c : ℕ) (new : List Entry)
    → Increasing c new
    → IsPart (record { sent = []; final = false; cursor = c }) c new
nothing-IsPart c new h = record {
  left = new;
  whole = refl;
  ends = λ e. cc;
  goes_on = λ e. refl;
  finals = λ e. refl;
  up = h;
  low = tt;
  from = omega arith;
}

cons-IsPart :
    (b : Bool) (e : Entry) (c : ℕ) (new : List Entry) (rest : Batch)
    → ends_turn e.event ≡ b
    → c < e.id
    → Increasing e.id new
    → IsPart rest e.id new
    → IsPart
        (if b
          then record { sent = e ∷ []; final = true; cursor = e.id }
          else record rest { sent = e ∷ rest.sent })
        c
        (e ∷ new)
cons-IsPart true e c new rest h lt up p = record {
  left = new;
  whole = refl;
  ends = λ k. ground (arith, h);
  goes_on = λ k. cc;
  finals = λ k. cc;
  up = up;
  low = (omega arith, tt);
  from = omega arith;
}
cons-IsPart false e c new rest h lt up p = record {
  left = p.left;
  whole = ap (λ x. e ∷ x) p.whole;
  ends = λ k. ground (arith, h, p.ends k);
  goes_on = λ k. ground (arith, h, p.goes_on k);
  finals = λ k. ground (arith, h, p.finals k);
  up = p.up;
  low = (p.from, p.low);
  from = omega (arith, p.from);
}

pub deliver-IsPart :
    (k c : ℕ) (new : List Entry) → Increasing c new → IsPart (deliver (take k new) c) c new
unfolding deliver
deliver-IsPart zero c new h = nothing-IsPart c new h
deliver-IsPart (suc k) c [] h = nothing-IsPart c [] h
deliver-IsPart (suc k) c (e ∷ new) (h, hs) =
    cons-IsPart (ends_turn e.event) e c new (deliver (take k new) e.id) refl h hs
      (deliver-IsPart k e.id new hs)

-- A batch of one or more entries leaves fewer.
pub deliver-shrinks :
    (k c : ℕ) (e : Entry) (new : List Entry) → 0 < length (deliver (take (suc k) (e ∷ new)) c).sent
unfolding deliver
deliver-shrinks k c e new = ground arith

pub after-split :
    (c : ℕ) (old new : List Entry) → UpTo c old → Increasing c new → after c (old ++ new) ≡ new
after-split c [] new u h = after-all c new h
after-split c (e ∷ old) new (u, us) h = ground (arith, after-split c old new us h)

-- A cursor parts a stream.
pub split-at :
    (c low : ℕ) (all : List Entry)
    → Increasing low all
    → (old : List Entry) × (new : List Entry) × (all ≡ old ++ new) × UpTo c old × Increasing c new
split-at c low [] h = ([], [], refl, tt, tt)
split-at c low (e ∷ all) (h, hs) = elim (dec_lt c e.id) [
  | yes above ↦ ([], e ∷ all, refl, tt, (above, hs))
  | no below ↦
      (let (old, new, q, u, up) = split-at c e.id all hs in
        (e ∷ old, new, ap (λ x. e ∷ x) q, (omega arith, u), up))
]
