-- ===== src/Tests/Stream.antt =====
-- A reader of the stream of a turn that said two things and ended.
use codex_server.Base.{ℕ, ◌≡◌, refl, arith, true, false, List, [], ◌∷◌, ◌++◌, take}
use codex_server.Turns.Runner.{other, done}
use codex_server.Turns.Stream.{Entry, after, Streams, Round, tail}
use codex_server.Turns.Stream.Deliver.{Increasing, upto_final}
use codex_server.Turns.Stream.Tail.{tail-prefix, tail-returns}

abbrev pub lists : Streams
lists = record {
  Store = List Entry;
  entries = λ s. s;
  xread = λ cursor count s. take count (after cursor s);
  xread_law = λ cursor count s. refl;
}

abbrev pub said : List Entry
said =
    record { id = 1; event = other "token" }
    ∷ record { id = 2; event = other "token" }
    ∷ record { id = 3; event = done "" }
    ∷ []

said-Increasing : Increasing 0 said
said-Increasing = (omega arith, (omega arith, (omega arith, tt)))

abbrev pub at : (seen : ℕ) → Round lists
at seen = record { stream = take seen said; ended = false }

-- The client has the first entry, and looks before the third is there.
tail-prefix_example :
    (left : List Entry) × (upto_final (after 1 said)
      ≡ (tail lists (at 2 ∷ at 2 ∷ at 3 ∷ []) 1).0 ++ left)
tail-prefix_example =
    tail-prefix lists (at 2 ∷ at 2 ∷ at 3 ∷ []) 1 said said-Increasing
      ((2, refl), ((2, refl), ((3, refl), tt)))

tail-returns_example : tail lists (at 3 ∷ at 3 ∷ []) 1 ≡ (upto_final (after 1 said), true)
tail-returns_example =
    tail-returns lists (at 3 ∷ at 3 ∷ []) 1 said said-Increasing (refl, (refl, tt)) refl
      (omega arith)
