-- ===== src/Chat/Stream/Rounds.antt =====
-- What holds before the loop of `stream_turn` and is kept by each round holds behind it.
use codex_server.Base.{Option, none, some, List, [], ◌∷◌, All}
use codex_server.Chat.Log.{Exc}
use codex_server.Chat.Stream.{
  Call, StreamState, Arrival, Verdict, goes_on, breaks, returns, throws, behind, round, loop,
}

module _ (P : Verdict → StreamState → Type 0) (Q : Arrival → Type 0) (call : Call)
    (round-P : (a : Arrival) (s : StreamState)
      → Q a
      → P goes_on s
      → P (round a call s).0 (round a call s).1)
    (P-breaks : (s : StreamState) → P goes_on s → P breaks s)
    (P-throws : (exc : Exc) (s : StreamState) → P goes_on s → P (throws exc) s) where
  behind-P :
      (v : Verdict) (s : StreamState) (rest : Verdict × StreamState)
      → P v s
      → (P goes_on s → P rest.0 rest.1)
      → P (behind v s rest).0 (behind v s rest).1
  behind-P goes_on s rest p go = go p
  behind-P breaks s rest p go = p
  behind-P returns s rest p go = p
  behind-P (throws exc) s rest p go = p

  pub loop-P :
      (arrivals : List Arrival) (ending : Option Exc) (s : StreamState)
      → All Q arrivals
      → P goes_on s
      → P (loop arrivals ending call s).0 (loop arrivals ending call s).1
  unfolding loop
  loop-P [] none s q p = P-breaks s p
  loop-P [] (some exc) s q p = P-throws exc s p
  loop-P (a ∷ arrivals) ending s (qa, q) p =
      let (v, s') = round a call s in
      behind-P v s' (loop arrivals ending call s') (round-P a s qa p) (loop-P arrivals ending s' q)

-- For what holds of any arrival.
abbrev pub Any : Arrival → Type 0
Any a = Unit

pub each-Any : (arrivals : List Arrival) → All Any arrivals
each-Any [] = tt
each-Any (a ∷ arrivals) = (tt, each-Any arrivals)
