-- ===== src/Turns/Stream.antt =====
-- The event stream of a turn: `TurnStream` of app/services/turns/stream.py. The entries of Redis
-- streams, with the ids that Redis gives as numbers, come through an interface.
pub mod Deliver
pub mod Tail
pub mod Over
use codex_server.Base.{
  ℕ, suc, ◌≡◌, Bool, true, false, ◌&&◌, List, [], ◌∷◌, ◌++◌, if◌then◌else◌, ltb, take, is_nil,
  filter,
}
use codex_server.Turns.Runner.{StreamEvent}
use codex_server.Turns.Runner.Rounds.{ends_turn}

pub record Entry : Type 0 where
  pub id : ℕ
  pub event : StreamEvent

-- The entries behind an id.
abbrev pub after : ℕ → List Entry → List Entry
after cursor = filter (λ e. ltb cursor e.id)

-- Streams as Redis keeps them: `XREAD` answers with the first entries behind an id, at most as many
-- as asked for.
pub record Streams : Type 1 where
  pub Store : Type 0
  pub entries : Store → List Entry
  pub xread : (cursor count : ℕ) → Store → List Entry
  pub xread_law :
      (cursor count : ℕ) (s : Store) → xread cursor count s ≡ take count (after cursor (entries s))

-- What is sent of a response, whether it ends the turn, and the id of the last entry sent.
pub record Batch : Type 0 where
  pub sent : List Entry
  pub final : Bool
  pub cursor : ℕ

-- The entries of a response, up to the one that ends the turn.
pub deliver : List Entry → (cursor : ℕ) → Batch
deliver [] cursor = record { sent = []; final = false; cursor = cursor }
deliver (e ∷ entries) cursor =
    let rest = deliver entries e.id in
    if ends_turn e.event
    then record { sent = e ∷ []; final = true; cursor = e.id }
    else record rest { sent = e ∷ rest.sent }

-- What the call goes on with behind a response: it returns behind the end, or where nothing has come
-- and nothing will.
abbrev pub read_on : (final over : Bool) (sent : List Entry) → List Entry × Bool → List Entry × Bool
read_on true over sent rest = (sent, true)
read_on false true sent rest = ([], true)
read_on false false sent rest = (sent ++ rest.0, rest.1)

module _ (streams : Streams) where
  open streams use {Store, xread}

  -- A round of the loop: the stream at its `XREAD`, and whether the row of the turn, read if nothing
  -- has come, is gone or has ended.
  pub record Round : Type 0 where
    pub stream : Store
    pub ended : Bool

  -- `tail`: what is sent in these rounds, and whether the call has returned.
  pub tail : List Round → (cursor : ℕ) → List Entry × Bool
  unfolding deliver
  tail [] cursor = ([], false)
  tail (r ∷ rounds) cursor =
      let response = xread cursor 64 r.stream in
      let batch = deliver response cursor in
      let rest = tail rounds batch.cursor in
      read_on batch.final (is_nil response && r.ended) batch.sent rest
