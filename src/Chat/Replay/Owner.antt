-- ===== src/Chat/Replay/Owner.antt =====
-- What a client that comes back is told, and who may ask.
use codex_server.Base.{
  ℕ, String, ◌≡◌, refl, ap, ◌∙◌, sym, Bool, true, false, Option, none, some, List, [], ◌∷◌, ◌++◌,
  map, arith, if◌then◌else◌, find?, ==_iff, find?-some,
}
use mathlib.Core.Path.{subst}
use codex_server.Turns.Status.{
  TurnStatus, starting, running, completed, failed, cancelled, is_terminal,
}
use codex_server.Turns.Table.{Turn, get_by_id}
use codex_server.Turns.Runner.{StreamEvent, done, error}
use codex_server.Turns.Stream.{Streams, Round, Entry, tail}
use codex_server.Turns.Stream.Over.{IsCompleted, tail-over}
use codex_server.Chat.Replay.{
  ChatRow, is_web, is_row, load_chat_owned, terminal_from_status, terminal_for_turn_id, terminal_of,
  terminal_for, as_events, TailTurnRequest, Tables, follow, if_owned, tail_named, tail_turn,
  tail_by, owned_by, with_terminal,
}

-- How a turn ended, as an event says it.
abbrev pub Tells : TurnStatus → StreamEvent → Type 0
Tells completed (done text) = Unit
Tells failed (error code detail) = Unit
Tells cancelled (error code detail) = Unit
Tells _ _ = ⊥

terminal_of-Tells :
    (st : TurnStatus) (text_of : ℕ → Option String) (turn : Turn)
    → is_terminal st ≡ true
    → (e : StreamEvent) × (terminal_of st text_of turn ≡ some e) × Tells st e
terminal_of-Tells starting text_of turn h = cc
terminal_of-Tells running text_of turn h = cc
terminal_of-Tells completed text_of turn h = (done _, refl, tt)
terminal_of-Tells failed text_of turn h = (error _ _, refl, tt)
terminal_of-Tells cancelled text_of turn h = (error _ _, refl, tt)

-- The row of an ended turn gives one event, which tells how it ended.
terminal_for-Tells :
    (text_of : ℕ → Option String) (o : Option Turn) (turn : Turn)
    → o ≡ some turn
    → is_terminal turn.status ≡ true
    → (e : StreamEvent) × (terminal_for text_of o ≡ e ∷ []) × Tells turn.status e
unfolding terminal_from_status
terminal_for-Tells text_of none turn o h = cc
terminal_for-Tells text_of (some row) turn o h =
    let (e, q, tells) = terminal_of-Tells turn.status text_of turn h in
    (
      e,
      ap (terminal_for text_of) o
          ∙ (ap (λ b. if b then as_events (terminal_of turn.status text_of turn) else []) h
              ∙ ap as_events q),
      tells,
    )

owned-same :
    (user_id : ℕ) (o : Option ChatRow) (chat : ChatRow)
    → owned_by user_id o ≡ some chat
    → (o ≡ some chat) × (chat.user_id ≡ user_id) × (is_web chat.source ≡ true)
owned-same user_id none chat h = cc
owned-same user_id (some c) chat h = ground arith

owner-of :
    (chat_id user_id : ℕ) (chats : List ChatRow) (chat : ChatRow)
    → load_chat_owned chat_id user_id chats ≡ some chat
    → (find? (is_row chat_id) chats ≡ some chat)
      × (chat.id ≡ chat_id)
      × (chat.user_id ≡ user_id)
      × (is_web chat.source ≡ true)
unfolding load_chat_owned
owner-of chat_id user_id chats chat h =
    let (found, user, of_web) = owned-same user_id (find? (is_row chat_id) chats) chat h in
    (found, (==_iff chat.id chat_id).0 (find?-some (is_row chat_id) chats chat found), user, of_web)

module _ (streams : Streams) where
  -- The events end with one that tells how the turn ended.
  abbrev pub EndsTold : TurnStatus → Option (List StreamEvent) → Type 0
  EndsTold st o =
      (sent : List StreamEvent) × (e : StreamEvent) × (o ≡ some (sent ++ e ∷ [])) × Tells st e

  over-told :
      (r : List Entry × Bool) (terminal : List StreamEvent) (e : StreamEvent)
      → r.1 ≡ true
      → terminal ≡ e ∷ []
      → with_terminal r terminal ≡ map (λ (x : Entry). x.event) r.0 ++ e ∷ []
  over-told (sent, true) terminal e h q = ap (λ x. map (λ (y : Entry). y.event) sent ++ x) q
  over-told (sent, false) terminal e h q = cc

  follow-EndsTold :
      (after_id : ℕ) (turn later : Turn) (t : Tables streams) (b : Bool)
      → is_terminal turn.status ≡ b
      → (b ≡ true → later.status ≡ turn.status)
      → get_by_id turn.id t.turns_later ≡ some later
      → is_terminal later.status ≡ true
      → (tail streams t.rounds after_id).1 ≡ true
      → EndsTold later.status (some (follow streams after_id turn t))
  unfolding follow terminal_for_turn_id
  follow-EndsTold after_id turn later t true h same read ended over =
      let (e, q, tells) = terminal_of-Tells turn.status t.text_of turn h in
      let last = terminal_for t.text_of (get_by_id turn.id t.turns_later) in
      let told = with_terminal (tail streams t.rounds after_id) last in
      (
        [],
        e,
        ap (λ b. some (if b then as_events (terminal_from_status t.text_of turn) else told)) h
            ∙ ap (λ o. some (as_events o)) q,
        subst (λ st. Tells st e) (sym (same refl)) tells,
      )
  follow-EndsTold after_id turn later t false h same read ended over =
      let (e, q, tells) =
        terminal_for-Tells t.text_of (get_by_id turn.id t.turns_later) later read ended in
      let r = tail streams t.rounds after_id in
      let last = terminal_for t.text_of (get_by_id turn.id t.turns_later) in
      (
        map (λ (x : Entry). x.event) r.0,
        e,
        ap
              (λ b. some (
                if b
                then as_events (terminal_from_status t.text_of turn)
                else with_terminal r last))
              h
            ∙ ap some (over-told r last e over q),
        tells,
      )

  -- The owner of a chat asks for a turn of it. Its stream is completed behind the first rounds of the
  -- tail, and in the later rounds, of which there are more than entries behind the client's id, and
  -- at the last read its row has ended, which it does but once. The answer then comes to an end, and
  -- its last event tells how the turn ended (`done` or `error`), wherever the client left off and
  -- whether or not the stream has an event that ends the turn.
  pub tail_turn-EndsTold :
      (request : TailTurnRequest) (t : Tables streams) (i : ℕ) (turn later : Turn) (chat : ChatRow)
      (all : List Entry) (early late : List (Round streams))
      → request.turn_id ≡ some i
      → get_by_id i t.turns ≡ some turn
      → load_chat_owned turn.chat_id request.user_id t.chats ≡ some chat
      → (is_terminal turn.status ≡ true → later.status ≡ turn.status)
      → get_by_id turn.id t.turns_later ≡ some later
      → is_terminal later.status ≡ true
      → t.rounds ≡ early ++ late
      → IsCompleted streams all request.after_id early late
      → EndsTold later.status (tail_turn streams request t)
  unfolding tail_turn
  tail_turn-EndsTold request t i turn later chat all early late asked found owned same read ended
        split c =
      subst (EndsTold later.status)
        (sym (
          ap (λ o. tail_by streams request o t) asked
          ∙ (ap (λ o. tail_named streams request o t) found
              ∙ ap (λ o. if_owned streams o (follow streams request.after_id turn t)) owned)))
        (follow-EndsTold request.after_id turn later t (is_terminal turn.status) refl same read
          ended
          (ap (λ r. (tail streams r request.after_id).1) split
            ∙ tail-over streams all request.after_id early late c))

  owner-named :
      (request : TailTurnRequest) (o : Option Turn) (t : Tables streams) (events : List StreamEvent)
      → tail_named streams request o t ≡ some events
      → (turn : Turn) × (o ≡ some turn)
        × ((chat : ChatRow) × (load_chat_owned turn.chat_id request.user_id t.chats ≡ some chat))
  owner-named request none t events h = cc
  owner-named request (some turn) t events h =
      let (chat, e) =
        owner-some (load_chat_owned turn.chat_id request.user_id t.chats)
          (follow streams request.after_id turn t) events h in
      (turn, refl, (chat, e))
    where
      owner-some :
          (o : Option ChatRow) (sent events : List StreamEvent)
          → if_owned streams o sent ≡ some events
          → (chat : ChatRow) × (o ≡ some chat)
      owner-some none sent events h = cc
      owner-some (some chat) sent events h = (chat, refl)

  -- Who is sent anything for a turn that is asked for by its id is the user of the web chat that
  -- the turn belongs to.
  pub tail_turn-IsOwner :
      (request : TailTurnRequest) (t : Tables streams) (i : ℕ) (events : List StreamEvent)
      → request.turn_id ≡ some i
      → tail_turn streams request t ≡ some events
      → (turn : Turn) × (get_by_id i t.turns ≡ some turn)
        × ((chat : ChatRow) × (find? (is_row turn.chat_id) t.chats ≡ some chat)
            × (chat.id ≡ turn.chat_id)
            × (chat.user_id ≡ request.user_id)
            × (is_web chat.source ≡ true))
  unfolding tail_turn load_chat_owned
  tail_turn-IsOwner request t i events asked h =
      let (turn, found, (chat, owned)) =
        owner-named request (get_by_id i t.turns) t events
          (sym (ap (λ o. tail_by streams request o t) asked) ∙ h) in
      let (row, id, user, of_web) = owner-of turn.chat_id request.user_id t.chats chat owned in
      (turn, found, (chat, row, id, user, of_web))
