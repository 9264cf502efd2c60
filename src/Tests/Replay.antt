-- ===== src/Tests/Replay.antt =====
-- The owner of chat 3 comes back to turn 7, which ends meanwhile.
use codex_server.Base.{◌≡◌, refl, true, none, some, [], ◌∷◌, find?, take, arith}
use codex_server.Turns.Status.{completed, starting}
use codex_server.Turns.Table.{Turn, get_by_id}
use codex_server.Turns.Runner.{done}
use codex_server.Tests.Sample.{sample}
use codex_server.Tests.Stream.{lists, said, at}
use codex_server.Turns.Stream.{Round}
use codex_server.Turns.Stream.Over.{IsCompleted}
use codex_server.Chat.Replay.{
  ChatRow, web, is_web, is_row, TailTurnRequest, Tables, tail_turn, load_chat_owned, follow,
  terminal_from_status,
}
use codex_server.Chat.Replay.Owner.{EndsTold, tail_turn-EndsTold, tail_turn-IsOwner}

abbrev chat : ChatRow
chat = record { id = 3; user_id = 1; source = web }

abbrev request : TailTurnRequest
request = record { turn_id = some 7; chat_id = 0; after_id = 1; user_id = 1 }

-- The stream lacks its final event, and the row has ended.
abbrev at_end : Round lists
at_end = record { stream = take 2 said; ended = true }

abbrev tables : Tables lists
tables = record {
  chats = chat ∷ [];
  turns = sample starting ∷ [];
  rounds = at 2 ∷ at_end ∷ at_end ∷ at_end ∷ [];
  turns_later = sample completed ∷ [];
  text_of = λ i. none;
}

cut_short : IsCompleted lists (take 2 said) 1 (at 2 ∷ []) (at_end ∷ at_end ∷ at_end ∷ [])
cut_short = record {
  up = (omega arith, (omega arith, tt));
  seen = ((2, refl), tt);
  there = (refl, (refl, (refl, tt)));
  ended = (refl, (refl, (refl, tt)));
  enough = omega arith;
}

tail_turn-EndsTold_example : EndsTold lists completed (tail_turn lists request tables)
unfolding get_by_id load_chat_owned
tail_turn-EndsTold_example =
    tail_turn-EndsTold lists request tables 7 (sample starting) (sample completed) chat
      (take 2 said) (at 2 ∷ []) (at_end ∷ at_end ∷ at_end ∷ []) refl refl refl (λ e. cc) refl refl
      refl cut_short

-- A turn that has ended already.
abbrev ended : Tables lists
ended = record tables { turns = sample completed ∷ [] }

tail_turn-IsOwner_example :
    (turn : Turn) × (get_by_id 7 (sample completed ∷ []) ≡ some turn)
    × ((c : ChatRow) × (find? (is_row turn.chat_id) (chat ∷ []) ≡ some c)
        × (c.id ≡ turn.chat_id)
        × (c.user_id ≡ 1)
        × (is_web c.source ≡ true))
unfolding get_by_id load_chat_owned tail_turn follow terminal_from_status
tail_turn-IsOwner_example = tail_turn-IsOwner lists request ended 7 (done "" ∷ []) refl refl
