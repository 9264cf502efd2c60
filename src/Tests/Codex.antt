-- ===== src/Tests/Codex.antt =====
-- The notifications of a short turn among those of an older one.
use codex_server.Base.{◌≡◌, refl, Option, none, some, List, [], ◌∷◌, count}
use codex_server.Base.Text.{Text, codes}
use codex_server.Codex.Json.{Json, string, object, field, end}
use codex_server.Codex.Events.{token_event, done_event}
use codex_server.Codex.Collector.{empty, absorb_all}
use codex_server.Codex.Translate.{Notification, agent_message_to_token, translate_notification}
use codex_server.Codex.Turn.{Progress, begin, run_notes, is_final}
use codex_server.Codex.Turn.Stream.{finals, run_notes_lem}

abbrev own : Text
own = codes "turn-2"

abbrev delta_note : Notification
delta_note = record {
  method = codes "item/agentMessage/delta";
  params = field "delta" (string (codes "he")) end;
  turn_id = some own;
}

abbrev old_note : Notification
old_note = record delta_note { turn_id = some (codes "turn-1") }

abbrev message_note : Notification
message_note = record {
  method = codes "item/completed";
  params =
      field "item"
        (object (
          field "type" (string (codes "agentMessage")) (field "text" (string (codes "hello")) end)))
        end;
  turn_id = some own;
}

abbrev end_note : Notification
end_note = record { method = codes "turn/completed"; params = end; turn_id = some own }

abbrev notes : List Notification
notes = old_note ∷ delta_note ∷ old_note ∷ message_note ∷ end_note ∷ []

abbrev no_str : Json → Text
no_str value = []

abbrev no_type : Text → Option Text
no_type path = none

abbrev no_json : Text → Option Json
no_json text = none

abbrev under_way : Progress
under_way = record begin {
  raw_count = 1;
  accumulated = codes "he";
  events = token_event (codes "he") ∷ [];
}

run_notes_lem_example :
    (count is_final (run_notes no_str no_type no_json 20 own notes begin).1.events
      ≡ finals (some (run_notes no_str no_type no_json 20 own notes begin).0))
    × ((absorb_all (run_notes no_str no_type no_json 20 own notes begin).1.events empty).buffer
        ≡ (run_notes no_str no_type no_json 20 own notes begin).1.accumulated)
run_notes_lem_example = run_notes_lem no_str no_type no_json 20 own notes

events_of_turn :
    (run_notes no_str no_type no_json 20 own notes begin).1.events
    ≡ token_event (codes "he") ∷ token_event (codes "llo") ∷ done_event (codes "hello") ∷ []
unfolding run_notes translate_notification agent_message_to_token
events_of_turn = refl
