-- ===== src/Tests/Diagnostics.antt =====
-- A shell command that runs while another ends, and a turn on the only page of its thread.
use codex_server.Base.{Option, some, ◌≡◌, false, none, List, [], ◌∷◌}
use codex_server.Base.Text.{Text, codes}
use codex_server.Codex.Json.{Json, string, array, nil, cons, Fields, object, field, end}
use codex_server.Codex.Translate.{Notification}
use codex_server.Codex.Diagnostics.{Diagnostics}
use codex_server.Codex.Diagnostics.Active.{has_key, open_behind, absorb_all_raw, active_items_lem}
use codex_server.Codex.Pages.{
  turn_probe_max_pages, probe_turn_status, listed, status_in, probe_turn_status_lem,
}

abbrev started : Diagnostics
started = record {
  raw_count = 0;
  completed_items = 0;
  last_raw_at = none;
  last_raw_method = codes "none";
  last_raw_turn_id = none;
  last_item_type = none;
  last_tool = none;
  turn_completed_seen = false;
  active_items = [];
}

abbrev note_of : Text → Text → Notification
note_of method id = record {
  method = method;
  params =
      field "item"
        (object (field "id" (string id) (field "type" (string (codes "commandExecution")) end)))
        end;
  turn_id = none;
}

abbrev notes : List Notification
notes =
    note_of (codes "item/started") (codes "a")
    ∷ note_of (codes "item/started") (codes "b")
    ∷ note_of (codes "item/completed") (codes "b")
    ∷ []

abbrev no_str : Json → Text
no_str value = []

active_items_lem_example :
    has_key (codes "a") (absorb_all_raw no_str 5 notes started).active_items
    ≡ open_behind no_str (codes "a") notes (has_key (codes "a") started.active_items)
active_items_lem_example = active_items_lem no_str (codes "a") 5 notes started

abbrev page : Option Text → Fields
page cursor =
    field "data"
      (array (
        cons
          (object
            (field "id" (string (codes "t")) (field "status" (string (codes "completed")) end)))
          nil))
      end

probe_turn_status_lem_example :
    probe_turn_status page (codes "t")
    ≡ status_in page (codes "t") (listed page turn_probe_max_pages none)
probe_turn_status_lem_example = probe_turn_status_lem page (codes "t")

abbrev two_items : Diagnostics
two_items = record started {
  active_items =
      (codes "a", (some (codes "reasoning"), some (codes "reasoning"), 3))
      ∷ (codes "b", (some (codes "commandExecution"), some (codes "shell"), 4))
      ∷ [];
}
