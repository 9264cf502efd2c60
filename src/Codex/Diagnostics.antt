-- ===== src/Codex/Diagnostics.antt =====
-- app/services/codex/diagnostics.py: what a turn knows of its running items. A dictionary is the list
-- of its entries; Python's `str` of a value is a parameter.
pub mod Active
pub mod Selected
use codex_server.Base.{
  ℕ, suc, ◌+◌, Bool, true, false, ◌||◌, not, Option, none, some, List, [], ◌∷◌, ◌++◌, if◌then◌else◌,
  is_nil, String,
}
use codex_server.Base.Text.{Text, codes, text_eq}
use codex_server.Codex.Json.{Json, null, string, object, Fields, get, ◌>>=◌}
use codex_server.Codex.Translate.{Notification}

-- The first of the keys that holds a text which is not empty.
abbrev pub filled : Json → Option Text
filled (string t) = if is_nil t then none else some t
filled _ = none

abbrev pub first_filled : List String → Fields → Option Text
first_filled [] item = none
first_filled (k ∷ ks) item =
    let rest = first_filled ks item in elim (filled (get k item)) [ some t ↦ some t | none ↦ rest ]

pub builtin_label : Text → Text
builtin_label type =
    if text_eq type (codes "commandExecution")
    then codes "shell"
    else if text_eq type (codes "fileChange")
    then codes "file_change"
    else if text_eq type (codes "webSearch")
    then codes "web_search"
    else if text_eq type (codes "imageGeneration")
    then codes "image_generation"
    else if text_eq type (codes "imageView")
    then codes "image_view"
    else type

pub item_label : Fields → Option Text
unfolding builtin_label
item_label item = elim (first_filled ("toolName" ∷ "tool" ∷ "name" ∷ []) item) [
  | some t ↦ some t
  | none ↦ elim (get "type" item) [ string type ↦ some (builtin_label type) | _ ↦ none ]
]

abbrev pub text_or_none : Json → Option Text
text_or_none (string t) = some t
text_or_none _ = none

-- The type, the tool and the start of an item.
abbrev pub ActiveItem : Type 0
ActiveItem = Option Text × Option Text × ℕ

abbrev pub put : Text → ActiveItem → List (Text × ActiveItem) → List (Text × ActiveItem)
put k v [] = (k, v) ∷ []
put k v ((j, w) ∷ m) = let rest = put k v m in if text_eq j k then (j, v) ∷ m else (j, w) ∷ rest

abbrev pub pop : Text → List (Text × ActiveItem) → List (Text × ActiveItem)
pop k [] = []
pop k ((j, w) ∷ m) = let rest = pop k m in if text_eq j k then rest else (j, w) ∷ rest

pub record Diagnostics : Type 0 where
  pub raw_count : ℕ
  pub completed_items : ℕ
  pub last_raw_at : Option ℕ
  pub last_raw_method : Text
  pub last_raw_turn_id : Option Text
  pub last_item_type : Option Text
  pub last_tool : Option Text
  pub turn_completed_seen : Bool
  pub active_items : List (Text × ActiveItem)

pub has_active_items : Diagnostics → Bool
has_active_items d = not (is_nil d.active_items)

-- The part of `absorb_raw` before its look at the item.
abbrev pub counted_raw : (now : ℕ) → Notification → Diagnostics → Diagnostics
counted_raw now note d = record d {
  raw_count = suc d.raw_count;
  last_raw_at = some now;
  last_raw_method = note.method;
  last_raw_turn_id = note.turn_id;
  turn_completed_seen = d.turn_completed_seen || text_eq note.method (codes "turn/completed");
}

module _ (py_str : Json → Text) where
  pub item_key : Fields → Text
  unfolding item_label
  item_key item = elim (first_filled ("id" ∷ "callId" ∷ "toolCallId" ∷ []) item) [
    | some t ↦ t
    | none ↦
        py_str (get "type" item)
        ++ (codes ":" ++ elim (item_label item) [ none ↦ codes "None" | some t ↦ t ])
  ]

  -- The part of `absorb_raw` behind the test that the notification has an item.
  pub absorb_item : (now : ℕ) (method : Text) → Fields → Diagnostics → Diagnostics
  absorb_item now method item d =
      let type = text_or_none (get "type" item) in
      let seen : Diagnostics = record d { last_item_type = type; last_tool = item_label item } in
      if text_eq method (codes "item/started")
      then record seen {
        active_items = put (item_key item) (type, item_label item, now) seen.active_items;
      }
      else if text_eq method (codes "item/completed")
      then record seen {
        completed_items = suc seen.completed_items;
        active_items = pop (item_key item) seen.active_items;
      }
      else seen

  pub absorb_raw : (now : ℕ) → Notification → Diagnostics → Diagnostics
  unfolding absorb_item
  absorb_raw now note d =
      let d' = counted_raw now note d in
      elim (get "item" note.params) [ object item ↦ absorb_item now note.method item d' | _ ↦ d' ]
