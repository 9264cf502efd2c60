-- ===== src/Codex/Pages.antt =====
-- `probe_turn_status` of app/services/codex/turn.py: the status of a turn, looked up in the pages of
-- its thread. The app-server's answer to a request with a cursor is a parameter; a request that
-- raises is not in it.
use codex_server.Base.{
  ap, sym, ℕ, zero, suc, ◌≡◌, refl, ◌∙◌, Bool, false, Option, none, some, arith, if◌then◌else◌,
}
use codex_server.Base.Text.{Text}
use codex_server.Codex.Json.{
  Json, null, flag, number, string, array, object, Items, nil, cons, Fields, get, is_string,
}

abbrev pub turn_probe_max_pages : ℕ
turn_probe_max_pages = 5

-- `isinstance(turn, dict) and turn.get("id") == codex_turn_id`.
abbrev has_turn_id : Text → Json → Bool
has_turn_id id (object d) = is_string id (get "id" d)
has_turn_id id _ = false

abbrev find_turn : Text → Items → Option Json
find_turn id nil = none
find_turn id (cons x xs) = let rest = find_turn id xs in if has_turn_id id x then some x else rest

abbrev status_text : Json → Option Text
status_text (string t) = some t
status_text _ = none

abbrev status_of : Json → Option Text
status_of (object d) = status_text (get "status" d)
status_of _ = none

module _ (request : Option Text → Fields) where
  -- The rounds that are left, with the cursor of the next request.
  pub probe_pages : ℕ → Option Text → Text → Option Text
  probe_pages zero cursor id = none
  probe_pages (suc n) cursor id =
      let page = request cursor in
      elim (get "data" page) [
        | array turns ↦ elim (find_turn id turns) [
          | some turn ↦ status_of turn
          | none ↦ elim (get "nextCursor" page) [
            | string next ↦ probe_pages n (some next) id
            | _ ↦ none
          ]
        ]
        | _ ↦ none
      ]

  pub probe_turn_status : Text → Option Text
  unfolding probe_pages
  probe_turn_status id = probe_pages turn_probe_max_pages none id

  abbrev join : Items → Items → Items
  join nil ys = ys
  join (cons x xs) ys = cons x (join xs ys)

  -- The turns that so many pages list one after the other; a page without a list, or without a
  -- further cursor, is the last one.
  pub listed : ℕ → Option Text → Items
  listed zero cursor = nil
  listed (suc n) cursor =
      let page = request cursor in
      elim (get "data" page) [
        | array turns ↦
            join turns
              (elim (get "nextCursor" page) [ string next ↦ listed n (some next) | _ ↦ nil ])
        | _ ↦ nil
      ]

  abbrev pub status_in : Text → Items → Option Text
  status_in id turns = elim (find_turn id turns) [ none ↦ none | some turn ↦ status_of turn ]

  status_in-join :
      (id : Text) (xs ys : Items)
      → status_in id (join xs ys)
        ≡ (elim (find_turn id xs) [ some turn ↦ status_of turn | none ↦ status_in id ys ])
  status_in-join id nil ys = refl
  status_in-join id (cons x xs) ys = ground (arith, status_in-join id xs ys)

  on_cursor :
      (id : Text) (f : Text → Option Text) (g : Text → Items) (j : Json)
      → ((t : Text) → f t ≡ status_in id (g t))
      → (elim j [ string next ↦ f next | _ ↦ none ])
        ≡ status_in id (elim j [ string next ↦ g next | _ ↦ nil ])
  on_cursor id f g null e = refl
  on_cursor id f g (flag b) e = refl
  on_cursor id f g (number z t) e = refl
  on_cursor id f g (string t) e = e t
  on_cursor id f g (array xs) e = refl
  on_cursor id f g (object d) e = refl

  after_turns :
      (id : Text) (xs ys : Items) (r : Option Text)
      → r ≡ status_in id ys
      → (elim (find_turn id xs) [ some turn ↦ status_of turn | none ↦ r ])
        ≡ status_in id (join xs ys)
  after_turns id xs ys r e =
      ap (λ x. elim (find_turn id xs) [ some turn ↦ status_of turn | none ↦ x ]) e
      ∙ sym (status_in-join id xs ys)

  on_page :
      (id : Text) (j : Json) (r : Option Text) (ys : Items)
      → r ≡ status_in id ys
      → (elim j [
        | array turns ↦ elim (find_turn id turns) [ some turn ↦ status_of turn | none ↦ r ]
        | _ ↦ none
      ])
        ≡ status_in id (elim j [ array turns ↦ join turns ys | _ ↦ nil ])
  on_page id null r ys e = refl
  on_page id (flag b) r ys e = refl
  on_page id (number z t) r ys e = refl
  on_page id (string t) r ys e = refl
  on_page id (array xs) r ys e = after_turns id xs ys r e
  on_page id (object d) r ys e = refl

  pages-listed :
      (n : ℕ) (cursor : Option Text) (id : Text)
      → probe_pages n cursor id ≡ status_in id (listed n cursor)
  unfolding probe_pages listed
  pages-listed zero cursor id = refl
  pages-listed (suc n) cursor id = on_page id (get "data" (request cursor)) _ _ (
      on_cursor id (λ t. probe_pages n (some t) id) (λ t. listed n (some t))
        (get "nextCursor" (request cursor)) (λ t. pages-listed n (some t) id))

  -- The answer is the status of the first turn with this id among those that the first five pages
  -- list, and nothing if none of them has it.
  pub probe_turn_status_lem :
      (id : Text) → probe_turn_status id ≡ status_in id (listed turn_probe_max_pages none)
  unfolding probe_turn_status
  probe_turn_status_lem id = pages-listed turn_probe_max_pages none id
