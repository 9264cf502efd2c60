-- ===== src/Codex/Diagnostics/Active.antt =====
-- Which items are active: those started and not completed since.
use codex_server.Base.{
  ap, ℕ, ◌≡◌, refl, ◌∙◌, Bool, true, false, ◌&&◌, ◌||◌, not, List, [], ◌∷◌, arith, if◌then◌else◌,
  Bool-cases, inl, inr, ap,
}
use codex_server.Base.Text.{Text, codes, text_eq, text_eq_iff}
use codex_server.Codex.Json.{Json, null, flag, number, string, array, object, Fields, get}
use codex_server.Codex.Translate.{Notification}
use codex_server.Codex.Diagnostics.{
  counted_raw, ActiveItem, Diagnostics, put, pop, item_key, absorb_item, absorb_raw,
}

abbrev pub has_key : Text → List (Text × ActiveItem) → Bool
has_key k [] = false
has_key k ((j, v) ∷ m) = text_eq j k || has_key k m

has_key-put :
    (k j : Text) (v : ActiveItem) (m : List (Text × ActiveItem))
    → has_key k (put j v m) ≡ (text_eq j k || has_key k m)
has_key-put k j v [] = ground arith
has_key-put k j v ((i, w) ∷ m) = ground (arith, has_key-put k j v m, text_eq_iff i j)

has_key-pop :
    (k j : Text) (m : List (Text × ActiveItem))
    → has_key k (pop j m) ≡ (not (text_eq j k) && has_key k m)
has_key-pop k j [] = ground arith
has_key-pop k j ((i, w) ∷ m) =
    ground (arith, has_key-pop k j m, text_eq_iff i j, text_eq_iff j k, text_eq_iff i k)

or_if : (b h : Bool) → (b || h) ≡ (if not b then h else true)
or_if true h = refl
or_if false h = refl

and_if : (b h : Bool) → (not b && h) ≡ (if not b then h else false)
and_if true h = refl
and_if false h = refl

same_if : (b h : Bool) → h ≡ (if not b then h else h)
same_if true h = refl
same_if false h = refl

-- A function behind the test that a value is a dictionary.
on_object :
    (f : Fields → Diagnostics) (z : Diagnostics) (g : Diagnostics → Bool) (h : Fields → Bool)
    (w : Bool)
    → ((item : Fields) → g (f item) ≡ h item)
    → g z ≡ w
    → (j : Json)
    → g (elim j [ object item ↦ f item | _ ↦ z ]) ≡ (elim j [ object item ↦ h item | _ ↦ w ])
on_object f z g h w e e' null = e'
on_object f z g h w e e' (flag b) = e'
on_object f z g h w e e' (number is_zero t) = e'
on_object f z g h w e e' (string t) = e'
on_object f z g h w e e' (array xs) = e'
on_object f z g h w e e' (object item) = e item

module _ (py_str : Json → Text) where
  -- Whether the item of a key is open behind a notification, if it was `open` before.
  abbrev pub still_open : Text → Notification → Bool → Bool
  still_open k note before = elim (get "item" note.params) [
    | object item ↦
        if not (text_eq (item_key py_str item) k)
        then before
        else if text_eq note.method (codes "item/started")
        then true
        else if text_eq note.method (codes "item/completed")
        then false
        else before
    | _ ↦ before
  ]

  abbrev pub open_behind : Text → List Notification → Bool → Bool
  open_behind k [] before = before
  open_behind k (note ∷ notes) before = open_behind k notes (still_open k note before)

  pub absorb_all_raw : (now : ℕ) → List Notification → Diagnostics → Diagnostics
  absorb_all_raw now [] d = d
  absorb_all_raw now (note ∷ notes) d = absorb_all_raw now notes (absorb_raw py_str now note d)

  item-active :
      (k : Text) (now : ℕ) (method : Text) (item : Fields) (d : Diagnostics)
      → has_key k (absorb_item py_str now method item d).active_items ≡ (
          if not (text_eq (item_key py_str item) k)
          then has_key k d.active_items
          else if text_eq method (codes "item/started")
          then true
          else if text_eq method (codes "item/completed")
          then false
          else has_key k d.active_items)
  unfolding absorb_item
  item-active k now method item d = elim (Bool-cases (text_eq method (codes "item/started"))) [
    | inl start ↦
        rw (start, absorb_item)
          (has_key-put k (item_key py_str item) _ d.active_items
            ∙ or_if (text_eq (item_key py_str item) k) (has_key k d.active_items))
    | inr other ↦ elim (Bool-cases (text_eq method (codes "item/completed"))) [
      | inl done ↦
          rw (other, done, absorb_item)
            (has_key-pop k (item_key py_str item) d.active_items
              ∙ and_if (text_eq (item_key py_str item) k) (has_key k d.active_items))
      | inr neither ↦
          rw (other, neither, absorb_item)
            (same_if (text_eq (item_key py_str item) k) (has_key k d.active_items))
    ]
  ]

  note-active :
      (k : Text) (now : ℕ) (note : Notification) (d : Diagnostics)
      → has_key k (absorb_raw py_str now note d).active_items
        ≡ still_open k note (has_key k d.active_items)
  unfolding absorb_raw
  note-active k now note d =
      let counted = counted_raw now note d in
      on_object (λ item. absorb_item py_str now note.method item counted) counted
        (λ r. has_key k r.active_items) _ (has_key k d.active_items)
        (λ item. item-active k now note.method item counted) refl (get "item" note.params)

  -- An item is active exactly if the last notification that started or completed an item of its key
  -- was a start; a key that none of them names is active if it was to begin with.
  pub active_items_lem :
      (k : Text) (now : ℕ) (notes : List Notification) (d : Diagnostics)
      → has_key k (absorb_all_raw now notes d).active_items
        ≡ open_behind k notes (has_key k d.active_items)
  unfolding absorb_all_raw
  active_items_lem k now [] d = refl
  active_items_lem k now (note ∷ notes) d =
      active_items_lem k now notes (absorb_raw py_str now note d)
      ∙ ap (open_behind k notes) (note-active k now note d)
