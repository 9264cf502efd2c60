-- ===== src/Codex/Diagnostics/Selected.antt =====
-- The active item that is shown: `selected_active_item` and its ranks.
use mathlib.Core.Path.{subst}
use codex_server.Base.{
  ◌⊎◌, sym, ℕ, ◌≡◌, refl, Bool, true, false, ◌&&◌, ◌||◌, not, Option, none, some, List, [], ◌∷◌,
  All, arith, if◌then◌else◌, ltb, ◌==◌, map, Bool-cases, inl, inr, ◌⊎◌,
}
use codex_server.Base.Text.{Text, codes, text_eq}
use codex_server.Codex.Diagnostics.{ActiveItem, Diagnostics}

abbrev is_one_of : List Text → Text → Bool
is_one_of [] t = false
is_one_of (u ∷ us) t = text_eq t u || is_one_of us t

abbrev is_some_of : List Text → Option Text → Bool
is_some_of us none = false
is_some_of us (some t) = is_one_of us t

pub active_item_priority : Option Text → Option Text → ℕ
active_item_priority type tool =
    if is_some_of
      (codes "commandExecution"
        ∷ codes "mcpToolCall"
        ∷ codes "dynamicToolCall"
        ∷ codes "webSearch"
        ∷ codes "imageGeneration"
        ∷ codes "fileChange"
        ∷ [])
      type
    then 30
    else if elim tool [
      | none ↦ false
      | some t ↦
          not (is_one_of (codes "reasoning" ∷ codes "agentMessage" ∷ codes "userMessage" ∷ []) t)
    ]
    then 20
    else if is_some_of (codes "agentMessage" ∷ []) type
    then 10
    else if is_some_of (codes "reasoning" ∷ []) type
    then 5
    else 0

abbrev pub priority : ActiveItem → ℕ
priority (type, tool, started) = active_item_priority type tool

-- `active_item_rank(x) > active_item_rank(y)`: the rank is the priority, then the age.
abbrev pub outranks : ActiveItem → ActiveItem → Bool
outranks x y = ltb (priority y) (priority x) || (priority x == priority y && ltb x.2 y.2)

-- `max` keeps the first of the best.
pub best : ActiveItem → List ActiveItem → ActiveItem
best b [] = b
best b (x ∷ xs) = best (if outranks x b then x else b) xs

abbrev pub values : Diagnostics → List ActiveItem
values d = map (λ e. e.1) d.active_items

abbrev pub shown : List ActiveItem → Option ActiveItem
shown [] = none
shown (x ∷ xs) = some (best x xs)

-- `none` is the triple of `None`.
pub selected_active_item : Diagnostics → Option ActiveItem
unfolding best
selected_active_item d = shown (values d)

kept : (x y z : ActiveItem) → outranks x y ≡ false → outranks y z ≡ false → outranks x z ≡ false
kept x y z h k = ground arith

strict : (x y : ActiveItem) → outranks x y ≡ true → outranks y x ≡ false
strict x y h = ground arith

same : (x : ActiveItem) → outranks x x ≡ false
same x = ground arith

-- Neither the first nor any of the others outranks this one.
abbrev Top : ActiveItem → List ActiveItem → ActiveItem → Type 0
Top b xs t = (outranks b t ≡ false) × All (λ x. outranks x t ≡ false) xs

best-Top : (b : ActiveItem) (xs : List ActiveItem) → Top b xs (best b xs)
unfolding best
best-Top b [] = (same b, tt)
best-Top b (x ∷ xs) = elim (Bool-cases (outranks x b)) [
  | inl more ↦
      let (h, hs) = best-Top x xs in
      subst (λ y. Top b (x ∷ xs) (best y xs)) (sym (rw more refl))
        (kept b x (best x xs) (strict x b more) h, (h, hs))
  | inr less ↦
      let (h, hs) = best-Top b xs in
      subst (λ y. Top b (x ∷ xs) (best y xs)) (sym (rw less refl))
        (h, (kept x b (best b xs) less h, hs))
]

shown-Top :
    (xs : List ActiveItem)
    → ((xs ≡ []) × (shown xs ≡ none))
      ⊎ ((item : ActiveItem) × (shown xs ≡ some item) × All (λ x. outranks x item ≡ false) xs)
shown-Top [] = inl (refl, refl)
shown-Top (x ∷ xs) = inr (best x xs, refl, best-Top x xs)

-- No active item outranks the one that is shown: none has a higher priority, and none of the same
-- priority started earlier. With no active item, none is shown.
pub selected_active_item_lem :
    (d : Diagnostics)
    → ((values d ≡ []) × (selected_active_item d ≡ none))
      ⊎ ((item : ActiveItem) × (selected_active_item d ≡ some item)
          × All (λ x. outranks x item ≡ false) (values d))
unfolding selected_active_item
selected_active_item_lem d = shown-Top (values d)
