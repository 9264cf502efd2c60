-- ===== src/Codex/Json.antt =====
-- JSON values as Python holds them after parsing: a text is a list of code points, a number is its
-- literal and whether it is zero. Missing keys and failed validations raise: they are `none`.
use codex_server.Base.{Bool, true, false, not, Option, none, some, String, [], ◌∷◌, if◌then◌else◌}
use codex_server.Base.Text.{Text, text_eq}
use text.Mathlib.Text.{◌==◌}

mutual
  pub data Json : Type 0 where
    null : Json
    flag : Bool → Json
    number : (is_zero : Bool) → Text → Json
    string : Text → Json
    array : Items → Json
    object : Fields → Json

  pub data Items : Type 0 where
    nil : Items
    cons : Json → Items → Items

  pub data Fields : Type 0 where
    end : Fields
    field : String → Json → Fields → Fields

infixl 5 ◌>>=◌
abbrev pub ◌>>=◌ {ℓ κ} : {A : Type ℓ} {B : Type κ} → Option A → (A → Option B) → Option B
none >>= f = none
some a >>= f = f a

-- `d[key]`.
abbrev pub at : String → Fields → Option Json
at key end = none
at key (field k v d) = let rest = at key d in if k == key then some v else rest

-- `d.get(key, default)`, and `d.get(key)`.
abbrev pub get_or : Json → String → Fields → Json
get_or default key d = elim (at key d) [ none ↦ default | some v ↦ v ]

abbrev pub get : String → Fields → Json
get = get_or null

-- The truth of a value.
abbrev pub is_truthy : Json → Bool
is_truthy null = false
is_truthy (flag b) = b
is_truthy (number is_zero literal) = not is_zero
is_truthy (string []) = false
is_truthy (string (c ∷ t)) = true
is_truthy (array nil) = false
is_truthy (array (cons x xs)) = true
is_truthy (object end) = false
is_truthy (object (field k v d)) = true

-- What the validation of a `str` field, and of a `dict` field, lets through.
abbrev pub as_text : Json → Option Text
as_text (string t) = some t
as_text _ = none

abbrev pub as_dict : Json → Option Fields
as_dict (object d) = some d
as_dict _ = none

abbrev pub as_items : Json → Option Items
as_items (array xs) = some xs
as_items _ = none

-- A `str | None` field.
abbrev pub as_text_or_none : Json → Option (Option Text)
as_text_or_none null = some none
as_text_or_none (string t) = some (some t)
as_text_or_none _ = none

abbrev pub or_else : Json → Json → Json
or_else v w = if is_truthy v then v else w

abbrev pub is_string : Text → Json → Bool
is_string t (string s) = text_eq s t
is_string t _ = false
