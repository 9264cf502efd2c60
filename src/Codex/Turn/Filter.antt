-- ===== src/Codex/Turn/Filter.antt =====
-- The notifications of other turns: they are not seen, but for the storm.
use codex_server.Base.{
  ℕ, suc, ◌+◌, ◌≤◌, ◌<◌, ◌≡◌, refl, ap, ◌∙◌, Bool, true, false, ◌&&◌, not, Option, none, some, List,
  [], ◌∷◌, arith, length, if◌then◌else◌, Bool-cases, inl, inr, All, leb,
}
use codex_server.Base.Text.{Text}
use codex_server.Codex.Json.{Json}
use codex_server.Codex.Translate.{Notification}
use codex_server.Codex.Turn.{
  Progress, begin, Outcome, stale_storm, on_note, run_notes, is_account_note, is_stale_turn_note,
  is_session_noise_note,
}

-- The notifications that reach the translation.
abbrev pub is_own_note : Text → Notification → Bool
is_own_note current note =
    not (is_account_note note)
    && not (is_stale_turn_note current note)
    && not (is_session_noise_note note)

-- Other counts of ignored notifications.
abbrev with_ignored : (stale noise : ℕ) → Progress → Progress
with_ignored stale noise p = record p { stale_raw_count = stale; noise_raw_count = noise }

with_first : (r : Option Outcome × Progress) (o : Option Outcome) → r.0 ≡ o → r ≡ (o, r.1)
with_first r o e = ap (λ x. (x, r.1)) e

module _ (py_str : Json → Text) (guess_type : Text → Option Text) (loads : Text → Option Json)
    (storm_threshold : ℕ) where
  abbrev runs : Text → List Notification → Progress → Outcome × Progress
  runs current notes p = run_notes py_str guess_type loads storm_threshold current notes p

  after : Text → List Notification → Option Outcome × Progress → Outcome × Progress
  after current notes r = elim r.0 [ none ↦ runs current notes r.1 | some outcome ↦ (outcome, r.1) ]

  runs-after :
      (current : Text) (note : Notification) (notes : List Notification) (p : Progress)
      (r : Option Outcome × Progress)
      → on_note py_str guess_type loads storm_threshold current note p ≡ r
      → runs current (note ∷ notes) p ≡ after current notes r
  unfolding run_notes after
  runs-after current note notes p r e = ap (after current notes) e

  abbrev pub IsStale : Text → Notification → Type 0
  IsStale current note = (is_account_note note ≡ false) × (is_stale_turn_note current note ≡ true)

  counted :
      (current : Text) (note : Notification) (p : Progress)
      → IsStale current note
      → p.raw_count ≡ 0
      → on_note py_str guess_type loads storm_threshold current note p ≡ (
        (if leb storm_threshold (suc p.stale_raw_count) then some stale_storm else none),
        record p { stale_raw_count = suc p.stale_raw_count },
      )
  unfolding on_note
  counted current note p h fresh = rw (h.0, h.1, fresh, on_note) refl

  storms :
      (current : Text) (notes : List Notification) (p : Progress)
      → All (IsStale current) notes
      → p.raw_count ≡ 0
      → 0 < length notes
      → storm_threshold ≤ length notes + p.stale_raw_count
      → ((runs current notes p).0 ≡ stale_storm) × ((runs current notes p).1.events ≡ p.events)
  unfolding after
  storms current [] p h fresh some_notes many = absurd (omega (arith, some_notes))
  storms current (note ∷ notes) p h fresh some_notes many =
      let p' : Progress = record p { stale_raw_count = suc p.stale_raw_count } in
      let e = counted current note p h.0 fresh in
      elim (Bool-cases (leb storm_threshold (suc p.stale_raw_count))) [
        | inl storm ↦
            rw
              (runs-after current note notes p _
                (e ∙ with_first _ (some stale_storm) (rw storm refl)))
              (refl, refl)
        | inr calm ↦
            rw (runs-after current note notes p _ (e ∙ with_first _ none (rw calm refl)))
              (storms current notes p' h.1 fresh (ground arith) (ground arith))
      ]

  -- A turn that sees only notifications of other turns, as many as the threshold, ends with
  -- `StaleTurnStreamError`, and yields nothing.
  pub stale_notes-storm :
      (current : Text) (notes : List Notification)
      → All (IsStale current) notes
      → 0 < length notes
      → storm_threshold ≤ length notes
      → let r = run_notes py_str guess_type loads storm_threshold current notes begin in
        (r.0 ≡ stale_storm) × (r.1.events ≡ [])
  stale_notes-storm current notes h some_notes many =
      storms current notes begin h refl some_notes (omega arith)
