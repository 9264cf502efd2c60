-- ===== src/Codex/Turn/Stream.antt =====
-- What `run_turn` yields: at most one final event, as the last one, and the streamed text.
use mathlib.Core.List.{append-nil}
use codex_server.Base.{
  ◌==◌, ◌&&◌, leb, ℕ, suc, ◌+◌, ◌≡◌, refl, ap, sym, ◌∙◌, Bool, Option, none, some, List, [], ◌∷◌,
  ◌++◌, arith, count, count-append, if◌then◌else◌, Bool-cases, Option-cases, inl, inr, ◌⊎◌,
}
use codex_server.Base.Text.{Text}
use codex_server.Codex.Json.{Json}
use codex_server.Codex.Events.{
  ChatEvent, token_event, tool_call_event, tool_result_event, done_event, error_event,
}
use codex_server.Codex.Collector.{StreamCollector, empty, absorb, absorb_all}
use codex_server.Codex.Translate.{Notification, translate_notification}
use codex_server.Codex.Turn.{
  Progress, begin, Outcome, finished, stale_storm, is_final, text_of, yielded, take_note, on_note,
  run_notes, is_account_note, is_stale_turn_note, is_session_noise_note,
}

-- How many final events there are, by how the call goes on or ends.
abbrev pub finals : Option Outcome → ℕ
finals (some finished) = 1
finals _ = 0

-- The collector's buffer behind the events is the text streamed so far.
abbrev IsInStep : Progress → Type 0
IsInStep p = (absorb_all p.events empty).buffer ≡ p.accumulated

absorb_all-append :
    (es : List ChatEvent) (e : ChatEvent) (c : StreamCollector)
    → absorb_all (es ++ e ∷ []) c ≡ absorb e (absorb_all es c)
unfolding absorb_all
absorb_all-append [] e c = refl
absorb_all-append (d ∷ es) e c = absorb_all-append es e (absorb d c)

absorb-buffer : (e : ChatEvent) (c : StreamCollector) → (absorb e c).buffer ≡ c.buffer ++ text_of e
unfolding absorb
absorb-buffer (token_event delta) c = refl
absorb-buffer (tool_call_event name args) c = sym (append-nil c.buffer)
absorb-buffer (tool_result_event name text files error) c = sym (append-nil c.buffer)
absorb-buffer (done_event text) c = sym (append-nil c.buffer)
absorb-buffer (error_event code detail) c = sym (append-nil c.buffer)

yielded-IsInStep : (e : ChatEvent) (p : Progress) → IsInStep p → IsInStep (yielded e p)
yielded-IsInStep e p h =
    ap (λ c. c.buffer) (absorb_all-append p.events e empty)
    ∙ absorb-buffer e (absorb_all p.events empty)
    ∙ ap (λ t. t ++ text_of e) h

-- What a step from `p` keeps.
abbrev Kept : Progress → Option Outcome × Progress → Type 0
Kept p (stop, p') = IsInStep p' × (count is_final p'.events ≡ count is_final p.events + finals stop)

yielded-finals :
    (e : ChatEvent) (p : Progress)
    → count is_final (yielded e p).events
      ≡ count is_final p.events + finals (if is_final e then some finished else none)
yielded-finals e p = ground (arith, count-append is_final p.events (e ∷ []))

storm-finals :
    (b : Bool) (p : Progress)
    → count is_final p.events
      ≡ count is_final p.events + finals (if b then some stale_storm else none)
storm-finals b p = ground arith

pub Translation-cases :
    (t : Option (Option ChatEvent))
    → (t ≡ none) ⊎ (t ≡ some none) ⊎ ((e : ChatEvent) × (t ≡ some (some e)))
Translation-cases none = inl refl
Translation-cases (some none) = inr (inl refl)
Translation-cases (some (some e)) = inr (inr (e, refl))

module _ (py_str : Json → Text) (guess_type : Text → Option Text) (loads : Text → Option Json)
    (storm_threshold : ℕ) where
  take_note-Kept :
      (note : Notification) (p : Progress)
      → IsInStep p
      → Kept p (take_note py_str guess_type loads storm_threshold note p)
  unfolding take_note
  take_note-Kept note p h =
      elim (Translation-cases (translate_notification py_str guess_type loads note p.accumulated)) [
        | inl e ↦ rw (e, take_note) (h, omega arith)
        | inr (inl e) ↦ rw (e, take_note) (h, omega arith)
        | inr (inr (event, e)) ↦
            rw (e, take_note) (yielded-IsInStep event p h, yielded-finals event p)
      ]

  on_note-Kept :
      (current : Text) (note : Notification) (p : Progress)
      → IsInStep p
      → Kept p (on_note py_str guess_type loads storm_threshold current note p)
  unfolding on_note
  on_note-Kept current note p h = elim (Bool-cases (is_account_note note)) [
    | inl account ↦ rw (account, on_note) (h, omega arith)
    | inr other ↦ elim (Bool-cases (is_stale_turn_note current note)) [
      | inl stale ↦
          rw (other, stale, on_note)
            (h, storm-finals (p.raw_count == 0 && leb storm_threshold (suc p.stale_raw_count)) p)
      | inr own ↦ elim (Bool-cases (is_session_noise_note note)) [
        | inl noise ↦ rw (other, own, noise, on_note) (h, omega arith)
        | inr turn ↦ rw (other, own, turn, on_note) (take_note-Kept note p h)
      ]
    ]
  ]

  run_notes-Kept :
      (current : Text) (notes : List Notification) (p : Progress)
      → IsInStep p
      → let (outcome, p') = run_notes py_str guess_type loads storm_threshold current notes p in
        Kept p (some outcome, p')
  unfolding run_notes
  run_notes-Kept current [] p h = (h, omega arith)
  run_notes-Kept current (note ∷ notes) p h =
      let r = on_note py_str guess_type loads storm_threshold current note p in
      let (h', n) = on_note-Kept current note p h in
      elim (Option-cases r.0) [
        | inl more ↦
            let (h'', n') = run_notes-Kept current notes r.1 h' in
            rw (more, run_notes) (h'', omega (arith, n', n, ap finals more))
        | inr (outcome, stop) ↦ rw (stop, run_notes) (h', omega (arith, n, ap finals stop))
      ]

  -- For any notifications: the call yields exactly one final event if it ends behind a final event,
  -- and none if it ends otherwise (with the queue closed, with the storm of another turn's
  -- notifications, with an exception of the translation). The text that it compares completed
  -- messages with is the buffer that a collector builds of the events.
  pub run_notes_lem :
      (current : Text) (notes : List Notification)
      → let (outcome, p) = run_notes py_str guess_type loads storm_threshold current notes begin in
        (count is_final p.events ≡ finals (some outcome))
        × ((absorb_all p.events empty).buffer ≡ p.accumulated)
  unfolding absorb_all
  run_notes_lem current notes =
      let (h, n) = run_notes-Kept current notes begin (unfold absorb_all in refl) in
      (omega (arith, n), h)
