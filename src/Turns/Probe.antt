-- ===== src/Turns/Probe.antt =====
-- `probe_or_extend_idle` of app/services/turns/probe.py: what a silent turn is told by the sidecar.
use text.Mathlib.Text.{◌==◌}
use Prim.Native.String.{◌++◌ as str_append}
use codex_server.Base.{
  String, ◌≡◌, refl, ◌⊎◌, inl, inr, Bool, true, false, Option, none, some, if◌then◌else◌,
  Bool-cases,
}
use codex_server.Turns.Status.{
  TurnStatus, running, completed, failed, cancelled, is_terminal, map_codex_turn_status,
  turn_status_map,
}

-- The answer of `client.probe_turn_status`, which may raise.
pub data Answer : Type 0 where
  raises : Answer
  says : Option String → Answer

-- True, False, and `CodexTurnTerminal` with its status, code and detail.
pub data Probe : Type 0 where
  extends falls_through : Probe
  terminal : TurnStatus → Option String → Option String → Probe

abbrev is_running : TurnStatus → Bool
is_running running = true
is_running _ = false

abbrev pub is_completed : TurnStatus → Bool
is_completed completed = true
is_completed _ = false

pub probe_or_extend_idle : (has_turn : Bool) → Answer → Probe
probe_or_extend_idle false answer = falls_through
probe_or_extend_idle true raises = falls_through
probe_or_extend_idle true (says none) = falls_through
probe_or_extend_idle true (says (some raw)) =
    if raw == "inProgress" then extends else elim (map_codex_turn_status (some raw)) [
      | none ↦ falls_through
      | some status ↦
          if is_running status
          then falls_through
          else terminal status
              (if is_completed status then none else some (str_append "codex_reported_" raw))
              (some raw)
    ]

-- The probe of a known turn lets it go on exactly for `inProgress`, ends it with a terminal status
-- for `completed`, `interrupted` and `failed`, and says nothing for any other word.
pub probe_or_extend_idle_lem :
    (raw : String)
    → ((raw == "inProgress" ≡ true) × (probe_or_extend_idle true (says (some raw)) ≡ extends))
      ⊎ ((status : TurnStatus) × (raw == "inProgress" ≡ false)
          × (map_codex_turn_status (some raw) ≡ some status)
          × (is_terminal status ≡ true)
          × (probe_or_extend_idle true (says (some raw))
              ≡ terminal status
                  (if is_completed status then none else some (str_append "codex_reported_" raw))
                  (some raw)))
      ⊎ ((map_codex_turn_status (some raw) ≡ none)
          × (probe_or_extend_idle true (says (some raw)) ≡ falls_through))
unfolding probe_or_extend_idle map_codex_turn_status turn_status_map
probe_or_extend_idle_lem raw = elim (Bool-cases (raw == "inProgress")) [
  | inl busy ↦ inl (busy, rw busy refl)
  | inr idle ↦ elim (Bool-cases (raw == "completed")) [
    | inl e ↦ inr (inl (completed, idle, rw (idle, e) refl, refl, rw (idle, e) refl))
    | inr c ↦ elim (Bool-cases (raw == "interrupted")) [
      | inl e ↦ inr (inl (cancelled, idle, rw (idle, c, e) refl, refl, rw (idle, c, e) refl))
      | inr i ↦ elim (Bool-cases (raw == "failed")) [
        | inl e ↦ inr (inl (failed, idle, rw (idle, c, i, e) refl, refl, rw (idle, c, i, e) refl))
        | inr f ↦ inr (inr (rw (idle, c, i, f) refl, rw (idle, c, i, f) refl))
      ]
    ]
  ]
]
