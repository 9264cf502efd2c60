-- ===== src/Codex/Turn.antt =====
-- app/services/codex/turn.py: the notifications of a turn, from the app-server's queue to the typed
-- events of `run_turn`, and the idle decision of app/services/codex/idle.py. A queue is the list of
-- the notifications that arrive before it closes; the callbacks return.
pub mod Stream
pub mod Filter
use codex_server.Base.{
  ℕ, suc, ◌+◌, Bool, true, false, ◌&&◌, ◌||◌, not, Option, none, some, List, [], ◌∷◌, ◌++◌,
  if◌then◌else◌, is_some, leb, ◌==◌,
}
use codex_server.Base.Text.{Text, codes, text_eq, strip_prefix}
use codex_server.Codex.Json.{Json}
use codex_server.Codex.Events.{ChatEvent, token_event, done_event, error_event}
use codex_server.Codex.Translate.{Notification, translate_notification}

pub data IdleDecision : Type 0 where
  hard_cap_exceeded needs_probe extend_silently : IdleDecision

unfoldable pub decide_idle :
    (now : ℕ) (turn_started_at : Option ℕ) (has_active_items : Bool) (last_idle_probe_at : Option ℕ)
    (hard_cap probe_interval : ℕ)
    → IdleDecision
decide_idle now started active probed hard_cap interval =
    if elim started [ none ↦ false | some t ↦ leb (t + hard_cap) now ]
    then hard_cap_exceeded
    else if not active
    then needs_probe
    else elim probed [
      | none ↦ needs_probe
      | some t ↦ if leb (t + interval) now then needs_probe else extend_silently
    ]

-- `_handle_account_notification` answers True.
abbrev pub is_account_note : Notification → Bool
is_account_note note =
    text_eq note.method (codes "account/rateLimits/updated")
    || text_eq note.method (codes "thread/tokenUsage/updated")

-- The turn runs, so `_current_turn_id` is set.
abbrev pub is_stale_turn_note : Text → Notification → Bool
is_stale_turn_note current note = elim note.turn_id [
  | none ↦ false
  | some id ↦ not (text_eq id current)
]

abbrev pub is_session_noise_note : Notification → Bool
is_session_noise_note note =
    not (is_some note.turn_id)
    && not (text_eq note.method (codes "turn/completed"))
    && not (is_some (strip_prefix (codes "item/") note.method))

-- The counters of `TurnDiagnostics` that the turn looks at, the text streamed so far, and the events
-- yielded, oldest first.
pub record Progress : Type 0 where
  pub raw_count : ℕ
  pub stale_raw_count : ℕ
  pub noise_raw_count : ℕ
  pub accumulated : Text
  pub events : List ChatEvent

abbrev pub begin : Progress
begin = record {
  raw_count = 0;
  stale_raw_count = 0;
  noise_raw_count = 0;
  accumulated = [];
  events = [];
}

-- How `run_turn` ends: behind a final event, with the queue closed, with `StaleTurnStreamError`, or
-- with an exception of the translation.
pub data Outcome : Type 0 where
  finished closed stale_storm failed_translation : Outcome

abbrev pub is_final : ChatEvent → Bool
is_final (done_event text) = true
is_final (error_event code detail) = true
is_final _ = false

abbrev pub text_of : ChatEvent → Text
text_of (token_event delta) = delta
text_of _ = []

abbrev pub yielded : ChatEvent → Progress → Progress
yielded event p = record p {
  accumulated = p.accumulated ++ text_of event;
  events = p.events ++ event ∷ [];
}

module _ (py_str : Json → Text) (guess_type : Text → Option Text) (loads : Text → Option Json)
    (storm_threshold : ℕ) where
  -- A notification of the turn itself.
  pub take_note : Notification → Progress → Option Outcome × Progress
  take_note note p =
      let p' = record p { raw_count = suc p.raw_count } in
      elim (translate_notification py_str guess_type loads note p.accumulated) [
        | none ↦ (some failed_translation, p')
        | some none ↦ (none, p')
        | some (some event) ↦ (if is_final event then some finished else none, yielded event p')
      ]

  -- One notification of the queue.
  pub on_note : (current : Text) → Notification → Progress → Option Outcome × Progress
  unfolding take_note
  on_note current note p =
      if is_account_note note
      then (none, p)
      else if is_stale_turn_note current note
      then (
        if p.raw_count == 0 && leb storm_threshold (suc p.stale_raw_count)
            then some stale_storm
            else none,
        record p { stale_raw_count = suc p.stale_raw_count },
      )
      else if is_session_noise_note note
      then (none, record p { noise_raw_count = suc p.noise_raw_count })
      else take_note note p

  unfoldable pub run_notes : (current : Text) → List Notification → Progress → Outcome × Progress
  unfolding on_note
  run_notes current [] p = (closed, p)
  run_notes current (note ∷ notes) p =
      let (stop, p') = on_note current note p in
      let rest = run_notes current notes p' in
      elim stop [ none ↦ rest | some outcome ↦ (outcome, p') ]
