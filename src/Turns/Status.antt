-- ===== src/Turns/Status.antt =====
-- The statuses of a turn (app/models/enums.py) and the reading of the sidecar's status words
-- (app/services/turns/status_map.py).
use text.Mathlib.Text.{◌==◌}
use codex_server.Base.{String, Bool, true, false, Option, none, some, if◌then◌else◌}

pub data TurnStatus : Type 0 where
  starting running completed failed cancelled : TurnStatus

-- `status IN ('STARTING', 'RUNNING')`.
abbrev pub is_active : TurnStatus → Bool
is_active starting = true
is_active running = true
is_active _ = false

-- `TURN_TERMINAL_STATUSES`.
abbrev pub is_terminal : TurnStatus → Bool
is_terminal completed = true
is_terminal failed = true
is_terminal cancelled = true
is_terminal _ = false

abbrev pub is_starting : TurnStatus → Bool
is_starting starting = true
is_starting _ = false

pub data CodexThreadStatus : Type 0 where
  active idle not_loaded : CodexThreadStatus

unfoldable pub turn_status_map : String → Option TurnStatus
turn_status_map raw =
    if raw == "inProgress"
    then some running
    else if raw == "completed"
    then some completed
    else if raw == "interrupted"
    then some cancelled
    else if raw == "failed"
    then some failed
    else none

unfoldable pub map_codex_turn_status : Option String → Option TurnStatus
unfolding turn_status_map
map_codex_turn_status none = none
map_codex_turn_status (some raw) = turn_status_map raw

unfoldable pub map_codex_thread_status : Option String → Option CodexThreadStatus
map_codex_thread_status none = none
map_codex_thread_status (some raw) =
    if raw == "active"
    then some active
    else if raw == "idle"
    then some idle
    else if raw == "notLoaded"
    then some not_loaded
    else none
