-- ===== src/Turns/Runner.antt =====
-- `execute_turn_inner` and `_build_terminal_event` of app/services/turns/runner.py: one delivery of
-- a turn to a worker. What the outside decides comes as a `Delivery`: the fate of each Redis call,
-- the events of `stream_turn` with what becomes of each, how the stream ends, what becomes of the
-- session that finalizes the turn, the calls of other parties on the `turns` table meanwhile (the
-- `mark_running` of the started stream, its heartbeats, a recovery), and what others do to the keys
-- of Redis while the stream runs and between the two releases.
pub mod Rounds
pub mod Delivered
pub mod Keys
pub mod Concluded
pub mod Owned
pub mod Streamed
use codex_server.Base.{
  ℕ, suc, String, Bool, true, false, ◌&&◌, not, Option, none, some, List, [], ◌∷◌, ◌++◌,
  if◌then◌else◌, find?, ◌||◌, is_some,
}
use text.Mathlib.Text.{◌==◌ as str_eq}
use Prim.Native.String.{◌++◌ as str_append}
use codex_server.Base.Text.{Text}
use codex_server.Redis.{Redis, Net, executed}
use codex_server.Turns.Status.{TurnStatus, completed, failed, cancelled, is_terminal}
use codex_server.Turns.Table.{Turn, has_id, get_by_id}
use codex_server.Turns.Table.Run.{Op, notes_event, finalizes, Store, step, run}
use codex_server.Turns.Lease.{Process, acquire, release, lease_ttl_s, is_fine}
use codex_server.Turns.Locks.{
  LockAcquireOutcome, acquired, redelivery, active_busy, enter_turn_locks, exit_turn_locks,
}

-- Another party takes a key that is free, or a key goes (it runs out, or its holder gives it back).
pub data KeyChange : Type 0 where
  takes : (key value : Text) → KeyChange
  goes : (key : Text) → KeyChange

-- An event of the stream, as far as the runner looks at it.
pub data StreamEvent : Type 0 where
  done : String → StreamEvent
  error : String → Option String → StreamEvent
  other : String → StreamEvent

-- What becomes of an event: it is published under an id and noted on the turn, or the `XADD` of the
-- publish raises, or with the event on the stream the `EXPIRE` of the publish raises, or the note on
-- the turn does.
pub data Fate : Type 0 where
  delivered : String → Fate
  publish_raises expire_raises note_raises : String → Fate

pub record Item : Type 0 where
  pub ownership_lost : Bool
  pub event : StreamEvent
  pub fate : Fate

-- How the stream ends behind its events: by itself, by a cancellation, by another exception.
pub data Ending : Type 0 where
  ends is_cancelled : Ending
  raises : String → Ending

pub record Delivery : Type 0 where
  pub turn_id : ℕ
  pub now : ℕ
  pub user_found : Bool
  pub worker_id : Text
  pub lock_set : Net
  pub lock_get : Net
  pub lock_release : Net
  pub lease_set : Net
  pub lease_release : Net
  pub items : List Item
  pub ending : Ending
  pub crash_publish : Net
  pub last_published : Bool
  pub meanwhile : List Op
  pub keys_running : List KeyChange
  pub keys_leaving : List KeyChange
  pub finalization : Net
  pub slot_release : Net

-- The local variables of the call.
pub record Local : Type 0 where
  pub was_cancelled : Bool
  pub terminal_status : Option TurnStatus
  pub terminal_error : Option String × Option String
  pub terminal_published : Bool
  pub redelivery_skip : Bool

abbrev pub start : Local
start = record {
  was_cancelled = false;
  terminal_status = none;
  terminal_error = (none, none);
  terminal_published = false;
  redelivery_skip = false;
}

-- The events on the turn's stream and the notes on its row, oldest first.
pub record Output : Type 0 where
  pub stream : List StreamEvent
  pub notes : List Op

abbrev pub or_codex_error : String → String
or_codex_error code = if str_eq code "" then "codex_error" else code

-- `kind in ("done", "error")`.
absorb_terminal : StreamEvent → Local → Local
absorb_terminal (done text) l = record l {
  terminal_published = true;
  terminal_status = some completed;
}
absorb_terminal (error code detail) l = record l {
  terminal_published = true;
  terminal_status = some failed;
  terminal_error = (some (or_codex_error code), detail);
}
absorb_terminal (other kind) l = l

ownership_failed : Local → Local
ownership_failed l = record l {
  terminal_status = some failed;
  terminal_error = (some "ownership_lost", some "heartbeat/lease CAS failed mid-stream");
}

cancelled_out : Local → Local
cancelled_out l = record l { was_cancelled = true; terminal_status = some cancelled }

abbrev pub background_crashed : String → String
background_crashed exc = str_append "background crashed: " exc

-- The `except Exception` branch, with the publish of the crash.
crashed : (publish : Net) → String → Local × Output → Local × Output
crashed publish exc (l, out) = (
  record l {
    terminal_status = some failed;
    terminal_error = (some "codex_error", some (background_crashed exc));
    terminal_published = if is_fine publish then true else l.terminal_published;
  },
  record out {
    stream =
        if executed publish
        then out.stream ++ error "codex_error" (some (background_crashed exc)) ∷ []
        else out.stream;
  },
)

finish : (crash_publish : Net) → Ending → Local × Output → Local × Output
unfolding crashed cancelled_out
finish crash_publish ends (l, out) = (l, out)
finish crash_publish is_cancelled (l, out) = (cancelled_out l, out)
finish crash_publish (raises exc) s = crashed crash_publish exc s

-- One round of the loop: whether it goes on, and the state behind it.
pub handle : (turn_id : ℕ) (crash_publish : Net) → Item → Local × Output → Bool × (Local × Output)
unfolding absorb_terminal ownership_failed crashed
handle turn_id crash item (l, out) =
    let published = record out { stream = out.stream ++ item.event ∷ [] } in
    if item.ownership_lost then (false, (ownership_failed l, out)) else elim item.fate [
      | delivered id ↦ (
        true,
        (
          absorb_terminal item.event l,
          record published { notes = out.notes ++ notes_event turn_id id ∷ [] },
        ),
      )
      | publish_raises exc ↦ (false, crashed crash exc (l, out))
      | expire_raises exc ↦ (false, crashed crash exc (l, published))
      | note_raises exc ↦ (false, crashed crash exc (l, published))
    ]

-- The loop over the stream, to the end of the `try` statement's handlers.
pub consume :
    (turn_id : ℕ) (crash_publish : Net) → List Item → Ending → Local × Output → Local × Output
consume turn_id crash [] ending s = finish crash ending s
consume turn_id crash (item ∷ items) ending s =
    let (more, s') = handle turn_id crash item s in
    let rest = consume turn_id crash items ending s' in if more then rest else s'

-- `_build_terminal_event`.
pub build_terminal_event : Option TurnStatus → Option String × Option String → StreamEvent
build_terminal_event (some completed) err = done ""
build_terminal_event _ (code, detail) =
    error
      (elim code [ none ↦ "stream_dropped" | some c ↦ if str_eq c "" then "stream_dropped" else c ])
      (elim detail [
        | none ↦ some "background turn ended without terminal event"
        | some d ↦
            if str_eq d "" then some "background turn ended without terminal event" else some d
      ])

abbrev pub busy : Local
busy = record start {
  terminal_status = some failed;
  terminal_error = (some "turn_busy", some "lock unavailable: active_busy");
}

abbrev pub skipped : Local
skipped = record start { redelivery_skip = true }

abbrev pub nothing : Output
nothing = record { stream = []; notes = [] }

module _ (redis : Redis) where
  pub record World : Type 0 where
    pub table : Store
    pub process : Process redis
    pub stream : List StreamEvent
    pub slots_released : ℕ

  abbrev pub change_keys : List KeyChange → redis.Store → redis.Store
  change_keys [] s = s
  change_keys (takes key value ∷ cs) s = change_keys cs (redis.set_nx key value 30 s).1
  change_keys (goes key ∷ cs) s = change_keys cs (redis.del key s).1

  -- The end of the `finally` statement: the last event, the finalization, the rate-limit slot. A
  -- finalization that raises leaves the slot where it is.
  pub conclude : Delivery → Local × Output → World → World
  unfolding build_terminal_event
  conclude d (l, out) w = record w {
    table = elim l.terminal_status [
      | none ↦ table
      | some status ↦
          if l.redelivery_skip || not (executed d.finalization)
          then table
          else (step (finalizes d.now d.turn_id status l.terminal_error.0 l.terminal_error.1)
              table).1
    ];
    stream =
        if not l.terminal_published
          && (not l.was_cancelled && (not l.redelivery_skip && d.last_published))
        then w.stream
          ++ (out.stream ++ build_terminal_event l.terminal_status l.terminal_error ∷ [])
        else w.stream ++ out.stream;
    slots_released =
        if not l.redelivery_skip
          && ((not (is_some l.terminal_status) || is_fine d.finalization)
              && executed d.slot_release)
        then suc w.slots_released
        else w.slots_released;
  }
    where
      table : Store
      table = run (out.notes ++ d.meanwhile) w.table

  -- With the lock of the chat given back, which the `async with` does on the way out: the stream
  -- has run under the lease, or it has not, for want of the lease.
  pub under_lease : (leased : Bool) → Delivery → World → World
  unfolding conclude consume
  under_lease true d w =
      conclude d (consume d.turn_id d.crash_publish d.items d.ending (start, nothing)) (record w {
        process =
            (release redis d.lease_release d.turn_id d.worker_id
              (record (w.process) { store = change_keys d.keys_leaving w.process.store })).1;
      })
  under_lease false d w = conclude d (skipped, nothing) w

  pub with_lock : Delivery → (chat_id : ℕ) → World → World
  unfolding under_lease
  with_lock d chat_id w =
      let (leased, p) = acquire redis d.lease_set d.turn_id d.worker_id lease_ttl_s w.process in
      let running = if leased then change_keys d.keys_running p.store else p.store in
      under_lease leased d (record w {
        process = record p {
          store = exit_turn_locks redis d.lock_release acquired chat_id d.turn_id running;
        };
      })

  pub under : LockAcquireOutcome → Delivery → (chat_id : ℕ) → World → World
  unfolding with_lock conclude
  under acquired d chat_id w = with_lock d chat_id w
  under redelivery d chat_id w = conclude d (skipped, nothing) w
  under active_busy d chat_id w = conclude d (busy, nothing) w

  pub hold_and_run : Delivery → (chat_id : ℕ) → World → World
  unfolding under
  hold_and_run d chat_id w =
      let (outcome, s) =
        enter_turn_locks redis d.lock_set d.lock_get chat_id d.turn_id w.process.store in
      under outcome d chat_id (record w { process = record (w.process) { store = s } })

  pub execute_turn_inner : Delivery → World → World
  unfolding hold_and_run
  execute_turn_inner d w = elim (get_by_id d.turn_id w.table.rows) [
    | none ↦ w
    | some turn ↦
        if is_terminal turn.status || not d.user_found then w else hold_and_run d turn.chat_id w
  ]
