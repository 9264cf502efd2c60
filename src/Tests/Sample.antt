-- ===== src/Tests/Sample.antt =====
-- A turn, tables and stores to apply the theorems at.
use codex_server.Base.{refl, true, false, none, some, List, [], ◌∷◌}
use codex_server.Base.Text.{Text, codes}
use codex_server.Base.Text.Decimal.{str}
use codex_server.Redis.{fine}
use codex_server.Redis.Assoc.{assoc}
use codex_server.Turns.Status.{TurnStatus, starting, completed, failed}
use codex_server.Turns.Table.{Turn, TurnCreate, Session, guest, admin, stream_key_of}
use codex_server.Turns.Table.Run.{Op, creates, marks, finalizes, Store, begin}
use codex_server.Turns.Lease.{lease_key, Process}
use codex_server.Turns.Locks.{active_key}
use codex_server.Turns.Runner.{
  StreamEvent, done, other, delivered, Item, ends, Delivery, World, goes, takes,
}
use codex_server.Turns.Runner.Delivered.{IsAnswered, IsFinalized}

abbrev pub sample : TurnStatus → Turn
sample status = record {
  id = 7;
  chat_id = 3;
  user_id = 1;
  user_message_id = 20;
  assistant_message_id = none;
  status = status;
  codex_thread_id = none;
  codex_turn_id = none;
  sidecar = guest;
  stream_key = stream_key_of 7;
  error_code = none;
  error_detail = none;
  last_event_id = none;
  heartbeat_at = 100;
  completed_at = none;
}

abbrev pub payload : TurnCreate
payload = record { chat_id = 4; user_id = 1; user_message_id = 21; sidecar = admin }

abbrev pub table : Store
table = record { rows = sample starting ∷ []; published = [] }

abbrev pub table_ended : Store
table_ended = record { rows = sample completed ∷ []; published = [] }

abbrev pub ops : List Op
ops =
    marks 101 7 "thread" "turn"
    ∷ creates true 102 8 payload
    ∷ finalizes 103 7 completed none none
    ∷ finalizes 104 7 failed (some "lease_expired") none
    ∷ []

abbrev pub session : Session
session = begin table

abbrev pub worker : Text
worker = codes "host:1"

abbrev pub other_worker : Text
other_worker = codes "host:2"

abbrev pub idle : Process assoc
idle = record { store = []; active_leases = [] }

abbrev pub busy_store : List (Text × Text)
busy_store = (lease_key 7, worker) ∷ []

abbrev pub locked_store : List (Text × Text)
locked_store = (active_key 3, str 7) ∷ []

abbrev pub busy_worker : Process assoc
busy_worker = record { store = busy_store; active_leases = (7, worker) ∷ [] }

abbrev pub world : List (Text × Text) → World assoc
world store = record {
  table = table;
  process = record { store = store; active_leases = [] };
  stream = [];
  slots_released = 0;
}

abbrev pub delivery : List Item → Delivery
delivery items = record {
  turn_id = 7;
  now = 110;
  user_found = true;
  worker_id = worker;
  lock_set = fine;
  lock_get = fine;
  lock_release = fine;
  lease_set = fine;
  lease_release = fine;
  items = items;
  ending = ends;
  crash_publish = fine;
  last_published = true;
  meanwhile = [];
  keys_running = goes (active_key 3) ∷ takes (active_key 3) (str 9) ∷ [];
  keys_leaving = goes (lease_key 7) ∷ [];
  finalization = fine;
  slot_release = fine;
}

abbrev said : StreamEvent → Item
said event = record { ownership_lost = false; event = event; fate = delivered "1-0" }

abbrev pub answer : List Item
answer = said (other "text_delta") ∷ said (done "hello") ∷ []

abbrev half_answer : List Item
half_answer = said (other "text_delta") ∷ []

pub IsAnswered-by : (items : List Item) → IsAnswered (delivery items)
IsAnswered-by items = record {
  lock_set = refl;
  lock_get = refl;
  lock_release = refl;
  lease_set = refl;
  lease_release = refl;
}

pub IsFinalized-by : (items : List Item) → IsFinalized (delivery items)
IsFinalized-by items = record { finalization = refl; slot_release = refl }
