-- ===== src/Tests/Start.antt =====
-- A message to a chat with no active turn, to one whose turn Codex cannot be steered away from, and
-- to a queue that is down.
use codex_server.Base.{◌≡◌, refl, true, false, none, some, [], ◌∷◌, ap, inr, arith, find?}
use codex_server.Base.Text.{codes, text_eq_refl}
use codex_server.Redis.{fine}
use codex_server.Redis.Assoc.{assoc}
use codex_server.Turns.Table.{Turn, guest, has_id, get_active_for_chat}
use codex_server.Turns.Lease.{lease_key}
use codex_server.Chat.Start.Live.{is_on, live_turn-kept}
use codex_server.Chat.Start.Others.{run_turn-others_kept}
use codex_server.Chat.Start.Calls.{is_id}
use codex_server.Turns.Runner.{execute_turn_inner, World}
use codex_server.Chat.Stream.Finish.Examples.{db}
use codex_server.Chat.Start.{Server, handle_active_turn, run_turn}
use codex_server.Chat.Request.{
  PreparedRunTurn, rpc_error, queued, enqueue_error, Enqueue, Surroundings,
}
use codex_server.Turns.Table.Run.{finalizes, run}
use codex_server.Turns.Status.{failed, starting, running}
use codex_server.Chat.Start.Slot.{IsAccounted, run_turn-IsAccounted}
use codex_server.Chat.Start.Refused.{run_turn-ignored}
use codex_server.Tests.Sample.{sample, table_ended, world, worker, delivery}

abbrev prepared : PreparedRunTurn
prepared = record {
  chat_id = 3;
  user_id = 1;
  text = codes "hello";
  uploads = record {
    image_urls = [];
    image_ids = [];
    audio_ids = [];
    file_paths = [];
    file_ids = [];
  };
  voice_reply = false;
  has_uploads = false;
  sidecar = guest;
  client_id = none;
}

abbrev env : Enqueue → Surroundings
env enqueue = record {
  now = 200;
  reconcile_net = fine;
  lease_net = fine;
  release_net = fine;
  steer = rpc_error;
  interrupt = rpc_error;
  keys_exist = true;
  turn_id = 8;
  enqueue = enqueue;
  slot_release = fine;
}

-- The chat's last turn, 7, has ended.
abbrev server : Server assoc
server = record {
  table = table_ended;
  keys = [];
  db = db;
  queue = [];
  steer_counts = [];
  quarantined = [];
  slots_released = 0;
}

run_turn-IsAccounted_example :
    IsAccounted assoc
      (env queued)
      server
      (run_turn assoc (codes "hello") false true (some prepared) (env queued) server)
run_turn-IsAccounted_example =
    run_turn-IsAccounted assoc (codes "hello") false (some prepared) (env queued) server refl
      (record { enqueue = refl; slot_release = refl })

abbrev refusing : Surroundings
refusing = env (enqueue_error true "reply lost")

-- The worker of turn 8 with the table behind the refusal.
abbrev late : World assoc
late = record (world []) {
  table =
      run (finalizes 130 7 failed none none ∷ [])
        (run_turn assoc (codes "hello") false true (some prepared) refusing server).1.table;
}

run_turn-ignored_example :
    execute_turn_inner assoc (record (delivery []) { turn_id = 8 }) late ≡ late
run_turn-ignored_example =
    run_turn-ignored assoc (codes "hello") false true (some prepared) refusing true "reply lost"
      server (finalizes 130 7 failed none none ∷ []) (record (delivery []) { turn_id = 8 }) late
      refl refl refl (tt, tt) refl

-- The chat's turn, 7, is running, beside one of another chat.
abbrev busy_turn : Turn
busy_turn = record (sample running) { codex_turn_id = some "turn" }

abbrev other_turn : Turn
other_turn = record (sample starting) { id = 6; chat_id = 5 }

abbrev busy_server : Server assoc
busy_server = record server {
  table = record { rows = other_turn ∷ busy_turn ∷ []; published = [] };
  keys = (lease_key 7, worker) ∷ [];
}

busy_active : get_active_for_chat 3 (other_turn ∷ busy_turn ∷ []) ≡ some busy_turn
busy_active = unfold get_active_for_chat in refl

live_turn-kept_example :
    let r = handle_active_turn assoc (env queued) prepared busy_server in
    (r.1.table ≡ busy_server.table)
    × (r.1.keys ≡ busy_server.keys)
    × (r.1.quarantined ≡ [])
    × (is_on r.0 ≡ false)
live_turn-kept_example =
    live_turn-kept assoc (env queued) prepared busy_turn busy_server busy_active refl
      (inr (refl, ground (arith, text_eq_refl (lease_key 7)))) refl refl

-- Much later, when the turn has no worker.
abbrev later : Surroundings
later = record (env queued) { now = 900000000 }

run_turn-others_kept_example :
    find?
      (has_id 6)
      (run_turn assoc (codes "hello") false true (some prepared) later busy_server).1.table.rows
    ≡ some other_turn
run_turn-others_kept_example =
    run_turn-others_kept assoc (codes "hello") false true prepared later busy_server 6
      (ap (λ o. is_id o 6) busy_active) refl
