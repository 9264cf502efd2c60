-- ===== src/Tests/Streamed.antt =====
-- The turn of Tests/Turns.antt with `stream_turn` as its stream.
use codex_server.Base.{◌≡◌, refl, false, none, List, [], ◌∷◌, map, String, count}
use codex_server.Base.Text.{Text}
use codex_server.Redis.{holds}
use codex_server.Base.Text.Decimal.{str}
use codex_server.Redis.Assoc.{assoc}
use codex_server.Turns.Status.{starting}
use codex_server.Turns.Table.{active_with, get_by_id}
use codex_server.Turns.Lease.{lease_key}
use codex_server.Turns.Locks.{active_key}
use codex_server.Turns.Runner.{Item, Delivery, delivered, execute_turn_inner}
use codex_server.Turns.Runner.Delivered.{IsAnswered}
use codex_server.Turns.Runner.Streamed.{event_of, ending_of, Follows, streamed-settles}
use codex_server.Chat.Frames.{Frame}
use codex_server.Chat.Stream.Finish.{stream_turn}
use codex_server.Chat.Stream.Finish.Examples.{whole_turn, after, call, db}
use codex_server.Tests.Sample.{sample, world, delivery, worker}

abbrev literal : Text → String
literal t = "text"

abbrev item_of : Frame → Item
item_of f = record { ownership_lost = false; event = event_of literal f; fate = delivered "1-0" }

item_of-Follows : (frames : List Frame) → Follows literal (map item_of frames) frames
item_of-Follows [] = tt
item_of-Follows (f ∷ frames) = (refl, item_of-Follows frames)

abbrev streamed : Delivery
streamed =
    let (v, s) = stream_turn whole_turn none after call db in
    record (delivery (map item_of s.frames)) { ending = ending_of literal v }

streamed-IsAnswered : IsAnswered streamed
streamed-IsAnswered = record {
  lock_set = refl;
  lock_get = refl;
  lock_release = refl;
  lease_set = refl;
  lease_release = refl;
}

streamed-settles_example :
    let w' = execute_turn_inner assoc streamed (world []) in
    (count (active_with 7) w'.table.rows ≡ 0)
    × (w'.slots_released ≡ 1)
    × (holds (assoc.get (active_key 3) w'.process.store) (str 7) ≡ false)
    × (holds (assoc.get (lease_key 7) w'.process.store) worker ≡ false)
unfolding get_by_id
streamed-settles_example =
    streamed-settles literal assoc streamed (world []) (sample starting) whole_turn none after call
      db refl refl refl streamed-IsAnswered (record { finalization = refl; slot_release = refl })
      refl refl (refl, tt) (item_of-Follows (stream_turn whole_turn none after call db).1.frames)
      refl
