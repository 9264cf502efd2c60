-- ===== src/Lib.antt =====
-- A model of codex_server, the server that runs chat turns of a Codex agent for web and Telegram
-- clients (app/).
--
-- The core is the turn as a durable job. A client's message becomes a row of the `turns` table; a
-- worker gets the turn's id, at least once, from a queue; it takes the lock of the chat and the
-- lease of the turn in Redis, streams the agent's events to the turn's Redis stream, and at the end
-- finalizes the row and gives the locks and the rate-limit slot back. Recovery, a second delivery
-- and a crashed worker act on the same row and the same keys.
--
-- Base.antt and Base/: shared names, Boolean tests and list functions over the native numbers,
--   texts as lists of code points with `str` and `int` (Base/Text.antt, Base/Text/Decimal.antt).
-- Redis.antt: what the program relies on of Redis, as a record of commands and laws that each
--   client takes as a parameter; Redis/Assoc.antt is a store that meets it. Each call has an
--   explicit fate (`Net`): it returns, or it raises before or after the command was executed.
-- Turns/Status.antt: app/models/enums.py and app/services/turns/status_map.py.
-- Turns/Table.antt: app/services/turns/service.py, one definition per method of `TurnService`; a
--   table is its list of rows, a session has the uncommitted rows, the committed ones and the
--   publishes that wait for the commit. Turns/Table/Run.antt makes the methods calls (`Op`), each in
--   a transaction of its own, in any order. The database's constraints are in `create_starting`: the
--   partial unique index, and the foreign keys as the caller's argument.
-- Turns/Lease.antt, Turns/Locks.antt: app/services/turns/lease.py and locks.py. Times to live are
--   passed on; that a key runs out is a change of the environment between two calls.
-- Turns/Runner.antt: `execute_turn_inner` of app/services/turns/runner.py. A `Delivery` carries what
--   the environment decides: the fate of the Redis calls, the events of `stream_turn` with what
--   becomes of each, how the stream ends, whether the heartbeat lost the turn, whether the session of
--   the finalization and the release of the slot go through, what other callers did to the table
--   meanwhile, and to the keys of Redis while the stream ran and between the two releases. The keys
--   do not change between the lock and the lease, and the first reads of the database go through. A cancellation that arrives inside a publish is not told from one
--   between two events.
--
-- Turns/Recovery.antt: the sweep, the caller's check and the expired lease of
--   app/services/turns/recovery.py. Times are microseconds.
-- Turns/Heartbeat.antt: `heartbeat_loop` of app/services/turns/runner.py, round by round, with
--   the exceptions of its session.
-- RateLimit.antt: app/services/rate_limit/service.py on the keys of one user, with the kinds of users
--   of app/services/runtime_settings/schemas.py. That the key of the counter runs out is a step.
-- Turns/Probe.antt: `probe_or_extend_idle` of app/services/turns/probe.py.
-- Invites.antt: app/services/invites/service.py over the table of app/models/invite.py.
-- Throttle.antt: app/services/auth/throttle.py, on the counter of one address.
-- Codex/Json.antt, Codex/Events.antt, Codex/Translate.antt, Codex/Collector.antt: JSON values, and
--   app/services/codex/events/types.py, events/translate.py and collector.py. Keys are looked up as
--   Python does, and `none` is an exception. `str` of a value, `mimetypes.guess_type` and
--   `orjson.loads` are parameters.
-- Codex/Turn.antt: the notification loop of `run_turn` in app/services/codex/turn.py, over the list of
--   notifications that arrive before the queue closes; a timeout of the idle watch is not in it. The
--   idle decision is app/services/codex/idle.py. Codex/Pages.antt: `probe_turn_status` of the same
--   file, five rounds of requests as in the source.
-- Codex/Diagnostics.antt: app/services/codex/diagnostics.py, as far as it keeps the active items.
-- Turns/Stream.antt: `tail` of app/services/turns/stream.py, round by round, over streams of Redis that
--   come as an interface (`Streams`); entries that Redis trims from the front are not modelled.
-- Chat/Frames.antt: app/rpc/chat/mappers.py. Chat/Log.antt: the rows of messages, uploads and events
--   that a turn writes (app/services/messages, events, uploads, chats); a `Tx` says what the file
--   system and the object store answer and which exception a statement of a transaction raises.
--   Rows that other callers insert meanwhile are not among the rows.
-- Chat/Stream.antt, Chat/Stream/Finish.antt: `stream_turn` of app/rpc/chat/stream.py, over the list of
--   events that `run_turn` gives and the exception that ends it, with the peeked count of steers, the
--   failures of publishes and of transactions given per event. A text's UTF-8 length counts each code
--   point; a lone surrogate, which Python rejects, is not told. Turns/Runner/Streamed.antt puts the
--   frames of the call into a delivery of Turns/Runner.antt.
-- Chat/Request.antt, Chat/Start.antt: `run_turn` of app/rpc/chat/service.py up to the tail of the turn's stream, on the
--   table, the keys, the queue and the rate-limit slot. The answers of the sidecar and of the queue,
--   which may have taken the message where it raises, are arguments, the sessions of the database go
--   through; what the request resolves to is given as a `PreparedRunTurn`.
-- Chat/Replay.antt: `tail_turn` of the same file with the terminal events that it makes of rows, and
--   `load_chat_owned` of app/rpc/chat/guards.py; the tables are given for each time they are read,
--   and the last read is made once the tail has returned.
--
-- The loops are structural recursion, so there is no fuel; `tail`, which waits, goes through a list of rounds; the only bound is the five pages
-- of `probe_turn_status`, which is the source's own. Not modelled: the RPC handlers of app/rpc,
-- the Telegram bot (app/tg), the websocket transport and the start of a Codex turn
-- (app/services/codex), the content, storage, speech and settings services, app/mcp, start-up and
-- configuration, generated code (app/grpc_generated), migrations and the web client. They are glue
-- over libraries, or are still to come.
pub mod Base
pub mod Chat
pub mod Codex
pub mod Invites
pub mod RateLimit
pub mod Redis
pub mod Tests
pub mod Throttle
pub mod Turns
