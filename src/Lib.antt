-- ===== src/Lib.antt =====
-- The Matrix client of the load tests, and what is proved of it.
--
-- The program is a load generator: Goose users log in to a Matrix homeserver, sync and chat. Its core
-- is a client library under src/matrix: an HTTP client that retries requests and names them for the
-- statistics (src/matrix/http_client.rs), a client that sends requests for a session and refreshes
-- its access token (src/matrix/mod.rs), a sync loop that turns the answers of the server into
-- calls of event handlers (src/matrix/sync.rs, src/matrix/event_handler), and rooms with their
-- requests (src/matrix/room).
--
-- Which file models what:
--   Prelude, Map, Exec: texts, lists, maps as association lists, and methods that change a state and
--     may fail.
--   EventHandler: src/matrix/event_handler. Defs has the kinds and handles; Maps the four maps of
--     maps.rs, where `add`, `get_handlers` and `remove` are the methods of `EventHandlerMaps`; Store
--     the store and its counter (`add_event_handler_impl`, `remove_event_handler`); Dispatch the
--     calls of handlers for a batch of events (`handle_sync_events`, `handle_sync_state_events`,
--     `handle_sync_timeline_events`, `call_event_handlers`); Events the types of events of
--     static_events.rs; Closure the boxed function of a handler with its arguments of context.rs.
--   HttpClient: src/matrix/http_client.rs. Settings has `HttpSettings` and `make_client`, Retry the
--     classification of errors and the count of attempts, Names the name under which a request is
--     reported, Send the credentials and `send`, Headers what is kept of an answer's headers.
--   Error, Config: src/matrix/error.rs and src/matrix/config.
--   Builder: src/matrix/builder.rs. Its options are the calls of `GooseClientBuilder`, History what a
--     chain of them leaves, Build the method `build`, and `GooseMatrixClient::new`.
--   Client: src/matrix/mod.rs. Session has `send`, `send_inner`, `server_versions` and
--     `refresh_access_token`; Login the log-in with src/matrix/login_builder.rs, `restore_session` and
--     `register`; Filter `get_or_upload_filter`; Requests the methods that are one request;
--     SingleSignOn `get_sso_login_url`. Elsewhere, below Session, is `send_with_homeserver`, a copy of
--     `send` behind a feature that is not compiled.
--   Sync: Response is `process_sync` and `handle_sync_response` of src/matrix/sync.rs, Loop is
--     `sync_once`, `sync_with_callback` and `sync_with_result_callback` of src/matrix/mod.rs, and
--     below it Endless `sync` and `sync_stream`.
--   Room: Common has the requests for the encryption state and the members in
--     src/matrix/room/common.rs, and below it Route the servers by which a room is reached, Lists the
--     members with src/matrix/room/member.rs, Messages the messages with their push actions. Joined is
--     src/matrix/room/joined.rs: the typing notices, and below it Requests the requests of a room with
--     its attachments, Levels the power levels, Waiting `sync_up`. States has the rooms by their state
--     of src/matrix/room/mod.rs with `leave` and `join`, Invited src/matrix/room/invited.rs, Entry the
--     rooms of the client and how it joins and creates one, of src/matrix/mod.rs.
--   Media, Attachment, Account: src/matrix/media.rs, src/matrix/attachment.rs with
--     `prepare_attachment_message`, and src/matrix/account.rs with `set_is_direct` of
--     src/matrix/room/common.rs; below Account, Profile is the user's profile, Rules the push rules and
--     Requests the password, the deactivation and the third-party identifiers.
--   LoadTest: Attempts has the users of src/bin/register.rs, src/bin/join.rs and
--     src/bin/create_room.rs, Chat the scheduler and messages of src/bin/chat.rs, its child Doing the
--     tasks and Start how a user starts and stops; Sleep is `task_sleep` of src/lib.rs.
--   Tests: the theorems at concrete inputs.
--
-- How the code is read: a method is a function from the state that it reads to its answer and the
-- state that it leaves; what was written before a failure stays written. Awaiting is sequential: a
-- method that finds a lock taken is the one that runs once the lock is free (`refresh_waiting`,
-- `request_encryption_state` with its room among the locked ones). Handlers that run for one event
-- are one step on the store and the world. Maps are association lists that keep the order of
-- insertion. Room ids, event types and tokens are texts; URLs in Names are lists of bytes. Times and
-- durations are in nanoseconds, read once in a call. The counter of handlers and the
-- counter of attempts wrap at 2^64.
--
-- Fuel: one unit is one sync in the sync loops, one task in the scheduler of the chatting users, one
-- wait in `task_sleep` and one look in `sync_up`. The first two are made to run for ever: the sync
-- loop is proved to run out of fuel only by making that many syncs. A sleep is proved to end,
-- by returning or by the panic of a subtraction of durations, with fuel for each second of its delay
-- and one more; for the tasks of the chatting users it is a step that may panic. And `sync_up` with fuel for the looks up to the first at
-- which the room is synced or no longer joined, whenever there is one.
--
-- Parameters: ruma's types of requests and answers, the base client and its stores, reqwest, backoff,
-- serde_json, what a handler does, the clock, random numbers and Goose. The crate is built without
-- end-to-end encryption, without the log-in builder of single sign-on, without the generation of
-- thumbnails and without the application service, so the code behind those features is left out, but
-- for `send_with_homeserver`. Not modelled: the methods of a room that hand on what the store answers,
-- the registration of notification handlers, the setting of raw account data, the set-up of Goose, and
-- reading the files of users and rooms.
pub mod Prelude
pub mod Map
pub mod Exec
pub mod EventHandler
pub mod Error
pub mod Config
pub mod HttpClient
pub mod Builder
pub mod Client
pub mod Room
pub mod Sync
pub mod Media
pub mod Account
pub mod Attachment
pub mod LoadTest
mod Tests
