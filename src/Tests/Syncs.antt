-- ===== src/Tests/Syncs.antt =====
-- The sync of src/matrix/sync.rs and src/matrix/mod.rs with a server that answers from a list.
use matrix_goose.Prelude.{ℕ, ◌≡◌, refl, true, Option, none, some, String, List, [], ◌∷◌, text_eq}
use matrix_goose.Map.{lookup}
use matrix_goose.Exec.{Result, ok, err}
use matrix_goose.Error.{HttpResult, Error, http, reqwest}
use matrix_goose.Config.Request.{new_request_config}
use matrix_goose.Config.Sync.{new_sync_settings}
use matrix_goose.Sync.Response.{
  BaseClient, BaseSyncResponse, Synced, handle_sync_response, handle_joined,
}
use matrix_goose.EventHandler.Dispatch.{
  handle_sync_events, handle_sync_state_events, handle_redaction_kinds, handle_sync_timeline_events,
}
use matrix_goose.Sync.Response.Telling.{add_to}
use matrix_goose.Sync.Response.Plan.{
  response_plan, after_steps, notified, handle_sync_response-rounds,
}
use matrix_goose.Sync.Response.Gaps.{gaps_of, handle_sync_response-gaps}
use matrix_goose.Sync.Loop.{
  done, LoopCtrl, continue_sync, break_sync, SyncClient, SyncResponse, Callback, Looping, sync_loop,
  sync_round, checked, started, sync_with_callback, sync_once, sync_loop_helper, delay_sync,
  sync_with_result_callback,
}
use matrix_goose.Sync.Loop.Tokens.{Reached, here, next, sync_result, last_batch, Reached-settings}
use matrix_goose.Sync.Loop.Ends.{AllOk, Answers, sync_with_callback-Answers}
use matrix_goose.Sync.Loop.Stops.{Stops, sync_loop-Stops}
use matrix_goose.Tests.Rounds.{some_env, some_handlers, some_dispatch}

abbrev base : BaseClient some_env
base = record {
  Response = Unit;
  Notification = ℕ;
  NotificationHandler = ℕ;
  get_room = λ id w. none;
  receive_sync_response = λ r w. (err (http reqwest), w);
  notification_handlers = λ w. [];
  notify = λ h n room w. w;
}

-- The room `!a` has a gap, and the client does not know it.
abbrev response : BaseSyncResponse some_env ℕ
response = record {
  join =
      (
        "!a",
        record {
          timeline = record {
            limited = true;
            events = record { event = 4; encryption_info = none; push_actions = [] } ∷ [];
          };
          state = [];
          account_data = [];
          ephemeral = [];
        },
      )
      ∷ [];
  leave = [];
  invite = [];
  presence = [];
  account_data = 4 ∷ [];
  to_device_events = [];
  notifications = [];
}

abbrev before : Synced some_env
before = record { dispatch = some_dispatch; sync_gap_broadcast_txs = ("!a", 0) ∷ [] }

handle_sync_response-gaps_example :
    (let t = (handle_sync_response some_env some_handlers base response before).1 in
      lookup "!a" t.sync_gap_broadcast_txs
      ≡ add_to
          (gaps_of some_handlers base "!a" response)
          (lookup "!a" before.sync_gap_broadcast_txs))
unfolding handle_sync_response handle_sync_events handle_joined
handle_sync_response-gaps_example =
    handle_sync_response-gaps some_handlers base "!a" response before
      (handle_sync_response some_env some_handlers base response before).1 refl

-- The server answers with the batches of a list, or not at all.
abbrev answer : List (Option String) → HttpResult String × List (Option String)
answer [] = (err reqwest, [])
answer (none ∷ w) = (err reqwest, w)
answer (some b ∷ w) = (ok b, w)

abbrev pub client : SyncClient (List (Option String)) ℕ
client = record {
  Answer = String;
  next_batch = λ b. b;
  Processed = Unit;
  request_config = λ w. new_request_config;
  send = λ r c w. answer w;
  process_sync = λ b w. (ok tt, w);
  notify_beat = λ w. w;
  now = λ w. 0;
  sleep = λ w. w;
  sync_token = λ w. some "t0";
}

-- It goes on until the server has answered all that it has.
abbrev going : SyncResponse (Unit {0}) → List (Option String) → LoopCtrl × List (Option String)
going r [] = (break_sync, [])
going r (x ∷ w) = (continue_sync, x ∷ w)

abbrev never_mind : Callback client
never_mind r w = (ok continue_sync, w)

abbrev batches : List (Option String)
batches = none ∷ some "t1" ∷ none ∷ []

abbrev begun : Looping client
begun = started client new_sync_settings batches

-- After a sync that failed.
abbrev second : Looping client
second = record {
  settings = begun.settings;
  last_sync_time = some 0;
  world = some "t1" ∷ none ∷ [];
}

-- After a sync that succeeded.
abbrev third : Looping client
third = record {
  settings = record (begun.settings) { token = some "t1" };
  last_sync_time = some 0;
  world = none ∷ [];
}

abbrev two_results : List (Result Error (SyncResponse (Unit {0})))
two_results = sync_result client second ∷ sync_result client begun ∷ []

two_rounds : Reached client never_mind begun two_results third
unfolding sync_round sync_loop_helper sync_once delay_sync
two_rounds = next (next here refl) refl

Reached-settings_example :
    third.settings
    ≡ record (begun.settings) { token = last_batch client begun.settings.token two_results }
Reached-settings_example = Reached-settings client two_rounds

sync_loop-Stops_example : Stops client never_mind 2 begun (sync_loop client 2 never_mind begun)
sync_loop-Stops_example = sync_loop-Stops client never_mind 2 begun

-- The outcome of a run whose second sync fails.
abbrev callback_batches : List (Option String)
callback_batches = some "t1" ∷ none ∷ []

sync_with_callback-Answers_example :
    (rs : List (Result Error (SyncResponse (Unit {0})))) × ((l : Looping client) × (Reached client
          (checked client going)
          (started client new_sync_settings callback_batches)
          rs
          l
        × ((sync_round client (checked client going) l ≡ done (err (http reqwest)) [])
            × (AllOk client rs × Answers client (sync_result client l) (err (http reqwest))))))
unfolding sync_with_callback sync_with_result_callback sync_loop sync_round sync_loop_helper
    sync_once delay_sync checked
sync_with_callback-Answers_example =
    sync_with_callback-Answers client 2 new_sync_settings going callback_batches []
      (err (http reqwest)) refl

-- A client that knows all rooms.
abbrev base_knowing : BaseClient some_env
base_knowing = record base { get_room = λ id w. some id }

handle_sync_response-rounds_example :
    (let t = (handle_sync_response some_env some_handlers base_knowing response before).1 in
      t.dispatch
      ≡ notified some_env some_handlers base_knowing [] (
          after_steps some_env some_handlers base_knowing
            (response_plan some_env some_handlers base_knowing response)
            before.dispatch))
unfolding handle_sync_response handle_sync_events handle_joined handle_sync_state_events
    handle_redaction_kinds handle_sync_timeline_events
handle_sync_response-rounds_example =
    handle_sync_response-rounds some_env some_handlers base_knowing response before
      (handle_sync_response some_env some_handlers base_knowing response before).1 refl
