-- ===== src/Tests/Rounds.antt =====
-- The dispatch of src/matrix/event_handler/mod.rs on a batch with a malformed event. Raw events are
-- numbers: 0 is malformed, the odd ones are state events, those above 9 are redacted.
use matrix_goose.Prelude.{
  ℕ, ◌≡◌, none, some, String, List, [], ◌∷◌, ltb, ◌%◌, nat_eq, if◌then◌else◌, map,
}
use matrix_goose.Exec.{ok, err}
use matrix_goose.EventHandler.Defs.{message_like, timeline}
use matrix_goose.EventHandler.Store.{new_store, register, run}
use matrix_goose.EventHandler.Dispatch.{
  Env, SyncTimelineEvent, Dispatch, Handlers, handle_sync_timeline_events, handle_sync_state_events,
}
use matrix_goose.EventHandler.Dispatch.Plan.{
  outcome, parsed, timeline_parse, timeline_rounds, state_rounds, state_outcome, flat_map,
  run_rounds, handle_sync_timeline_events_lem, handle_sync_state_events_lem,
}

abbrev pub some_env : Env
some_env = record {
  F = ℕ;
  Room = String;
  room_id = λ room. room;
  Raw = ℕ;
  EncryptionInfo = Unit;
  Action = ℕ;
  World = List ℕ;
  JsonError = ℕ;
  extract_type = λ n. if nat_eq n 0 then err 0 else ok "m.room.message";
  state_details = λ n. if nat_eq n 0 then err 0 else ok ("m.room.message", ltb 9 n);
  timeline_details = λ n.
      if nat_eq n 0
      then err 0
      else ok (record {
        event_type = "m.room.message";
        has_state_key = nat_eq (n % 2) 1;
        redacted = ltb 9 n;
      });
}

-- The handlers note the functions that are called.
abbrev pub some_handlers : Handlers some_env
some_handlers calls s = (s.0, map (λ c. c.handler_fn) calls)

abbrev item : ℕ → SyncTimelineEvent some_env
item n = record { event = n; encryption_info = none; push_actions = [] }

abbrev pub some_dispatch : Dispatch some_env
some_dispatch = record {
  store = run (register message_like none none 5 ∷ register timeline none none 6 ∷ []) new_store;
  world = [];
  calls = [];
}

abbrev pub some_items : List (SyncTimelineEvent some_env)
some_items = item 4 ∷ item 13 ∷ item 0 ∷ item 2 ∷ []

handle_sync_timeline_events_lem_example :
    handle_sync_timeline_events some_env some_handlers (some "!a") some_items some_dispatch ≡ (
      outcome (timeline_parse some_env some_handlers) some_items,
      run_rounds some_env some_handlers
          (flat_map
            (timeline_rounds some_env some_handlers (some "!a"))
            (parsed (timeline_parse some_env some_handlers) some_items))
          some_dispatch,
    )
handle_sync_timeline_events_lem_example =
    handle_sync_timeline_events_lem some_env some_handlers (some "!a") some_items some_dispatch

handle_sync_state_events_lem_example :
    handle_sync_state_events some_env some_handlers (some "!a") (3 ∷ 0 ∷ []) some_dispatch ≡ (
      state_outcome some_env some_handlers (3 ∷ 0 ∷ []),
      run_rounds some_env some_handlers
          (state_rounds some_env some_handlers (some "!a") (3 ∷ 0 ∷ []))
          some_dispatch,
    )
handle_sync_state_events_lem_example =
    handle_sync_state_events_lem some_env some_handlers (some "!a") (3 ∷ 0 ∷ []) some_dispatch
