-- ===== src/Tests/Callings.antt =====
-- The handlers that are called, and what they are called with, of src/matrix/event_handler.
use mathlib.Core.List.{Perm}
use matrix_goose.Prelude.{
  ℕ, ◌&&◌, ◌≡◌, refl, none, some, List, [], ◌∷◌, ◌++◌, map, nat_eq, arith, if◌then◌else◌,
}
use matrix_goose.Exec.{ok, err}
use matrix_goose.EventHandler.Defs.{message_like, timeline}
use matrix_goose.EventHandler.Maps.Spec.{Registration}
use matrix_goose.EventHandler.Store.{register}
use matrix_goose.EventHandler.Store.Ids.{spec_run, run-Tracks}
use matrix_goose.EventHandler.Dispatch.{Call, handle_sync_timeline_events}
use matrix_goose.EventHandler.Dispatch.Plan.{flat_map, parsed, timeline_parse}
use matrix_goose.EventHandler.Dispatch.Wanted.{wanted}
use matrix_goose.EventHandler.Dispatch.Calls.{
  Staying, called_by, handle_sync_timeline_events-wanted,
}
use matrix_goose.EventHandler.Events.{sync_message_like_event}
use matrix_goose.EventHandler.Closure.{ContextMap, Handler, room_argument, ctx_argument, handler_fn}
use matrix_goose.EventHandler.Closure.Called.{Called, all_present, is_ok, handler_fn-Called}
use matrix_goose.Tests.Rounds.{some_env, some_handlers, some_dispatch, some_items}

handlers_stay : Staying some_env some_handlers
handlers_stay = record { stays = λ calls s w. refl }

-- What `some_dispatch` has registered.
abbrev registrations : List (Registration ℕ)
registrations =
    spec_run 0 (register message_like none none 5 ∷ register timeline none none 6 ∷ []) []

handle_sync_timeline_events-wanted_example :
    (new : List (Call some_env)) × ((handle_sync_timeline_events some_env some_handlers
        (some "!a")
        some_items
        some_dispatch).1.calls
      ≡ some_dispatch.calls ++ new)
    × Perm (map (called_by some_env some_handlers handlers_stay) new) (
        flat_map
          (λ p. wanted (some "!a") registrations p.1)
          (parsed (timeline_parse some_env some_handlers) some_items))
handle_sync_timeline_events-wanted_example =
    handle_sync_timeline_events-wanted some_env some_handlers handlers_stay (some "!a") some_items
      some_dispatch registrations
      (run-Tracks (register message_like none none 5 ∷ register timeline none none 6 ∷ [])
        (omega arith)).refines

-- A map with at most one number.
abbrev one_number : ContextMap
one_number = record {
  Client = Unit;
  Key = Unit;
  Val = λ k. ℕ;
  Map = List ℕ;
  get = λ k m. elim m [ [] ↦ none | n ∷ ns ↦ some n ];
  insert = λ k v m. v ∷ [];
}

-- A handler that asks for its room and the number, and fails.
abbrev failing : Handler some_env one_number
failing = record {
  Event = ℕ;
  event_type = sync_message_like_event "m.room.message";
  deserialize = λ n. if nat_eq n 0 then err 0 else ok n;
  arguments = room_argument ∷ ctx_argument tt ∷ [];
  body = λ ev (room, (number, u)) w. (err "no", number ∷ w);
}

abbrev to_failing : Call some_env
to_failing = record {
  handler_fn = 7;
  handle = record {
    ev_kind = message_like;
    ev_type = some "m.room.message";
    room_id = none;
    handler_id = 0;
  };
  room = some "!a";
  raw = 4;
  encryption_info = none;
  push_actions = [];
}

handler_fn-Called_example :
    Called some_env one_number tt
      (9 ∷ [])
      to_failing
      failing
      []
      (is_ok (failing.deserialize 4)
        && all_present some_env one_number tt (9 ∷ []) to_failing failing.arguments)
      (handler_fn some_env one_number failing tt (9 ∷ []) to_failing [])
handler_fn-Called_example = handler_fn-Called some_env one_number tt (9 ∷ []) to_failing failing []
