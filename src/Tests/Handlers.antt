-- ===== src/Tests/Handlers.antt =====
-- The store of src/matrix/event_handler on a few registrations. Functions are numbers here.
use matrix_goose.Prelude.{ℕ, ◌≡◌, none, some, String, List, [], ◌∷◌, arith, text_eq}
use mathlib.Core.List.{Perm}
use matrix_goose.EventHandler.Defs.{RoomId, message_like, state}
use matrix_goose.EventHandler.Maps.{remove, get_handlers}
use matrix_goose.EventHandler.Maps.Spec.{Registration, spec_get}
use matrix_goose.EventHandler.Maps.Refinement.{Refines, get_handlers-Refines}
use matrix_goose.EventHandler.Maps.Coverage.{called_all, applicable, get_handlers-perm}
use matrix_goose.EventHandler.Maps.SelfRemoval.{All, self_removal_fails}
use matrix_goose.EventHandler.Store.{
  EventHandlerStore, Op, register, discard, run, new_store, add_event_handler_impl, remove_handler,
}
use matrix_goose.EventHandler.Store.Ids.{
  Tracks, handle_at, spec_run, run-Tracks, get_handlers-discard_register,
}

abbrev room_message : String
room_message = "m.room.message"

abbrev room_a : RoomId
room_a = "!a:example.org"

-- A handler for the messages of all rooms, one for the messages of one room, and one for all state
-- events, which is removed again.
abbrev some_ops : List (Op ℕ)
some_ops =
    register message_like (some room_message) none 10
    ∷ register message_like (some room_message) (some room_a) 11
    ∷ register state none none 12
    ∷ discard (handle_at 2 state none none)
    ∷ []

abbrev some_store : EventHandlerStore ℕ
some_store = run some_ops new_store

abbrev some_registrations : List (Registration ℕ)
some_registrations = spec_run 0 some_ops []

run-Tracks_example : Tracks some_store some_registrations
run-Tracks_example = run-Tracks some_ops (omega arith)

abbrev some_Refines : Refines some_store.handlers some_registrations
some_Refines = (run-Tracks some_ops (omega arith)).refines

get_handlers-Refines_example :
    get_handlers message_like room_message (some room_a) some_store.handlers
    ≡ spec_get message_like room_message (some room_a) some_registrations
get_handlers-Refines_example =
    get_handlers-Refines message_like room_message (some room_a) some_store.handlers
      some_registrations some_Refines

get_handlers-perm_example :
    Perm
      (called_all (get_handlers message_like room_message (some room_a) some_store.handlers))
      (applicable message_like room_message (some room_a) some_registrations)
get_handlers-perm_example =
    get_handlers-perm message_like room_message (some room_a) some_store.handlers some_registrations
      some_Refines

get_handlers-discard_register_example :
    (let (h, s') = add_event_handler_impl state none none 14 some_store in
      get_handlers state room_message none (remove_handler h s').handlers
      ≡ get_handlers state room_message none some_store.handlers)
get_handlers-discard_register_example =
    get_handlers-discard_register some_store some_registrations (run-Tracks some_ops (omega arith))
      state none none 14 state room_message none

self_removal_fails_example :
    All
      (λ (h, f).
        get_handlers message_like room_message none (remove h some_store.handlers)
        ≡ get_handlers message_like room_message none some_store.handlers)
      (get_handlers message_like room_message (some room_a) some_store.handlers)
self_removal_fails_example =
    self_removal_fails message_like room_message room_a some_store.handlers message_like
      room_message
