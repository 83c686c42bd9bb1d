-- ===== src/EventHandler/Store.antt =====
-- The store of the registered handlers and its counter: `EventHandlerStore`,
-- `add_event_handler_impl` and `EventHandlerDropGuard` of src/matrix/event_handler/mod.rs.
-- The map of context values by type and the deserialising closure are in Closure: here the closure
-- is the parameter `F`.
pub mod Ids
use matrix_goose.Prelude.{ℕ, ◌+◌, ◌%◌, ◌^◌, Option, String, List, [], ◌∷◌}
use matrix_goose.EventHandler.Defs.{HandlerKind, RoomId, EventHandlerHandle}
use matrix_goose.EventHandler.Maps.{EventHandlerMaps, no_handlers, add, remove}

pub record EventHandlerStore (F : Type 0) : Type 0 where
  pub handlers : EventHandlerMaps F
  pub counter : ℕ

abbrev pub new_store : {F : Type 0} → EventHandlerStore F
new_store = record { handlers = no_handlers; counter = 0 }

abbrev pub u64_mod : ℕ
u64_mod = 2 ^ 64

-- What a program does to the store: it registers a handler, or it removes one by a handle,
-- as `remove_event_handler` and the drop of a guard do.
pub data Op (F : Type 0) : Type 0 where
  register : HandlerKind → Option String → Option RoomId → F → Op F
  discard : EventHandlerHandle → Op F

module _ {F : Type 0} where
  unfoldable pub add_handler : EventHandlerHandle → F → EventHandlerStore F → EventHandlerStore F
  add_handler h f s = record s { handlers = add h f s.handlers }

  unfoldable pub remove_handler : EventHandlerHandle → EventHandlerStore F → EventHandlerStore F
  remove_handler h s = record s { handlers = remove h s.handlers }

  -- `fetch_add(1)` on an `AtomicU64` wraps. The answer is the handle of the registration.
  unfoldable pub add_event_handler_impl :
      HandlerKind
      → Option String
      → Option RoomId
      → F
      → EventHandlerStore F
      → EventHandlerHandle × EventHandlerStore F
  unfolding add_handler
  add_event_handler_impl k t r f s =
      let h : EventHandlerHandle = record {
        ev_kind = k;
        ev_type = t;
        room_id = r;
        handler_id = s.counter;
      } in
      (h, add_handler h f (record s { counter = (s.counter + 1) % u64_mod }))

  unfoldable pub step : Op F → EventHandlerStore F → EventHandlerStore F
  unfolding add_event_handler_impl remove_handler
  step (register k t r f) s = (add_event_handler_impl k t r f s).1
  step (discard h) s = remove_handler h s

  unfoldable pub run : List (Op F) → EventHandlerStore F → EventHandlerStore F
  unfolding step
  run [] s = s
  run (o ∷ ops) s = run ops (step o s)
