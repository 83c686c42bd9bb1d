-- ===== src/EventHandler/Events.antt =====
-- The types of events that handlers are written for: src/matrix/event_handler/static_events.rs, and
-- the registration by such a type in src/matrix/mod.rs.
use matrix_goose.Prelude.{Option, none, some, String}
use matrix_goose.EventHandler.Defs.{
  HandlerKind, RoomId, EventHandlerHandle, global_account_data, room_account_data,
  ephemeral_room_data, timeline, message_like, original_message_like, redacted_message_like, state,
  original_state, redacted_state, stripped_state, to_device, presence,
}
use matrix_goose.EventHandler.Store.{EventHandlerStore, add_event_handler_impl, remove_handler}

-- An event of `ruma` is generic over its content `C`, which has the type `C::TYPE`.
pub data SyncEvent : Type 0 where
  global_account_data_event room_account_data_event sync_ephemeral_room_event : String → SyncEvent
  sync_message_like_event original_sync_message_like_event : String → SyncEvent
  redacted_sync_message_like_event : String → SyncEvent
  sync_room_redaction_event original_sync_room_redaction_event : SyncEvent
  redacted_sync_room_redaction_event : SyncEvent
  sync_state_event original_sync_state_event redacted_sync_state_event : String → SyncEvent
  stripped_state_event to_device_event : String → SyncEvent
  presence_event : SyncEvent
  any_global_account_data_event any_room_account_data_event : SyncEvent
  any_sync_ephemeral_room_event any_sync_timeline_event any_sync_message_like_event : SyncEvent
  any_sync_state_event any_stripped_state_event any_to_device_event : SyncEvent
  -- `Raw<T>`
  raw_event_of : SyncEvent → SyncEvent

-- `SyncEvent::KIND`
abbrev pub kind_of : SyncEvent → HandlerKind
kind_of (global_account_data_event c) = global_account_data
kind_of (room_account_data_event c) = room_account_data
kind_of (sync_ephemeral_room_event c) = ephemeral_room_data
kind_of (sync_message_like_event c) = message_like
kind_of (original_sync_message_like_event c) = original_message_like
kind_of (redacted_sync_message_like_event c) = redacted_message_like
kind_of sync_room_redaction_event = message_like
kind_of original_sync_room_redaction_event = original_message_like
kind_of redacted_sync_room_redaction_event = redacted_message_like
kind_of (sync_state_event c) = state
kind_of (original_sync_state_event c) = original_state
kind_of (redacted_sync_state_event c) = redacted_state
kind_of (stripped_state_event c) = stripped_state
kind_of (to_device_event c) = to_device
kind_of presence_event = presence
kind_of any_global_account_data_event = global_account_data
kind_of any_room_account_data_event = room_account_data
kind_of any_sync_ephemeral_room_event = ephemeral_room_data
kind_of any_sync_timeline_event = timeline
kind_of any_sync_message_like_event = message_like
kind_of any_sync_state_event = state
kind_of any_stripped_state_event = stripped_state
kind_of any_to_device_event = to_device
kind_of (raw_event_of e) = kind_of e

-- `SyncEvent::TYPE`
abbrev pub type_of : SyncEvent → Option String
type_of (global_account_data_event c) = some c
type_of (room_account_data_event c) = some c
type_of (sync_ephemeral_room_event c) = some c
type_of (sync_message_like_event c) = some c
type_of (original_sync_message_like_event c) = some c
type_of (redacted_sync_message_like_event c) = some c
type_of sync_room_redaction_event = some "m.room.redaction"
type_of original_sync_room_redaction_event = some "m.room.redaction"
type_of redacted_sync_room_redaction_event = some "m.room.redaction"
type_of (sync_state_event c) = some c
type_of (original_sync_state_event c) = some c
type_of (redacted_sync_state_event c) = some c
type_of (stripped_state_event c) = some c
type_of (to_device_event c) = some c
type_of presence_event = some "m.presence"
type_of any_global_account_data_event = none
type_of any_room_account_data_event = none
type_of any_sync_ephemeral_room_event = none
type_of any_sync_timeline_event = none
type_of any_sync_message_like_event = none
type_of any_sync_state_event = none
type_of any_stripped_state_event = none
type_of any_to_device_event = none
type_of (raw_event_of e) = type_of e

module _ {F : Type 0} where
  unfoldable add_event_handler :
      SyncEvent → F → EventHandlerStore F → EventHandlerHandle × EventHandlerStore F
  add_event_handler e f s = add_event_handler_impl (kind_of e) (type_of e) none f s

  unfoldable add_room_event_handler :
      RoomId → SyncEvent → F → EventHandlerStore F → EventHandlerHandle × EventHandlerStore F
  add_room_event_handler room_id e f s =
      add_event_handler_impl (kind_of e) (type_of e) (some room_id) f s

  unfoldable remove_event_handler : EventHandlerHandle → EventHandlerStore F → EventHandlerStore F
  remove_event_handler h s = remove_handler h s

-- `EventHandlerDropGuard`, beside its client
pub record DropGuard : Type 0 where
  pub handle : EventHandlerHandle

abbrev event_handler_drop_guard : EventHandlerHandle → DropGuard
event_handler_drop_guard h = record { handle = h }

-- The drop of a guard.
abbrev drop_guard : {F : Type 0} → DropGuard → EventHandlerStore F → EventHandlerStore F
drop_guard g s = remove_event_handler g.handle s
