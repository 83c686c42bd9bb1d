-- ===== src/EventHandler/Dispatch.antt =====
-- The dispatch of the events of a sync response to the registered handlers:
-- `handle_sync_events`, `handle_sync_state_events`, `handle_sync_timeline_events` and
-- `call_event_handlers` of src/matrix/event_handler/mod.rs.
-- Parameters: the types of rooms, raw events and their metadata; what `serde_json` reads in a raw
-- event; and what the handlers that are run do to the store and to the rest of the world.
pub mod Plan
pub mod Wanted
pub mod Calls
use matrix_goose.Prelude.{Bool, if◌then◌else◌, none, Option, String, List, [], ◌∷◌, ◌++◌, map}
use mathlib.Core.Option
use matrix_goose.Exec.{Result, Exec, modify, lift, for_each, ◌>>=◌, ◌>>◌}
use matrix_goose.EventHandler.Defs.{
  HandlerKind, RoomId, EventHandlerHandle, state, timeline, message_like, state_redacted,
  message_like_redacted,
}
use matrix_goose.EventHandler.Maps.{get_handlers}
use matrix_goose.EventHandler.Store.{EventHandlerStore}

-- `handler_kind_g` and `handler_kind_r`
abbrev kinds : Bool → Bool → HandlerKind × HandlerKind
kinds has_state_key redacted =
    if has_state_key
    then (state, state_redacted redacted)
    else (message_like, message_like_redacted redacted)

-- What the rest of the program and the libraries give to the dispatch.
pub record Env : Type 1 where
  -- The boxed handler functions.
  pub F : Type 0
  pub Room : Type 0
  pub room_id : Room → RoomId
  pub Raw : Type 0
  pub EncryptionInfo : Type 0
  pub Action : Type 0
  -- Everything that handlers may change besides the store of handlers.
  pub World : Type 0
  pub JsonError : Type 0
  -- `deserialize_as::<ExtractType>`
  pub extract_type : Raw → Result JsonError String
  -- `deserialize_as::<StateEventDetails>`: the type, and whether there is a `redacted_because`.
  pub state_details : Raw → Result JsonError (String × Bool)
  -- `deserialize_as::<TimelineEventDetails>`: also whether there is a `state_key`.
  pub timeline_details :
      Raw → Result JsonError (record { event_type : String; has_state_key : Bool; redacted : Bool })

module _ (V : Env) where
  open V use {F, Room, Raw, EncryptionInfo, Action, World, JsonError}

  -- `EventHandlerData`, beside the function that it is given to.
  pub record Call : Type 0 where
    pub handler_fn : F
    pub handle : EventHandlerHandle
    pub room : Option Room
    pub raw : Raw
    pub encryption_info : Option EncryptionInfo
    pub push_actions : List Action

  pub record SyncTimelineEvent : Type 0 where
    pub event : Raw
    pub encryption_info : Option EncryptionInfo
    pub push_actions : List Action

  -- One round of handlers: what `call_event_handlers` is called with.
  pub record Round : Type 0 where
    pub event_kind : HandlerKind
    pub event_type : String
    pub room : Option Room
    pub raw : Raw
    pub encryption_info : Option EncryptionInfo
    pub push_actions : List Action

  -- The calls made so far, in order, beside what they may have changed.
  pub record Dispatch : Type 0 where
    pub store : EventHandlerStore F
    pub world : World
    pub calls : List Call

  abbrev pub Handlers : Type 0
  Handlers = List Call → EventHandlerStore F × World → EventHandlerStore F × World

  -- The calls of one round: a future for each handler that the maps hold at this moment.
  unfoldable pub round_calls : Round → EventHandlerStore F → List Call
  round_calls q s =
      map
        (λ (h, f). record {
          handler_fn = f;
          handle = h;
          room = q.room;
          raw = q.raw;
          encryption_info = q.encryption_info;
          push_actions = q.push_actions;
        })
        (get_handlers q.event_kind q.event_type (Option.map V.room_id q.room) s.handlers)

  module _ (run_calls : Handlers) where
    -- The futures of a round are made first, and run to their end before the next round.
    unfoldable pub call_event_handlers : Round → Dispatch → Dispatch
    call_event_handlers q s =
        let calls = round_calls q s.store in
        let after = run_calls calls (s.store, s.world) in
        record { store = after.0; world = after.1; calls = s.calls ++ calls }

    abbrev pub call : Round → Exec JsonError Dispatch (Unit {0})
    call q = modify (call_event_handlers q)

    -- `handle_sync_events`
    unfoldable pub handle_sync_events :
        HandlerKind → Option Room → List Raw → Exec JsonError Dispatch (Unit {0})
    handle_sync_events k room = for_each λ raw. do
      event_type ← lift (V.extract_type raw)
      call (record {
        event_kind = k;
        event_type = event_type;
        room = room;
        raw = raw;
        encryption_info = none;
        push_actions = [];
      })

    -- The second loop of `handle_sync_state_events`.
    unfoldable pub handle_redaction_kinds :
        Option Room → List Raw → Exec JsonError Dispatch (Unit {0})
    handle_redaction_kinds room = for_each λ raw. do
      details ← lift (V.state_details raw)
      call (record {
        event_kind = state_redacted details.1;
        event_type = details.0;
        room = room;
        raw = raw;
        encryption_info = none;
        push_actions = [];
      })

    -- `handle_sync_state_events`
    unfoldable pub handle_sync_state_events :
        Option Room → List Raw → Exec JsonError Dispatch (Unit {0})
    handle_sync_state_events room events = do
      handle_sync_events state room events
      handle_redaction_kinds room events

    -- One event of a timeline: its kind, the kind by redaction, and `Timeline`.
    timeline_event :
        Option Room
        → SyncTimelineEvent
        → String
        → HandlerKind × HandlerKind
        → Exec JsonError Dispatch (Unit {0})
    timeline_event room item event_type ks =
        let round : HandlerKind → Round = λ k. record {
          event_kind = k;
          event_type = event_type;
          room = room;
          raw = item.event;
          encryption_info = item.encryption_info;
          push_actions = item.push_actions;
        } in
        do call (round ks.0); call (round ks.1); call (round timeline)

    -- `handle_sync_timeline_events`
    unfoldable pub handle_sync_timeline_events :
        Option Room → List SyncTimelineEvent → Exec JsonError Dispatch (Unit {0})
    unfolding timeline_event
    handle_sync_timeline_events room = for_each λ item. do
      d ← lift (V.timeline_details item.event)
      timeline_event room item d.event_type (kinds d.has_state_key d.redacted)
