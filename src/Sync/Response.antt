-- ===== src/Sync/Response.antt =====
-- What is done with the answer of a sync: `process_sync`, `handle_sync_response` and
-- `notify_sync_gap` of src/matrix/sync.rs, `subscribe_sync_gap` of src/matrix/mod.rs.
-- Parameters beside those of the dispatch: the base client and the notification handlers. Handlers
-- do not subscribe to gaps here.
pub mod Telling
pub mod Gaps
pub mod Rounds
pub mod Plan
use matrix_goose.Prelude.{
  ℕ, ◌+◌, Bool, true, false, Option, none, some, String, List, [], ◌∷◌, ◌++◌, map, if◌then◌else◌,
  text_eq,
}
use matrix_goose.Map.{Map, lookup, insert}
use matrix_goose.Exec.{Result, ok, err, Exec, pure, modify, lift, for_each, continue, ◌>>=◌, ◌>>◌}
use matrix_goose.Error.{Error, serde_json}
use matrix_goose.EventHandler.Defs.{
  HandlerKind, RoomId, global_account_data, presence, to_device, room_account_data,
  ephemeral_room_data, stripped_state,
}
use matrix_goose.EventHandler.Dispatch.{
  Env, SyncTimelineEvent, Dispatch, Handlers, handle_sync_events, handle_sync_state_events,
  handle_sync_timeline_events,
}

-- `notify_sync_gap`: `Observable::set` for the room, if somebody subscribed.
abbrev pub set_observable : RoomId → Option ℕ → Map RoomId ℕ → Map RoomId ℕ
set_observable room_id none gaps = gaps
set_observable room_id (some n) gaps = insert room_id (n + 1) gaps

module _ (V : Env) where
  open V use {Room, Raw, World, JsonError}

  pub record Timeline : Type 0 where
    pub limited : Bool
    pub events : List (SyncTimelineEvent V)

  pub record JoinedRoom : Type 0 where
    pub timeline : Timeline
    pub state : List Raw
    pub account_data : List Raw
    pub ephemeral : List Raw

  pub record LeftRoom : Type 0 where
    pub timeline : Timeline
    pub state : List Raw
    pub account_data : List Raw

  pub record BaseSyncResponse (Notification : Type 0) : Type 0 where
    pub join : List (RoomId × JoinedRoom)
    pub leave : List (RoomId × LeftRoom)
    -- The events of `invite_state` of the rooms that the user is invited to.
    pub invite : List (RoomId × List Raw)
    pub presence : List Raw
    pub account_data : List Raw
    pub to_device_events : List Raw
    pub notifications : List (RoomId × List Notification)

  -- The client as the sync sees it: the store of handlers with the world, and the number of times
  -- that the gap of a room with subscribers was told.
  pub record Synced : Type 0 where
    pub dispatch : Dispatch V
    pub sync_gap_broadcast_txs : Map RoomId ℕ

  pub record BaseClient : Type 1 where
    pub Response : Type 0
    pub Notification : Type 0
    pub NotificationHandler : Type 0
    pub get_room : RoomId → World → Option Room
    pub receive_sync_response :
        Response → World → Result Error (BaseSyncResponse Notification) × World
    pub notification_handlers : World → List NotificationHandler
    -- What one notification handler does.
    pub notify : NotificationHandler → Notification → Room → World → World

  unfoldable pub notify_sync_gap : RoomId → Synced → Synced
  notify_sync_gap room_id s = record s {
    sync_gap_broadcast_txs =
        set_observable room_id (lookup room_id s.sync_gap_broadcast_txs) s.sync_gap_broadcast_txs;
  }

  -- `subscribe_sync_gap`: `entry(..).or_default()`
  unfoldable pub subscribe_sync_gap : RoomId → Synced → Synced
  subscribe_sync_gap room_id s = elim (lookup room_id s.sync_gap_broadcast_txs) [
    | some n ↦ s
    | none ↦ record s { sync_gap_broadcast_txs = insert room_id 0 s.sync_gap_broadcast_txs }
  ]

  abbrev pub converted : {A : Type 0} → Result JsonError A → Result Error A
  converted (ok a) = ok a
  converted (err e) = err serde_json

  -- A method of the dispatch, called with `?`.
  abbrev pub dispatched : Exec JsonError (Dispatch V) (Unit {0}) → Exec Error Synced (Unit {0})
  dispatched m s = let r = m s.dispatch in (converted r.0, record s { dispatch = r.1 })

  module _ (run_calls : Handlers V) (B : BaseClient) where
    abbrev pub gap : Bool → RoomId → Exec Error Synced (Unit {0})
    gap limited room_id = modify (λ s. if limited then notify_sync_gap room_id s else s)

    -- `let room = self.get_room(room_id)`, and `continue` if there is none.
    abbrev pub with_room :
        RoomId → (Option Room → Exec Error Synced (Unit {0})) → Exec Error Synced (Unit {0})
    with_room room_id body s = elim (B.get_room room_id s.dispatch.world) [
      | none ↦ (ok tt, s)
      | some room ↦ body (some room) s
    ]

    abbrev pub events : HandlerKind → Option Room → List Raw → Exec Error Synced (Unit {0})
    events kind room raws = dispatched (handle_sync_events V run_calls kind room raws)

    -- The body of the loop on the joined rooms.
    unfoldable pub handle_joined : RoomId × JoinedRoom → Exec Error Synced (Unit {0})
    handle_joined (room_id, info) = do
      gap info.timeline.limited room_id
      with_room room_id λ room. do
        events room_account_data room info.account_data
        dispatched (handle_sync_state_events V run_calls room info.state)
        dispatched (handle_sync_timeline_events V run_calls room info.timeline.events)
        events ephemeral_room_data room info.ephemeral

    -- The body of the loop on the left rooms.
    unfoldable pub handle_left : RoomId × LeftRoom → Exec Error Synced (Unit {0})
    handle_left (room_id, info) = do
      gap info.timeline.limited room_id
      with_room room_id λ room. do
        events room_account_data room info.account_data
        dispatched (handle_sync_state_events V run_calls room info.state)
        dispatched (handle_sync_timeline_events V run_calls room info.timeline.events)

    -- The body of the loop on the rooms that the user is invited to.
    unfoldable pub handle_invited : RoomId × List Raw → Exec Error Synced (Unit {0})
    handle_invited (room_id, invite_state) =
        with_room room_id λ room. events stripped_state room invite_state

    -- The futures of one handler for one room.
    abbrev pub room_futures :
        B.NotificationHandler → Option Room → List B.Notification → List (World → World)
    room_futures handler none ns = []
    room_futures handler (some room) ns = map (λ n. B.notify handler n room) ns

    abbrev pub handler_futures :
        World → B.NotificationHandler → List (RoomId × List B.Notification) → List (World → World)
    handler_futures w handler [] = []
    handler_futures w handler ((room_id, ns) ∷ rest) =
        room_futures handler (B.get_room room_id w) ns ++ handler_futures w handler rest

    abbrev pub futures :
        World
        → List B.NotificationHandler
        → List (RoomId × List B.Notification)
        → List (World → World)
    futures w [] notifications = []
    futures w (handler ∷ handlers) notifications =
        handler_futures w handler notifications ++ futures w handlers notifications

    abbrev pub run_futures : List (World → World) → World → World
    run_futures [] w = w
    run_futures (f ∷ fs) w = run_futures fs (f w)

    -- The notifications: all futures are made first, then they are run in order.
    unfoldable pub run_notifications : List (RoomId × List B.Notification) → Synced → Synced
    run_notifications notifications s =
        let w = s.dispatch.world in
        record s {
          dispatch = record (s.dispatch) {
            world = run_futures (futures w (B.notification_handlers w) notifications) w;
          };
        }

    unfoldable pub handle_sync_response :
        BaseSyncResponse B.Notification → Exec Error Synced (Unit {0})
    handle_sync_response response = do
      events global_account_data none response.account_data
      events presence none response.presence
      events to_device none response.to_device_events
      for_each handle_joined response.join
      for_each handle_left response.leave
      for_each handle_invited response.invite
      modify (run_notifications response.notifications)

    abbrev handled :
        BaseSyncResponse B.Notification
        → Result Error (Unit {0}) × Synced
        → Result Error (BaseSyncResponse B.Notification) × Synced
    handled response (ok _, s) = (ok response, s)
    handled response (err e, s) = (err e, s)

    abbrev received :
        Result Error (BaseSyncResponse B.Notification)
        → Synced
        → Result Error (BaseSyncResponse B.Notification) × Synced
    received (err e) s = (err e, s)
    received (ok response) s = handled response (handle_sync_response response s)

    unfoldable pub process_sync :
        B.Response → Synced → Result Error (BaseSyncResponse B.Notification) × Synced
    process_sync response s =
        let (r, w) = B.receive_sync_response response s.dispatch.world in
        received r (record s { dispatch = record (s.dispatch) { world = w } })
