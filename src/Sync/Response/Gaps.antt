-- ===== src/Sync/Response/Gaps.antt =====
-- How often an answer of a sync tells the gap of a room (src/matrix/sync.rs).
use matrix_goose.Prelude.{◌≡◌, refl, subst, ℕ, ◌+◌, Bool, Option, none, List, text_eq, arith}
use matrix_goose.Map.{lookup}
use matrix_goose.Exec.{ok, Exec, modify, ◌>>◌}
use matrix_goose.Error.{Error}
use matrix_goose.EventHandler.Defs.{
  HandlerKind, RoomId, room_account_data, ephemeral_room_data, stripped_state, global_account_data,
  presence, to_device,
}
use matrix_goose.EventHandler.Dispatch.{
  Env, Handlers, SyncTimelineEvent, handle_sync_events, handle_sync_state_events,
  handle_sync_timeline_events,
}
use matrix_goose.Sync.Response.{
  BaseClient, BaseSyncResponse, JoinedRoom, LeftRoom, Synced, dispatched, gap, with_room, events,
  handle_joined, handle_left, handle_invited, run_notifications, handle_sync_response,
}
use matrix_goose.Sync.Response.Telling.{
  add_to, sum_of, sum_of-zero, once_if, Tells, Tells-none, Telling, Telling-then,
  Telling-dispatched, Telling-for_each, Telling-gap, Telling-with_room,
}

module _ {V : Env} where
  module _ (run_calls : Handlers V) (B : BaseClient V) where
    abbrev joined_gap : RoomId → RoomId × JoinedRoom V → ℕ
    joined_gap r (room_id, info) = once_if r room_id info.timeline.limited

    abbrev left_gap : RoomId → RoomId × LeftRoom V → ℕ
    left_gap r (room_id, info) = once_if r room_id info.timeline.limited

    Telling-silent :
        (r : RoomId) (m n : Exec Error (Synced V) (Unit {0}))
        → Telling r 0 m
        → Telling r 0 n
        → Telling r 0 (m >> n)
    Telling-silent r m n h k = Telling-then r 0 0 m n h k

    Telling-silent_first :
        (r : RoomId) (b : ℕ) (m n : Exec Error (Synced V) (Unit {0}))
        → Telling r 0 m
        → Telling r b n
        → Telling r b (m >> n)
    Telling-silent_first r b m n h k =
        subst (λ c. Telling r c (m >> n)) (omega arith) (Telling-then r 0 b m n h k)

    Telling-events :
        (r : RoomId) (k : HandlerKind) (o : Option V.Room) (raws : List V.Raw)
        → Telling r 0 (events V run_calls B k o raws)
    Telling-events r k o raws = Telling-dispatched r (handle_sync_events V run_calls k o raws)

    Telling-state :
        (r : RoomId) (o : Option V.Room) (raws : List V.Raw)
        → Telling r 0 (dispatched V (handle_sync_state_events V run_calls o raws))
    Telling-state r o raws = Telling-dispatched r (handle_sync_state_events V run_calls o raws)

    Telling-timeline :
        (r : RoomId) (o : Option V.Room) (items : List (SyncTimelineEvent V))
        → Telling r 0 (dispatched V (handle_sync_timeline_events V run_calls o items))
    Telling-timeline r o items =
        Telling-dispatched r (handle_sync_timeline_events V run_calls o items)

    -- What is done with a room that may have a gap.
    Telling-gap_then :
        (r room_id : RoomId) (limited : Bool)
        (body : Option V.Room → Exec Error (Synced V) (Unit {0}))
        → ((o : Option V.Room) → Telling r 0 (body o))
        → Telling r
            (once_if r room_id limited)
            (gap V run_calls B limited room_id >> with_room V run_calls B room_id body)
    Telling-gap_then r room_id limited body h =
        subst
          (λ n.
            Telling r n (gap V run_calls B limited room_id >> with_room V run_calls B room_id body))
          (omega arith)
          (Telling-then r (once_if r room_id limited) 0 _ _
            (Telling-gap run_calls B r room_id limited)
            (Telling-with_room run_calls B r room_id body h))

    Telling-handle_joined :
        (r : RoomId) (x : RoomId × JoinedRoom V)
        → Telling r (joined_gap r x) (handle_joined V run_calls B x)
    unfolding handle_joined
    Telling-handle_joined r (room_id, info) =
        Telling-gap_then r room_id info.timeline.limited _ λ o.
          Telling-silent r _ _ (Telling-events r room_account_data o info.account_data) (
            Telling-silent r _ _ (Telling-state r o info.state) (
              Telling-silent r _ _ (Telling-timeline r o info.timeline.events)
                (Telling-events r ephemeral_room_data o info.ephemeral)))

    Telling-handle_left :
        (r : RoomId) (x : RoomId × LeftRoom V)
        → Telling r (left_gap r x) (handle_left V run_calls B x)
    unfolding handle_left
    Telling-handle_left r (room_id, info) = Telling-gap_then r room_id info.timeline.limited _ λ o.
        Telling-silent r _ _ (Telling-events r room_account_data o info.account_data) (
          Telling-silent r _ _ (Telling-state r o info.state)
            (Telling-timeline r o info.timeline.events))

    Telling-handle_invited :
        (r : RoomId) (x : RoomId × List V.Raw) → Telling r 0 (handle_invited V run_calls B x)
    unfolding handle_invited
    Telling-handle_invited r (room_id, raws) =
        Telling-with_room run_calls B r room_id (λ o. events V run_calls B stripped_state o raws)
          (λ o. Telling-events r stripped_state o raws)

    -- How often a response says that the timeline of the room `r` has a gap.
    abbrev pub gaps_of : RoomId → BaseSyncResponse V B.Notification → ℕ
    gaps_of r response = sum_of (joined_gap r) response.join + sum_of (left_gap r) response.leave

    Telling-run_notifications :
        (r : RoomId) (ns : List (RoomId × List B.Notification))
        → Telling r 0 (modify (run_notifications V run_calls B ns))
    unfolding run_notifications
    Telling-run_notifications r ns s =
        Tells-none r s (run_notifications V run_calls B ns s) (ok tt) refl

    Telling-handle_sync_response :
        (r : RoomId) (response : BaseSyncResponse V B.Notification)
        → Telling r (gaps_of r response) (handle_sync_response V run_calls B response)
    unfolding handle_sync_response
    Telling-handle_sync_response r response =
        subst (λ n. Telling r n (handle_sync_response V run_calls B response))
          (omega (arith, sum_of-zero response.invite))
          (Telling-silent_first r _ _ _
            (Telling-events r global_account_data none response.account_data)
            (Telling-silent_first r _ _ _ (Telling-events r presence none response.presence) (
              Telling-silent_first r _ _ _
                (Telling-events r to_device none response.to_device_events)
                (Telling-then r (sum_of (joined_gap r) response.join) _ _ _
                  (Telling-for_each r (joined_gap r) _ (Telling-handle_joined r) response.join)
                  (Telling-then r (sum_of (left_gap r) response.leave) _ _ _
                    (Telling-for_each r (left_gap r) _ (Telling-handle_left r) response.leave)
                    (Telling-then r (sum_of (λ x. 0) response.invite) 0 _ _
                      (Telling-for_each r (λ x. 0) _ (Telling-handle_invited r) response.invite)
                      (Telling-run_notifications r response.notifications)))))))

    -- A response that is handled to its end tells the gap of each room that somebody subscribed to
    -- as often as the response says that the room's timeline is limited, whether or not the client
    -- knows the room, and leaves the other rooms unsubscribed.
    pub handle_sync_response-gaps :
        (r : RoomId) (response : BaseSyncResponse V B.Notification) (s t : Synced V)
        → handle_sync_response V run_calls B response s ≡ (ok tt, t)
        → lookup r t.sync_gap_broadcast_txs
          ≡ add_to (gaps_of r response) (lookup r s.sync_gap_broadcast_txs)
    unfolding Tells
    handle_sync_response-gaps r response s t h =
        subst (Tells r (gaps_of r response) s) h (Telling-handle_sync_response r response s)
