-- ===== src/Sync/Response/Plan.antt =====
-- The rounds of handlers that an answer of a sync leads to, read off the answer (src/matrix/sync.rs,
-- `handle_sync_response`).
use mathlib.Core.List.{foldl}
use mathlib.Core.Path.{fun_ext, ap₂}
use matrix_goose.Prelude.{
  sym, ◌∙◌, ap, ◌∷◌, ◌≡◌, refl, subst, Bool, true, false, Option, none, some, List, [], ◌++◌, map,
}
use matrix_goose.Exec.{ok, Exec, modify, for_each, ◌>>◌}
use matrix_goose.Error.{Error}
use matrix_goose.EventHandler.Defs.{
  HandlerKind, RoomId, room_account_data, ephemeral_room_data, stripped_state, global_account_data,
  presence, to_device,
}
use matrix_goose.EventHandler.Dispatch.{
  Env, Round, Dispatch, Handlers, SyncTimelineEvent, handle_sync_events, handle_sync_state_events,
  handle_sync_timeline_events,
}
use matrix_goose.EventHandler.Dispatch.Plan.{
  parsed, outcome, flat_map, run_rounds, kind_round, state_rounds, state_outcome, timeline_rounds,
  timeline_parse, handle_sync_events_lem, handle_sync_state_events_lem,
  handle_sync_timeline_events_lem,
}
use matrix_goose.Sync.Response.{
  BaseClient, BaseSyncResponse, JoinedRoom, LeftRoom, Synced, notify_sync_gap, dispatched, gap,
  with_room, events, handle_joined, handle_left, handle_invited, run_notifications,
  handle_sync_response, futures, run_futures, room_futures, handler_futures,
}
use matrix_goose.Sync.Response.Rounds.{
  Does, Doing, Running, Doing-then, Running-then, Running-dispatched, Running-modify,
}

module _ (V : Env) (run_calls : Handlers V) (B : BaseClient V) where
  abbrev pub kind_rounds : HandlerKind → Option V.Room → List V.Raw → List (Round V)
  kind_rounds k room raws = map (kind_round V run_calls k room) (parsed V.extract_type raws)

  abbrev pub items_rounds : Option V.Room → List (SyncTimelineEvent V) → List (Round V)
  items_rounds room items =
      flat_map (timeline_rounds V run_calls room) (parsed (timeline_parse V run_calls) items)

  Running-events :
      (k : HandlerKind) (room : Option V.Room) (raws : List V.Raw)
      → Running V run_calls (kind_rounds k room raws) (events V run_calls B k room raws)
  Running-events k room raws =
      Running-dispatched V run_calls (kind_rounds k room raws) (λ d. outcome V.extract_type raws)
        (handle_sync_events V run_calls k room raws)
        (handle_sync_events_lem V run_calls k room raws)

  Running-state :
      (room : Option V.Room) (raws : List V.Raw)
      → Running V run_calls
          (state_rounds V run_calls room raws)
          (dispatched V (handle_sync_state_events V run_calls room raws))
  Running-state room raws =
      Running-dispatched V run_calls (state_rounds V run_calls room raws)
        (λ d. state_outcome V run_calls raws) (handle_sync_state_events V run_calls room raws)
        (handle_sync_state_events_lem V run_calls room raws)

  Running-timeline :
      (room : Option V.Room) (items : List (SyncTimelineEvent V))
      → Running V run_calls
          (items_rounds room items)
          (dispatched V (handle_sync_timeline_events V run_calls room items))
  Running-timeline room items =
      Running-dispatched V run_calls (items_rounds room items)
        (λ d. outcome (timeline_parse V run_calls) items)
        (handle_sync_timeline_events V run_calls room items)
        (handle_sync_timeline_events_lem V run_calls room items)

  -- What a part of an answer leads to: rounds, or the rounds of a room, if the client knows it then.
  pub data Step : Type 0 where
    always : List (Round V) → Step
    in_room : RoomId → (Option V.Room → List (Round V)) → Step

  abbrev pub known_rounds : Option V.Room → (Option V.Room → List (Round V)) → List (Round V)
  known_rounds none qs = []
  known_rounds (some room) qs = qs (some room)

  abbrev pub after_step : Step → Dispatch V → Dispatch V
  after_step (always qs) d = run_rounds V run_calls qs d
  after_step (in_room id qs) d = run_rounds V run_calls (known_rounds (B.get_room id d.world) qs) d

  abbrev pub after_steps : List Step → Dispatch V → Dispatch V
  after_steps [] d = d
  after_steps (x ∷ xs) d = after_steps xs (after_step x d)

  after_steps-append :
      (xs ys : List Step) (d : Dispatch V)
      → after_steps (xs ++ ys) d ≡ after_steps ys (after_steps xs d)
  after_steps-append [] ys d = refl
  after_steps-append (x ∷ xs) ys d = after_steps-append xs ys (after_step x d)

  Doing-with_room :
      (id : RoomId) (qs : Option V.Room → List (Round V))
      (body : Option V.Room → Exec Error (Synced V) (Unit {0}))
      → ((o : Option V.Room) → Running V run_calls (qs o) (body o))
      → Doing V run_calls (after_step (in_room id qs)) (with_room V run_calls B id body)
  unfolding Does
  Doing-with_room id qs body h s = go (B.get_room id s.dispatch.world)
    where
      go :
          (o : Option V.Room)
          → Does V run_calls
              (λ d. run_rounds V run_calls (known_rounds o qs) d)
              s
              (elim o [ none ↦ (ok tt, s) | some room ↦ body (some room) s ])
      go none = refl
      go (some room) = h (some room) s

  Running-gap :
      (limited : Bool) (id : RoomId) → Running V run_calls [] (gap V run_calls B limited id)
  unfolding notify_sync_gap
  Running-gap true id = Running-modify V run_calls _ (λ s. refl)
  Running-gap false id = Running-modify V run_calls _ (λ s. refl)

  Doing-for_each :
      {A : Type 0} (f : A → Step) (body : A → Exec Error (Synced V) (Unit {0}))
      → ((x : A) → Doing V run_calls (after_step (f x)) (body x))
      → (xs : List A) → Doing V run_calls (after_steps (map f xs)) (for_each body xs)
  unfolding Does
  Doing-for_each f body h [] s = refl
  Doing-for_each f body h (x ∷ xs) s =
      Doing-then V run_calls (after_step (f x)) (after_steps (map f xs)) (body x) (for_each body xs)
        (h x) (Doing-for_each f body h xs) s

  -- The rounds of a joined room.
  abbrev pub joined_plan : JoinedRoom V → Option V.Room → List (Round V)
  joined_plan info room =
      kind_rounds room_account_data room info.account_data
      ++ (state_rounds V run_calls room info.state
          ++ (items_rounds room info.timeline.events
              ++ kind_rounds ephemeral_room_data room info.ephemeral))

  abbrev pub joined_step : RoomId × JoinedRoom V → Step
  joined_step (id, info) = in_room id (joined_plan info)

  -- The rounds of a left room.
  abbrev pub left_plan : LeftRoom V → Option V.Room → List (Round V)
  left_plan info room =
      kind_rounds room_account_data room info.account_data
      ++ (state_rounds V run_calls room info.state ++ items_rounds room info.timeline.events)

  abbrev pub left_step : RoomId × LeftRoom V → Step
  left_step (id, info) = in_room id (left_plan info)

  abbrev pub invited_step : RoomId × List V.Raw → Step
  invited_step (id, raws) = in_room id (λ room. kind_rounds stripped_state room raws)

  Doing-room :
      (limited : Bool) (id : RoomId) (qs : Option V.Room → List (Round V))
      (body : Option V.Room → Exec Error (Synced V) (Unit {0}))
      → ((o : Option V.Room) → Running V run_calls (qs o) (body o))
      → Doing V run_calls
          (after_step (in_room id qs))
          (gap V run_calls B limited id >> with_room V run_calls B id body)
  Doing-room limited id qs body h =
      Doing-then V run_calls (λ d. d) (after_step (in_room id qs)) _ _ (Running-gap limited id)
        (Doing-with_room id qs body h)

  Doing-handle_joined :
      (x : RoomId × JoinedRoom V)
      → Doing V run_calls (after_step (joined_step x)) (handle_joined V run_calls B x)
  unfolding handle_joined
  Doing-handle_joined (id, info) = Doing-room info.timeline.limited id (joined_plan info) _ λ o.
      let timeline = items_rounds o info.timeline.events in
      let ephemeral = kind_rounds ephemeral_room_data o info.ephemeral in
      let states = state_rounds V run_calls o info.state in
      Running-then V run_calls (kind_rounds room_account_data o info.account_data)
        (states ++ (timeline ++ ephemeral)) _ _
        (Running-events room_account_data o info.account_data)
        (Running-then V run_calls states (timeline ++ ephemeral) _ _ (Running-state o info.state) (
          Running-then V run_calls timeline ephemeral _ _ (Running-timeline o info.timeline.events)
            (Running-events ephemeral_room_data o info.ephemeral)))

  Doing-handle_left :
      (x : RoomId × LeftRoom V)
      → Doing V run_calls (after_step (left_step x)) (handle_left V run_calls B x)
  unfolding handle_left
  Doing-handle_left (id, info) = Doing-room info.timeline.limited id (left_plan info) _ λ o.
      let timeline = items_rounds o info.timeline.events in
      let states = state_rounds V run_calls o info.state in
      Running-then V run_calls (kind_rounds room_account_data o info.account_data)
        (states ++ timeline) _ _ (Running-events room_account_data o info.account_data)
        (Running-then V run_calls states timeline _ _ (Running-state o info.state)
          (Running-timeline o info.timeline.events))

  Doing-handle_invited :
      (x : RoomId × List V.Raw)
      → Doing V run_calls (after_step (invited_step x)) (handle_invited V run_calls B x)
  unfolding handle_invited
  Doing-handle_invited (id, raws) =
      Doing-with_room id (λ room. kind_rounds stripped_state room raws) _
        (λ room. Running-events stripped_state room raws)

  -- The steps of an answer: its data that belong to no room, then the joined rooms, the left rooms
  -- and the rooms that the user is invited to.
  abbrev pub response_plan : BaseSyncResponse V B.Notification → List Step
  response_plan response =
      always (kind_rounds global_account_data none response.account_data)
      ∷ always (kind_rounds presence none response.presence)
      ∷ always (kind_rounds to_device none response.to_device_events)
      ∷ (map joined_step response.join
          ++ (map left_step response.leave ++ map invited_step response.invite))

  -- What one handler of notifications is called with for the notifications of a room, which the
  -- client knew or not when the calls were made.
  abbrev pub told_of :
      B.NotificationHandler → List B.Notification → Option V.Room → List (V.World → V.World)
  told_of handler ns none = []
  told_of handler ns (some room) = map (λ n. B.notify handler n room) ns

  abbrev pub told :
      List B.NotificationHandler
      → List (RoomId × List B.Notification)
      → V.World
      → List (V.World → V.World)
  told handlers ns w =
      flat_map (λ h. flat_map (λ (id, of_room). told_of h of_room (B.get_room id w)) ns) handlers

  -- What the notification handlers do: each is called for each notification, in order.
  abbrev pub notified : List (RoomId × List B.Notification) → Dispatch V → Dispatch V
  notified ns d = record d {
    world = foldl (λ w f. f w) d.world (told (B.notification_handlers d.world) ns d.world);
  }

  room_futures-told :
      (handler : B.NotificationHandler) (ns : List B.Notification) (o : Option V.Room)
      → room_futures V run_calls B handler o ns ≡ told_of handler ns o
  room_futures-told handler ns none = refl
  room_futures-told handler ns (some room) = refl

  handler_futures-told :
      (w : V.World) (h : B.NotificationHandler) (ns : List (RoomId × List B.Notification))
      → handler_futures V run_calls B w h ns
        ≡ flat_map (λ (id, of_room). told_of h of_room (B.get_room id w)) ns
  handler_futures-told w h [] = refl
  handler_futures-told w h ((id, of_room) ∷ ns) =
      ap₂ (λ a b. a ++ b) (room_futures-told h of_room (B.get_room id w))
        (handler_futures-told w h ns)

  futures-told :
      (w : V.World) (hs : List B.NotificationHandler) (ns : List (RoomId × List B.Notification))
      → futures V run_calls B w hs ns ≡ told hs ns w
  futures-told w [] ns = refl
  futures-told w (h ∷ hs) ns =
      ap₂ (λ a b. a ++ b) (handler_futures-told w h ns) (futures-told w hs ns)

  run_futures-foldl :
      (fs : List (V.World → V.World)) (w : V.World)
      → run_futures V run_calls B fs w ≡ foldl (λ v f. f v) w fs
  run_futures-foldl [] w = refl
  run_futures-foldl (f ∷ fs) w = run_futures-foldl fs (f w)

  Doing-run_notifications :
      (ns : List (RoomId × List B.Notification))
      → Doing V run_calls (notified ns) (modify (run_notifications V run_calls B ns))
  unfolding Does run_notifications
  Doing-run_notifications ns s =
      let d = s.dispatch in
      ap (λ w. record d { world = w })
        (ap (λ fs. run_futures V run_calls B fs d.world)
            (futures-told d.world (B.notification_handlers d.world) ns)
          ∙ run_futures-foldl (told (B.notification_handlers d.world) ns d.world) d.world)

  -- The steps of the rooms, one list after the other.
  rooms_lem :
      (xs ys zs : List Step) (d : Dispatch V)
      → after_steps zs (after_steps ys (after_steps xs d)) ≡ after_steps (xs ++ (ys ++ zs)) d
  rooms_lem xs ys zs d =
      sym (after_steps-append xs (ys ++ zs) d ∙ after_steps-append ys zs (after_steps xs d))

  Doing-handle_sync_response :
      (response : BaseSyncResponse V B.Notification)
      → Doing V run_calls
          (λ d. notified response.notifications (after_steps (response_plan response) d))
          (handle_sync_response V run_calls B response)
  unfolding handle_sync_response
  Doing-handle_sync_response response =
      let g = notified response.notifications in
      let i = map invited_step response.invite in
      let l = map left_step response.leave in
      let j = map joined_step response.join in
      let t = kind_rounds to_device none response.to_device_events in
      let p = kind_rounds presence none response.presence in
      let a = kind_rounds global_account_data none response.account_data in
      subst
        (λ f.
          Doing V run_calls
            (λ d. g (
              f (run_rounds V run_calls t (run_rounds V run_calls p (run_rounds V run_calls a d)))))
            (handle_sync_response V run_calls B response))
        (fun_ext (rooms_lem j l i))
        (Doing-then V run_calls (run_rounds V run_calls a)
          (λ d. g (
            after_steps i (
              after_steps l
                (after_steps j (run_rounds V run_calls t (run_rounds V run_calls p d))))))
          _ _ (Running-events global_account_data none response.account_data)
          (Doing-then V run_calls (run_rounds V run_calls p)
            (λ d. g (after_steps i (after_steps l (after_steps j (run_rounds V run_calls t d))))) _
            _ (Running-events presence none response.presence)
            (Doing-then V run_calls (run_rounds V run_calls t)
              (λ d. g (after_steps i (after_steps l (after_steps j d)))) _ _
              (Running-events to_device none response.to_device_events)
              (Doing-then V run_calls (after_steps j) (λ d. g (after_steps i (after_steps l d))) _ _
                (Doing-for_each joined_step _ Doing-handle_joined response.join)
                (Doing-then V run_calls (after_steps l) (λ d. g (after_steps i d)) _ _
                  (Doing-for_each left_step _ Doing-handle_left response.leave)
                  (Doing-then V run_calls (after_steps i) g _ _
                    (Doing-for_each invited_step _ Doing-handle_invited response.invite)
                    (Doing-run_notifications response.notifications)))))))

  -- A response that is handled to its end makes the handlers run in this order: its account data,
  -- presence and to-device events, then each joined room's account data, state, timeline and
  -- ephemeral events, each left room's account data, state and timeline, the stripped state of
  -- each room that the user is invited to, and last the notification handlers, each for each
  -- notification of a room. A room that the client does not know when it comes to its part is skipped.
  pub handle_sync_response-rounds :
      (response : BaseSyncResponse V B.Notification) (s t : Synced V)
      → handle_sync_response V run_calls B response s ≡ (ok tt, t)
      → t.dispatch
        ≡ notified response.notifications (after_steps (response_plan response) s.dispatch)
  unfolding Does
  handle_sync_response-rounds response s t h =
      subst
        (Does V run_calls
          (λ d. notified response.notifications (after_steps (response_plan response) d)) s)
        h (Doing-handle_sync_response response s)
