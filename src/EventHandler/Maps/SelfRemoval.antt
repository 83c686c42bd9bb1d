-- ===== src/EventHandler/Maps/SelfRemoval.antt =====
-- The handle that src/matrix/event_handler/maps.rs hands to a handler, when it is used to remove it.
use matrix_goose.Prelude.{ℕ, Option, none, some, ◌≡◌, refl, List, [], ◌∷◌, ◌++◌, String}
use matrix_goose.EventHandler.Defs.{
  HandlerKind, RoomId, EventHandlerHandle, EventHandlerWrapper, kind_eq,
}
use matrix_goose.EventHandler.Maps.{
  EventHandlerMaps, get_handlers, deliver, kind_type_eq, kind_room_eq, kind_type_room_eq, remove,
  remove_at, key_of,
}
use matrix_goose.EventHandler.Maps.Buckets.{handlers}

module _ {F : Type 0} where
  unfoldable pub All : (EventHandlerHandle × F → Type 0) → List (EventHandlerHandle × F) → Type 0
  All P [] = Unit
  All P (x ∷ xs) = P x × All P xs

  All-append :
      (P : EventHandlerHandle × F → Type 0) (xs ys : List (EventHandlerHandle × F))
      → All P xs
      → All P ys
      → All P (xs ++ ys)
  unfolding All
  All-append P [] ys a b = b
  All-append P (x ∷ xs) ys a b = (a.0, All-append P xs ys a.1 b)

  All-deliver :
      (P : EventHandlerHandle × F → Type 0) (k : HandlerKind) (t : Option String)
      (r : Option RoomId)
      → ((h : EventHandlerHandle) (f : F) → h.room_id ≡ r → P (h, f))
      → (ws : List (EventHandlerWrapper F)) → All P (deliver k t r ws)
  unfolding All
  All-deliver P k t r p [] = tt
  All-deliver P k t r p (w ∷ ws) = (p _ _ refl, All-deliver P k t r p ws)

  -- A handle with a room names a key with a room.
  global-remove_at :
      (k : HandlerKind) (t : Option String) (r : RoomId) (n : ℕ) (m : EventHandlerMaps F)
      (ek : HandlerKind) (et : String)
      → get_handlers ek et none (remove_at (key_of k t (some r)) n m) ≡ get_handlers ek et none m
  unfolding get_handlers remove key_of
  global-remove_at k none r n m ek et = refl
  global-remove_at k (some t) r n m ek et = refl

  global-remove :
      (h : EventHandlerHandle) (r : RoomId) (m : EventHandlerMaps F) (ek : HandlerKind)
      (et : String)
      → h.room_id ≡ some r
      → get_handlers ek et none (remove h m) ≡ get_handlers ek et none m
  unfolding remove
  global-remove h r m ek et e = rw e (global-remove_at h.ev_kind h.ev_type r h.handler_id m ek et)

  -- None of the handles that handlers are given with an event of a room removes, when it is passed
  -- to `remove`, a handler that was registered for all rooms: every event with no room still
  -- reaches the handlers that it reached.
  pub self_removal_fails :
      (k : HandlerKind) (t : String) (r : RoomId) (m : EventHandlerMaps F) (ek : HandlerKind)
      (et : String)
      → All
          (λ (h, f). get_handlers ek et none (remove h m) ≡ get_handlers ek et none m)
          (get_handlers k t (some r) m)
  unfolding get_handlers
  self_removal_fails k t r m ek et = All-append _ _ _ (here none (handlers k m.by_kind)) (
      All-append _ _ _
        (here (some t) (handlers (record { ev_kind = k; ev_type = t }) m.by_kind_type))
        (All-append _ _ _
          (here none (handlers (record { ev_kind = k; room_id = r }) m.by_kind_roomid))
          (here (some t)
            (handlers (record { ev_kind = k; ev_type = t; room_id = r }) m.by_kind_type_roomid))))
    where
      here :
          (t' : Option String) (ws : List (EventHandlerWrapper F))
          → All
              (λ (h, f). get_handlers ek et none (remove h m) ≡ get_handlers ek et none m)
              (deliver k t' (some r) ws)
      here t' ws = All-deliver _ k t' (some r) (λ h f e. global-remove h r m ek et e) ws
