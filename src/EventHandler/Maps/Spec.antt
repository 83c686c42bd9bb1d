-- ===== src/EventHandler/Maps/Spec.antt =====
-- What src/matrix/event_handler/maps.rs promises: one list of registrations, in their order.
use matrix_goose.Prelude.{
  Bool, ◌&&◌, ◌||◌, not, Option, none, some, List, [], ◌∷◌, ◌++◌, map, String, ◌==◌, num_eq,
  text_eq, option_eq, filter,
}
use matrix_goose.EventHandler.Defs.{
  HandlerKind, RoomId, EventHandlerHandle, EventHandlerWrapper, kind_eq,
}

pub record Registration (F : Type 0) : Type 0 where
  pub handle : EventHandlerHandle
  pub handler_fn : F

-- The registration stands under exactly this kind, type and room.
unfoldable pub selected :
    {F : Type 0} → HandlerKind → Option String → Option RoomId → Registration F → Bool
selected k t r g = g.handle.ev_kind == k && (g.handle.ev_type == t && g.handle.room_id == r)

-- The registration wants an event of this kind, type and room: a handler for all types, or for
-- all rooms, wants each of them.
unfoldable pub applies : {F : Type 0} → HandlerKind → String → Option RoomId → Registration F → Bool
applies k t r g =
    g.handle.ev_kind == k
    && ((g.handle.ev_type == none || g.handle.ev_type == some t)
        && (g.handle.room_id == none || g.handle.room_id == r))

abbrev pub wrap : {F : Type 0} → Registration F → EventHandlerWrapper F
wrap g = record { handler_fn = g.handler_fn; handler_id = g.handle.handler_id }

abbrev pub registered :
    {F : Type 0}
    → HandlerKind
    → Option String
    → Option RoomId
    → List (Registration F)
    → List (EventHandlerWrapper F)
registered k t r gs = map wrap (filter (selected k t r) gs)

abbrev pub spec_add :
    {F : Type 0} → EventHandlerHandle → F → List (Registration F) → List (Registration F)
spec_add h f gs = gs ++ record { handle = h; handler_fn = f } ∷ []

unfoldable pub same_handle : {F : Type 0} → EventHandlerHandle → Registration F → Bool
same_handle h g = selected h.ev_kind h.ev_type h.room_id g && g.handle.handler_id == h.handler_id

abbrev pub spec_remove :
    {F : Type 0} → EventHandlerHandle → List (Registration F) → List (Registration F)
spec_remove h = filter (λ g. not (same_handle h g))

-- A registration as an event receives it: its function, and a handle with its id and with the kind,
-- type and room that it was looked up by. The room is the event's, also where the handler was
-- registered for all rooms.
abbrev pub offered :
    {F : Type 0}
    → HandlerKind
    → Option String
    → Option RoomId
    → Registration F
    → EventHandlerHandle × F
offered k t r g = (
  record { ev_kind = k; ev_type = t; room_id = r; handler_id = g.handle.handler_id },
  g.handler_fn,
)

abbrev spec_room :
    {F : Type 0}
    → HandlerKind
    → String
    → Option RoomId
    → List (Registration F)
    → List (EventHandlerHandle × F)
spec_room k t none gs = []
spec_room k t (some r) gs =
    map (offered k none (some r)) (filter (selected k none (some r)) gs)
    ++ map (offered k (some t) (some r)) (filter (selected k (some t) (some r)) gs)

-- Handlers for all types before those of the type, and those of no room before those of the room.
abbrev pub spec_get :
    {F : Type 0}
    → HandlerKind
    → String
    → Option RoomId
    → List (Registration F)
    → List (EventHandlerHandle × F)
spec_get k t r gs =
    map (offered k none r) (filter (selected k none none) gs)
    ++ (map (offered k (some t) r) (filter (selected k (some t) none) gs) ++ spec_room k t r gs)
