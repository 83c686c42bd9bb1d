-- ===== src/EventHandler/Maps/Refinement.antt =====
-- The four maps of src/matrix/event_handler/maps.rs implement the list of registrations.
use matrix_goose.Prelude.{
  ℕ, Bool, true, false, ◌&&◌, not, Option, none, some, ◌≡◌, refl, List, [], ◌∷◌, ◌++◌, map, arith,
  String, ◌==◌, filter, filter-append, map-append, if◌then◌else◌, text_eq, option_eq, num_eq,
  filter-filter, filter-map, filter_congr, append-nil, Bool-cases, inl, inr, and_iff, and_true, ◌∙◌,
  beq_comm, ap, refl,
}
use mathlib.Core.Path.{ap₂}
use matrix_goose.Map.{lookup}
use matrix_goose.EventHandler.Defs.{
  HandlerKind, RoomId, EventHandlerHandle, EventHandlerWrapper, kind_eq,
}
use matrix_goose.EventHandler.Maps.{
  EventHandlerMaps, kind_type_eq, kind_room_eq, key_of, kind_type_room_eq, no_handlers, add, remove,
  get_handlers, add_at, remove_at, deliver,
}
use matrix_goose.EventHandler.Maps.Buckets.{
  handlers, retain, handlers-push_handler, handlers-remove_entry,
}
use matrix_goose.EventHandler.Maps.Spec.{
  Registration, selected, registered, wrap, offered, same_handle, spec_add, spec_remove, spec_get,
}

-- The handle stands under this kind, type and room.
abbrev at_key : HandlerKind → Option String → Option RoomId → EventHandlerHandle → Bool
at_key k t r h = h.ev_kind == k && (h.ev_type == t && h.room_id == r)

module _ {F : Type 0} (k : HandlerKind) (t : Option String) (r : Option RoomId) where
  registered-add :
      (h : EventHandlerHandle) (f : F) (gs : List (Registration F))
      → registered k t r (spec_add h f gs) ≡ (
          if at_key k t r h
          then registered k t r gs ++ record { handler_fn = f; handler_id = h.handler_id } ∷ []
          else registered k t r gs)
  unfolding selected
  registered-add h f gs = rw filter-append (elim (Bool-cases (at_key k t r h)) [
    | inl same ↦ rw same (rw map-append)
    | inr other ↦ rw other (rw append-nil)
  ])

  selected_lem :
      (g : Registration F)
      → selected k t r g ≡ true
      → (g.handle.ev_kind ≡ k) × (g.handle.ev_type ≡ t) × (g.handle.room_id ≡ r)
  unfolding selected
  selected_lem g s =
      let (a, b) = (and_iff _ _).0 s in
      let (c, d) = (and_iff _ _).0 b in
      ((kind_eq.beq_iff _ _).0 a, (option_eq.beq_iff _ _).0 c, (option_eq.beq_iff _ _).0 d)

  same_handle-selected :
      (h : EventHandlerHandle) (g : Registration F)
      → selected k t r g ≡ true
      → same_handle h g ≡ (at_key k t r h && g.handle.handler_id == h.handler_id)
  unfolding selected same_handle
  same_handle-selected h g s =
      let (a, b, c) = selected_lem g s in
      rw (a, b, c, beq_comm k h.ev_kind, beq_comm t h.ev_type, beq_comm r h.room_id)

  kept :
      (h : EventHandlerHandle) (b : Bool)
      → at_key k t r h ≡ b
      → (g : Registration F)
      → (not (same_handle h g) && selected k t r g)
        ≡ (selected k t r g && (if b then not (g.handle.handler_id == h.handler_id) else true))
  kept h b e g = ground (arith, same_handle-selected h g)

  registered-remove :
      (h : EventHandlerHandle) (gs : List (Registration F))
      → registered k t r (spec_remove h gs) ≡ (
          if at_key k t r h then retain h.handler_id (registered k t r gs) else registered k t r gs)
  registered-remove h gs = elim (Bool-cases (at_key k t r h)) [
    | inl here ↦
        rw (here, filter-filter, filter-map, filter-filter)
          (ap (map wrap) (filter_congr _ _ gs (kept h true here)))
    | inr away ↦
        rw (away, filter-filter)
          (ap (map wrap)
            (filter_congr _ _ gs λ g. kept h false away g ∙ and_true (selected k t r g)))
  ]

module _ {F : Type 0} where
  -- What the entry of this kind, type and room holds, in whichever of the four maps it stands.
  abbrev pub stored :
      HandlerKind
      → Option String
      → Option RoomId
      → EventHandlerMaps F
      → List (EventHandlerWrapper F)
  stored k none none m = handlers k m.by_kind
  stored k (some t) none m = handlers (record { ev_kind = k; ev_type = t }) m.by_kind_type
  stored k none (some r) m = handlers (record { ev_kind = k; room_id = r }) m.by_kind_roomid
  stored k (some t) (some r) m =
      handlers (record { ev_kind = k; ev_type = t; room_id = r }) m.by_kind_type_roomid

  pub record Refines (m : EventHandlerMaps F) (gs : List (Registration F)) : Type 0 where
    pub at :
        (k : HandlerKind) (t : Option String) (r : Option RoomId)
        → stored k t r m ≡ registered k t r gs

  stored-add_at :
      (k : HandlerKind) (t : Option String) (r : Option RoomId) (hk : HandlerKind)
      (ht : Option String) (hr : Option RoomId) (w : EventHandlerWrapper F) (m : EventHandlerMaps F)
      → stored k t r (add_at (key_of hk ht hr) w m)
        ≡ (if hk == k && (ht == t && hr == r) then stored k t r m ++ w ∷ [] else stored k t r m)
  unfolding add key_of
  stored-add_at k none none hk none none w m = rw handlers-push_handler (ground arith)
  stored-add_at k (some t) none hk (some ht) none w m = rw handlers-push_handler (ground arith)
  stored-add_at k none (some r) hk none (some hr) w m = rw handlers-push_handler (ground arith)
  stored-add_at k (some t) (some r) hk (some ht) (some hr) w m =
      rw handlers-push_handler (ground arith)
  stored-add_at k t r hk ht hr w m = ground arith

  stored-remove_at :
      (k : HandlerKind) (t : Option String) (r : Option RoomId) (hk : HandlerKind)
      (ht : Option String) (hr : Option RoomId) (n : ℕ) (m : EventHandlerMaps F)
      → stored k t r (remove_at (key_of hk ht hr) n m)
        ≡ (if hk == k && (ht == t && hr == r) then retain n (stored k t r m) else stored k t r m)
  unfolding remove key_of
  stored-remove_at k none none hk none none n m = rw handlers-remove_entry (ground arith)
  stored-remove_at k (some t) none hk (some ht) none n m = rw handlers-remove_entry (ground arith)
  stored-remove_at k none (some r) hk none (some hr) n m = rw handlers-remove_entry (ground arith)
  stored-remove_at k (some t) (some r) hk (some ht) (some hr) n m =
      rw handlers-remove_entry (ground arith)
  stored-remove_at k t r hk ht hr n m = ground arith

  pub Refines-empty : Refines no_handlers []
  unfolding handlers lookup
  Refines-empty = record { at = empty_at }
    where
      empty_at :
          (k : HandlerKind) (t : Option String) (r : Option RoomId) → stored k t r no_handlers ≡ []
      empty_at k none none = refl
      empty_at k (some t) none = refl
      empty_at k none (some r) = refl
      empty_at k (some t) (some r) = refl

  -- Adding a handler to the maps is appending a registration to the list.
  pub add-Refines :
      (h : EventHandlerHandle) (f : F) (m : EventHandlerMaps F) (gs : List (Registration F))
      → Refines m gs
      → Refines (add h f m) (spec_add h f gs)
  unfolding add
  add-Refines h f m gs R = record {
    at = λ k t r.
        rw (stored-add_at k t r h.ev_kind h.ev_type h.room_id, registered-add k t r, R.at k t r);
  }

  -- Removing by a handle takes the registrations of that handle off the list.
  pub remove-Refines :
      (h : EventHandlerHandle) (m : EventHandlerMaps F) (gs : List (Registration F))
      → Refines m gs
      → Refines (remove h m) (spec_remove h gs)
  unfolding remove
  remove-Refines h m gs R = record {
    at = λ k t r.
        rw (
          stored-remove_at k t r h.ev_kind h.ev_type h.room_id,
          registered-remove k t r,
          R.at k t r,
        );
  }

  deliver-offered :
      (k : HandlerKind) (t : Option String) (r : Option RoomId) (gs : List (Registration F))
      → deliver k t r (map wrap gs) ≡ map (offered k t r) gs
  deliver-offered k t r [] = refl
  deliver-offered k t r (g ∷ gs) = ap (λ hs. offered k t r g ∷ hs) (deliver-offered k t r gs)

  deliver-stored :
      (k : HandlerKind) (t t' : Option String) (r r' : Option RoomId) (m : EventHandlerMaps F)
      (gs : List (Registration F))
      → Refines m gs
      → deliver k t r (stored k t' r' m) ≡ map (offered k t r) (filter (selected k t' r') gs)
  deliver-stored k t t' r r' m gs R =
      ap (deliver k t r) (R.at k t' r') ∙ deliver-offered k t r (filter (selected k t' r') gs)

  -- An event reaches the registrations of its kind for all types and all rooms, then those of its type
  -- for all rooms, and, if it is of a room, those of the room for all types, and last those of its type
  -- and room; each of the four in the order of registration, with a handle of the event's room.
  pub get_handlers-Refines :
      (k : HandlerKind) (t : String) (r : Option RoomId) (m : EventHandlerMaps F)
      (gs : List (Registration F))
      → Refines m gs
      → get_handlers k t r m ≡ spec_get k t r gs
  unfolding get_handlers
  get_handlers-Refines k t none m gs R =
      ap₂ (λ a b. a ++ (b ++ [])) (deliver-stored k none none none none m gs R)
        (deliver-stored k (some t) (some t) none none m gs R)
  get_handlers-Refines k t (some r) m gs R = cc (
    deliver-stored k none none (some r) none m gs R,
    deliver-stored k (some t) (some t) (some r) none m gs R,
    deliver-stored k none none (some r) (some r) m gs R,
    deliver-stored k (some t) (some t) (some r) (some r) m gs R,
  )
