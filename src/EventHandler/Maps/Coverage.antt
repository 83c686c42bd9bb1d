-- ===== src/EventHandler/Maps/Coverage.antt =====
-- Which registrations src/matrix/event_handler/maps.rs hands an event to, whatever their order.
use mathlib.Core.List.{Perm, perm_middle}
use mathlib.Core.List.Perm
use matrix_goose.Prelude.{
  ℕ, Bool, false, ◌&&◌, ◌||◌, Option, none, some, ◌≡◌, refl, List, [], ◌∷◌, ◌++◌, map, arith,
  String, filter, map-append, Bool-cases, inl, inr, filter_congr, append-nil, append_assoc, text_eq,
  option_eq,
}
use matrix_goose.EventHandler.Defs.{HandlerKind, RoomId, EventHandlerHandle, kind_eq}
use matrix_goose.EventHandler.Maps.{EventHandlerMaps, get_handlers}
use matrix_goose.EventHandler.Maps.Spec.{Registration, selected, applies, offered, spec_get}
use matrix_goose.EventHandler.Maps.Refinement.{Refines, get_handlers-Refines}

module _ {ℓ} {A : Type ℓ} where
  pub filter-or-perm :
      (p q : A → Bool) (xs : List A)
      → ((x : A) → (p x && q x) ≡ false)
      → Perm (filter p xs ++ filter q xs) (filter (λ x. p x || q x) xs)
  filter-or-perm p q [] d = Perm.refl []
  filter-or-perm p q (x ∷ xs) d = elim (Bool-cases (p x)) [
    | inl here ↦
        let other : q x ≡ false = ground (arith, d x) in
        rw (here, other) (Perm.cons x (filter-or-perm p q xs d))
    | inr not_here ↦ elim (Bool-cases (q x)) [
      | inl there ↦
          rw (not_here, there)
            (Perm.trans (perm_middle (filter p xs) (filter q xs))
              (Perm.cons x (filter-or-perm p q xs d)))
      | inr not_there ↦ rw (not_here, not_there) (filter-or-perm p q xs d)
    ]
  ]

-- The id and the function that a delivered handler carries.
abbrev pub called : {F : Type 0} → EventHandlerHandle × F → ℕ × F
called (h, f) = (h.handler_id, f)

abbrev pub called_all : {F : Type 0} → List (EventHandlerHandle × F) → List (ℕ × F)
called_all = map called

abbrev pub entry : {F : Type 0} → Registration F → ℕ × F
entry g = (g.handle.handler_id, g.handler_fn)

abbrev pub applicable :
    {F : Type 0} → HandlerKind → String → Option RoomId → List (Registration F) → List (ℕ × F)
applicable k t r gs = map entry (filter (applies k t r) gs)

module _ {F : Type 0} (k : HandlerKind) where
  called-offered :
      (k' : HandlerKind) (t : Option String) (r : Option RoomId) (gs : List (Registration F))
      → called_all (map (offered k' t r) gs) ≡ map entry gs
  called-offered k' t r [] = refl
  called-offered k' t r (g ∷ gs) = ground (arith, called-offered k' t r gs)

  map-called-spec :
      (t : String) (r : RoomId) (gs : List (Registration F))
      → called_all (spec_get k t (some r) gs)
        ≡ map entry (
            filter (selected k none none) gs
            ++ (filter (selected k (some t) none) gs
                ++ (filter (selected k none (some r)) gs
                    ++ filter (selected k (some t) (some r)) gs)))
  map-called-spec t r gs = simp (map-append, called-offered)

  map-called-spec_none :
      (t : String) (gs : List (Registration F))
      → called_all (spec_get k t none gs)
        ≡ map entry (filter (selected k none none) gs ++ filter (selected k (some t) none) gs)
  map-called-spec_none t gs = simp (map-append, called-offered, append-nil)

  abbrev of_room : String → RoomId → Registration F → Bool
  of_room t r g = selected k none (some r) g || selected k (some t) (some r) g

  abbrev of_all_rooms : String → Registration F → Bool
  of_all_rooms t g = selected k none none g || selected k (some t) none g

  types_differ :
      (t : String) (r : Option RoomId) (g : Registration F)
      → (selected k none r g && selected k (some t) r g) ≡ false
  unfolding selected
  types_differ t r g = ground arith

  rooms_differ :
      (t : String) (r : RoomId) (g : Registration F) → (of_all_rooms t g && of_room t r g) ≡ false
  unfolding selected
  rooms_differ t r g = ground arith

  applies_split :
      (t : String) (r : RoomId) (g : Registration F)
      → (of_all_rooms t g || of_room t r g) ≡ applies k t (some r) g
  unfolding selected applies
  applies_split t r g = ground arith

  applies-none : (t : String) (g : Registration F) → of_all_rooms t g ≡ applies k t none g
  unfolding selected applies
  applies-none t g = ground arith

  spec_get-perm :
      (t : String) (r : Option RoomId) (gs : List (Registration F))
      → Perm (called_all (spec_get k t r gs)) (applicable k t r gs)
  spec_get-perm t none gs =
      rw (map-called-spec_none, ← filter_congr _ _ gs (applies-none t))
        (Perm.map entry (filter-or-perm _ _ gs (types_differ t none)))
  spec_get-perm t (some r) gs =
      rw (map-called-spec, ← filter_congr _ _ gs (applies_split t r), ← append_assoc)
        (Perm.map entry (
          Perm.trans
            (Perm.append (filter-or-perm _ _ gs (types_differ t none))
              (filter-or-perm _ _ gs (types_differ t (some r))))
            (filter-or-perm (of_all_rooms t) (of_room t r) gs (rooms_differ t r))))

  -- An event is handed to every registration that wants it, once for each, and to no other.
  pub get_handlers-perm :
      (t : String) (r : Option RoomId) (m : EventHandlerMaps F) (gs : List (Registration F))
      → Refines m gs
      → Perm (called_all (get_handlers k t r m)) (applicable k t r gs)
  get_handlers-perm t r m gs R = rw (get_handlers-Refines k t r m gs R) (spec_get-perm t r gs)
