-- ===== src/EventHandler/Dispatch/Wanted.antt =====
-- Which handlers want an event of a timeline, and that the three rounds that
-- src/matrix/event_handler/mod.rs makes for it reach them.
use mathlib.Core.List.{Perm}
use mathlib.Core.List.Perm
use matrix_goose.Prelude.{
  ℕ, Bool, true, false, ◌&&◌, ◌||◌, not, ◌≡◌, sym, ◌∙◌, Option, none, some, String, List, ◌++◌, map,
  map-append, append_assoc, filter, filter_congr, ◌==◌, text_eq, option_eq, arith, Bool-cases, inl,
  inr,
}
use matrix_goose.EventHandler.Defs.{
  HandlerKind, RoomId, kind_eq, timeline, state, original_state, redacted_state, message_like,
  original_message_like, redacted_message_like, state_redacted, message_like_redacted,
}
use matrix_goose.EventHandler.Maps.{EventHandlerMaps, get_handlers}
use matrix_goose.EventHandler.Maps.Spec.{Registration, applies}
use matrix_goose.EventHandler.Maps.Refinement.{Refines}
use matrix_goose.EventHandler.Maps.Coverage.{
  called_all, applicable, entry, filter-or-perm, get_handlers-perm,
}
use matrix_goose.EventHandler.Dispatch.{kinds}

-- What is read in an event of a timeline.
abbrev pub Details : Type 0
Details = record { event_type : String; has_state_key : Bool; redacted : Bool }

-- The kinds of handlers that an event of a timeline is for.
abbrev pub wanted_kind : Details → HandlerKind → Bool
wanted_kind d k =
    (k == timeline)
    || ((k == state && d.has_state_key)
        || ((k == original_state && (d.has_state_key && not d.redacted))
            || ((k == redacted_state && (d.has_state_key && d.redacted))
                || ((k == message_like && not d.has_state_key)
                    || ((k == original_message_like && (not d.has_state_key && not d.redacted))
                        || (k == redacted_message_like && (not d.has_state_key && d.redacted)))))))

same : (k k' : HandlerKind) → (k == k') ≡ true → k ≡ k'
same k k' h = (kind_eq.beq_iff k k').0 h

or_apart : (p q x : Bool) → (p && x) ≡ false → (q && x) ≡ false → ((p || q) && x) ≡ false
or_apart p q x h k = ground (arith, h, k)

module _ {F : Type 0} where
  -- A registration wants an event by its kind, its type and its room.
  abbrev pub wants : Details → Option RoomId → Registration F → Bool
  wants d r g =
      wanted_kind d g.handle.ev_kind
      && ((g.handle.ev_type == none || g.handle.ev_type == some d.event_type)
          && (g.handle.room_id == none || g.handle.room_id == r))

  -- The id and the function of each registration that wants the event.
  abbrev pub wanted : Option RoomId → List (Registration F) → Details → List (ℕ × F)
  wanted r gs d = map entry (filter (wants d r) gs)

  applies_apart :
      (k k' : HandlerKind) (t : String) (r : Option RoomId) (g : Registration F)
      → ¬ (k ≡ k')
      → (applies k t r g && applies k' t r g) ≡ false
  unfolding applies
  applies_apart k k' t r g n = elim (Bool-cases (g.handle.ev_kind == k)) [
    | inr other ↦ ground (arith, other)
    | inl one ↦ elim (Bool-cases (g.handle.ev_kind == k')) [
      | inr other ↦ ground (arith, other)
      | inl two ↦ absurd (n (sym (same g.handle.ev_kind k one) ∙ same g.handle.ev_kind k' two))
    ]
  ]

  kinds_differ :
      (t : String) (s b : Bool) (r : Option RoomId) (g : Registration F)
      → (applies (kinds s b).0 t r g && applies (kinds s b).1 t r g) ≡ false
  unfolding state_redacted message_like_redacted
  kinds_differ t true true r g = applies_apart state redacted_state t r g (λ e. cc)
  kinds_differ t true false r g = applies_apart state original_state t r g (λ e. cc)
  kinds_differ t false true r g = applies_apart message_like redacted_message_like t r g (λ e. cc)
  kinds_differ t false false r g = applies_apart message_like original_message_like t r g (λ e. cc)

  timeline_differs :
      (t : String) (s b : Bool) (r : Option RoomId) (g : Registration F)
      → ((applies (kinds s b).0 t r g || applies (kinds s b).1 t r g) && applies timeline t r g)
        ≡ false
  unfolding state_redacted message_like_redacted
  timeline_differs t s b r g =
      or_apart (applies (kinds s b).0 t r g) (applies (kinds s b).1 t r g) (applies timeline t r g)
        (first s b) (second s b)
    where
      first : (s b : Bool) → (applies (kinds s b).0 t r g && applies timeline t r g) ≡ false
      first true b = applies_apart state timeline t r g (λ e. cc)
      first false b = applies_apart message_like timeline t r g (λ e. cc)

      second : (s b : Bool) → (applies (kinds s b).1 t r g && applies timeline t r g) ≡ false
      second true true = applies_apart redacted_state timeline t r g (λ e. cc)
      second true false = applies_apart original_state timeline t r g (λ e. cc)
      second false true = applies_apart redacted_message_like timeline t r g (λ e. cc)
      second false false = applies_apart original_message_like timeline t r g (λ e. cc)

  wants_split :
      (t : String) (s b : Bool) (r : Option RoomId) (g : Registration F)
      → ((applies (kinds s b).0 t r g || applies (kinds s b).1 t r g) || applies timeline t r g)
        ≡ wants (record { event_type = t; has_state_key = s; redacted = b }) r g
  unfolding applies state_redacted message_like_redacted
  wants_split t true true r g = ground arith
  wants_split t true false r g = ground arith
  wants_split t false true r g = ground arith
  wants_split t false false r g = ground arith

  -- The handlers of the three rounds of an event are those that want it, once each.
  pub rounds-wanted :
      (d : Details) (r : Option RoomId) (m : EventHandlerMaps F) (gs : List (Registration F))
      → Refines m gs
      → Perm
          (called_all (get_handlers (kinds d.has_state_key d.redacted).0 d.event_type r m)
            ++ (called_all (get_handlers (kinds d.has_state_key d.redacted).1 d.event_type r m)
                ++ called_all (get_handlers timeline d.event_type r m)))
          (wanted r gs d)
  rounds-wanted d r m gs R =
      Perm.trans
        (Perm.append (get_handlers-perm k1 d.event_type r m gs R) (
          Perm.append (get_handlers-perm k2 d.event_type r m gs R)
            (get_handlers-perm timeline d.event_type r m gs R)))
        (rw
          (
            together,
            ← filter_congr either (wants d r) gs
                (wants_split d.event_type d.has_state_key d.redacted r),
          )
          (Perm.map entry (
            Perm.trans
              (Perm.append
                (filter-or-perm (on k1) (on k2) gs
                  (kinds_differ d.event_type d.has_state_key d.redacted r))
                (Perm.refl (filter (on timeline) gs)))
              (filter-or-perm (λ g. on k1 g || on k2 g) (on timeline) gs
                (timeline_differs d.event_type d.has_state_key d.redacted r)))))
    where
      k1 : HandlerKind
      k1 = (kinds d.has_state_key d.redacted).0

      k2 : HandlerKind
      k2 = (kinds d.has_state_key d.redacted).1

      on : HandlerKind → Registration F → Bool
      on k = applies k d.event_type r

      either : Registration F → Bool
      either g = (on k1 g || on k2 g) || on timeline g

      together :
          (applicable k1 d.event_type r gs
            ++ (applicable k2 d.event_type r gs ++ applicable timeline d.event_type r gs))
          ≡ map entry ((filter (on k1) gs ++ filter (on k2) gs) ++ filter (on timeline) gs)
      together = simp (map-append, append_assoc)
