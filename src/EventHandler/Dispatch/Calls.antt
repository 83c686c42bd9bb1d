-- ===== src/EventHandler/Dispatch/Calls.antt =====
-- Which handlers the dispatch of src/matrix/event_handler/mod.rs calls for the events of a timeline.
use mathlib.Core.List.{Perm}
use mathlib.Core.List.Perm
use mathlib.Core.Option
use matrix_goose.Prelude.{
  ℕ, ◌≡◌, refl, sym, ◌∙◌, ap, Option, List, [], ◌∷◌, ◌++◌, map, map-append, append_assoc,
  append-nil, text_eq, option_eq,
}
use matrix_goose.EventHandler.Defs.{RoomId, kind_eq, timeline}
use matrix_goose.EventHandler.Maps.{get_handlers}
use matrix_goose.EventHandler.Maps.Spec.{Registration}
use matrix_goose.EventHandler.Maps.Refinement.{Refines}
use matrix_goose.EventHandler.Maps.Coverage.{called_all}
use matrix_goose.EventHandler.Store.{EventHandlerStore}
use matrix_goose.EventHandler.Dispatch.{
  Env, Call, Round, Dispatch, Handlers, SyncTimelineEvent, round_calls, handle_sync_timeline_events,
  kinds,
}
use matrix_goose.EventHandler.Dispatch.Plan.{
  flat_map, run_rounds, after_round, kinds_rounds_lem, timeline_rounds, timeline_parse, parsed,
  handle_sync_timeline_events_lem,
}
use matrix_goose.EventHandler.Dispatch.Wanted.{Details, wanted, rounds-wanted}

map-map :
    {A B C : Type 0} (f : B → C) (h : A → B) (xs : List A)
    → map f (map h xs) ≡ map (λ x. f (h x)) xs
map-map f h [] = refl
map-map f h (x ∷ xs) = ap (λ ys. f (h x) ∷ ys) (map-map f h xs)

flat_map-append :
    {A B : Type 0} (f : A → List B) (xs ys : List A)
    → flat_map f (xs ++ ys) ≡ flat_map f xs ++ flat_map f ys
flat_map-append f [] ys = refl
flat_map-append f (x ∷ xs) ys =
    ap (λ zs. f x ++ zs) (flat_map-append f xs ys)
    ∙ sym (append_assoc (f x) (flat_map f xs) (flat_map f ys))

-- The handlers register and remove none while they run.
pub record Staying (V : Env) (run_calls : Handlers V) : Type 1 where
  pub stays :
      (calls : List (Call V)) (s : EventHandlerStore V.F) (w : V.World)
      → (run_calls calls (s, w)).0 ≡ s

module _ (V : Env) (run_calls : Handlers V) (T : Staying V run_calls) where
  abbrev pub called_by : Call V → ℕ × V.F
  called_by c = (c.handle.handler_id, c.handler_fn)

  abbrev pub room_of : Option V.Room → Option RoomId
  room_of room = Option.map V.room_id room

  calls_on : EventHandlerStore V.F → List (Round V) → List (Call V)
  calls_on s = flat_map (λ q. round_calls V q s)

  called-round_calls :
      (q : Round V) (s : EventHandlerStore V.F)
      → map called_by (round_calls V q s)
        ≡ called_all (get_handlers q.event_kind q.event_type (room_of q.room) s.handlers)
  unfolding round_calls
  called-round_calls q s = map-map called_by _ _

  calls-run_rounds :
      (qs : List (Round V)) (s : Dispatch V)
      → (run_rounds V run_calls qs s).calls ≡ s.calls ++ calls_on s.store qs
  unfolding calls_on round_calls
  calls-run_rounds [] s = sym (append-nil s.calls)
  calls-run_rounds (q ∷ qs) s =
      let next : (after_round V run_calls q s).store ≡ s.store =
        T.stays (round_calls V q s.store) s.store s.world in
      calls-run_rounds qs (after_round V run_calls q s)
      ∙ ap (λ st. (s.calls ++ round_calls V q s.store) ++ calls_on st qs) next
      ∙ append_assoc s.calls (round_calls V q s.store) (calls_on s.store qs)

  called-rounds :
      (room : Option V.Room) (item : SyncTimelineEvent V) (d : Details) (s : EventHandlerStore V.F)
      → map called_by (calls_on s (timeline_rounds V run_calls room (item, d)))
        ≡ called_all (
            get_handlers
              (kinds d.has_state_key d.redacted).0
              d.event_type
              (room_of room)
              s.handlers)
          ++ (called_all (
                get_handlers
                  (kinds d.has_state_key d.redacted).1
                  d.event_type
                  (room_of room)
                  s.handlers)
              ++ called_all (get_handlers timeline d.event_type (room_of room) s.handlers))
  unfolding calls_on
  called-rounds room item d s =
      rw (← kinds_rounds_lem V run_calls room (item, d))
        (simp (map-append, called-round_calls, append-nil))

  called-parsed :
      (room : Option V.Room) (ps : List (SyncTimelineEvent V × Details)) (s : EventHandlerStore V.F)
      (gs : List (Registration V.F))
      → Refines s.handlers gs
      → Perm
          (map called_by (calls_on s (flat_map (timeline_rounds V run_calls room) ps)))
          (flat_map (λ p. wanted (room_of room) gs p.1) ps)
  unfolding calls_on
  called-parsed room [] s gs R = Perm.refl []
  called-parsed room ((item, d) ∷ ps) s gs R =
      rw
        (
          flat_map-append (λ q. round_calls V q s) (timeline_rounds V run_calls room (item, d))
              (flat_map (timeline_rounds V run_calls room) ps),
          map-append,
          called-rounds room item d s,
        )
        (Perm.append (rounds-wanted d (room_of room) s.handlers gs R)
          (called-parsed room ps s gs R))

  -- Where the handlers neither register nor remove any, a batch of events of a timeline calls, for
  -- each event before the first malformed one, every registered handler that wants the event by its
  -- kind, type and room exactly once, and no other.
  pub handle_sync_timeline_events-wanted :
      (room : Option V.Room) (items : List (SyncTimelineEvent V)) (s : Dispatch V)
      (gs : List (Registration V.F))
      → Refines s.store.handlers gs
      → (new : List (Call V)) × ((handle_sync_timeline_events V run_calls room items s).1.calls
          ≡ s.calls ++ new)
        × Perm (map called_by new) (
            flat_map
              (λ p. wanted (room_of room) gs p.1)
              (parsed (timeline_parse V run_calls) items))
  handle_sync_timeline_events-wanted room items s gs R =
      let rounds =
        flat_map (timeline_rounds V run_calls room) (parsed (timeline_parse V run_calls) items) in
      (
        calls_on s.store rounds,
        ap (λ q. q.1.calls) (handle_sync_timeline_events_lem V run_calls room items s)
            ∙ calls-run_rounds rounds s,
        called-parsed room (parsed (timeline_parse V run_calls) items) s.store gs R,
      )
