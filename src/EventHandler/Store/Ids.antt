-- ===== src/EventHandler/Store/Ids.antt =====
-- The ids of the registrations of src/matrix/event_handler/mod.rs, and removal by a handle.
use mathlib.Core.Path.{subst}
use matrix_goose.Prelude.{
  ℕ, ◌+◌, ◌%◌, ◌<◌, ◌≤◌, Bool, true, Option, ◌≡◌, ◌≢◌, refl, List, [], ◌∷◌, ◌++◌, arith, String,
  num_eq, length, beq_refl, append-nil, ap, ◌∙◌, text_eq, option_eq, filter, filter-append, sym,
  Bool-cases, inl, inr,
}
use matrix_goose.EventHandler.Defs.{HandlerKind, RoomId, EventHandlerHandle, kind_eq}
use matrix_goose.EventHandler.Maps.{get_handlers}
use matrix_goose.EventHandler.Maps.Spec.{
  Registration, selected, spec_get, spec_add, spec_remove, same_handle,
}
use matrix_goose.EventHandler.Maps.Refinement.{
  Refines, Refines-empty, add-Refines, remove-Refines, get_handlers-Refines,
}
use matrix_goose.EventHandler.Store.{
  EventHandlerStore, new_store, u64_mod, add_event_handler_impl, remove_handler, Op, register,
  discard, step, run,
}

abbrev pub handle_at : ℕ → HandlerKind → Option String → Option RoomId → EventHandlerHandle
handle_at n k t r = record { ev_kind = k; ev_type = t; room_id = r; handler_id = n }

module _ {F : Type 0} where
  -- Every registration has an id below `n`.
  abbrev pub AllBelow : ℕ → List (Registration F) → Type 0
  AllBelow n [] = Unit
  AllBelow n (g ∷ gs) = (g.handle.handler_id < n) × AllBelow n gs

  -- No registration of the list has the id `n`.
  abbrev pub Absent : ℕ → List (Registration F) → Type 0
  Absent n [] = Unit
  Absent n (g ∷ gs) = (g.handle.handler_id ≢ n) × Absent n gs

  abbrev pub DistinctIds : List (Registration F) → Type 0
  DistinctIds [] = Unit
  DistinctIds (g ∷ gs) = Absent g.handle.handler_id gs × DistinctIds gs

  AllBelow-Absent : (n : ℕ) (gs : List (Registration F)) → AllBelow n gs → Absent n gs
  AllBelow-Absent n [] b = tt
  AllBelow-Absent n (g ∷ gs) b = (omega arith, AllBelow-Absent n gs b.1)

  AllBelow-weaken : (n m : ℕ) (gs : List (Registration F)) → n ≤ m → AllBelow n gs → AllBelow m gs
  AllBelow-weaken n m [] le b = tt
  AllBelow-weaken n m (g ∷ gs) le b = (omega arith, AllBelow-weaken n m gs le b.1)

  AllBelow-append :
      (n : ℕ) (gs : List (Registration F)) (g : Registration F)
      → AllBelow n gs
      → g.handle.handler_id < n
      → AllBelow n (gs ++ g ∷ [])
  AllBelow-append n [] g b h = (h, tt)
  AllBelow-append n (g' ∷ gs) g b h = (b.0, AllBelow-append n gs g b.1 h)

  Absent-append :
      (n : ℕ) (gs : List (Registration F)) (g : Registration F)
      → Absent n gs
      → g.handle.handler_id ≢ n
      → Absent n (gs ++ g ∷ [])
  Absent-append n [] g b h = (h, tt)
  Absent-append n (g' ∷ gs) g b h = (b.0, Absent-append n gs g b.1 h)

  DistinctIds-append :
      (gs : List (Registration F)) (g : Registration F)
      → DistinctIds gs
      → Absent g.handle.handler_id gs
      → DistinctIds (gs ++ g ∷ [])
  DistinctIds-append [] g d a = (tt, tt)
  DistinctIds-append (g' ∷ gs) g d a = (
    Absent-append g'.handle.handler_id gs g d.0 (λ e. a.0 (sym e)),
    DistinctIds-append gs g d.1 a.1,
  )

  AllBelow-filter :
      (n : ℕ) (p : Registration F → Bool) (gs : List (Registration F))
      → AllBelow n gs
      → AllBelow n (filter p gs)
  AllBelow-filter n p [] b = tt
  AllBelow-filter n p (g ∷ gs) b = ground (arith, AllBelow-filter n p gs b.1)

  Absent-filter :
      (n : ℕ) (p : Registration F → Bool) (gs : List (Registration F))
      → Absent n gs
      → Absent n (filter p gs)
  Absent-filter n p [] b = tt
  Absent-filter n p (g ∷ gs) b = elim (Bool-cases (p g)) [
    | inl keep ↦ rw keep (b.0, Absent-filter n p gs b.1)
    | inr drop ↦ rw drop (Absent-filter n p gs b.1)
  ]

  DistinctIds-filter :
      (p : Registration F → Bool) (gs : List (Registration F))
      → DistinctIds gs
      → DistinctIds (filter p gs)
  DistinctIds-filter p [] d = tt
  DistinctIds-filter p (g ∷ gs) d = elim (Bool-cases (p g)) [
    | inl keep ↦ rw keep (Absent-filter g.handle.handler_id p gs d.0, DistinctIds-filter p gs d.1)
    | inr drop ↦ rw drop (DistinctIds-filter p gs d.1)
  ]

  -- The store holds the registrations `gs`, with ids that are distinct and below the counter.
  pub record Tracks (s : EventHandlerStore F) (gs : List (Registration F)) : Type 0 where
    pub refines : Refines s.handlers gs
    pub below : AllBelow s.counter gs
    pub distinct : DistinctIds gs

  Tracks-new_store : Tracks new_store []
  Tracks-new_store = record { refines = Refines-empty; below = tt; distinct = tt }

  register-Tracks :
      (k : HandlerKind) (t : Option String) (r : Option RoomId) (f : F) (s : EventHandlerStore F)
      (gs : List (Registration F))
      → s.counter + 1 < u64_mod
      → Tracks s gs
      → Tracks (step (register k t r f) s) (spec_add (handle_at s.counter k t r) f gs)
  unfolding step
  register-Tracks k t r f s gs room T =
      let next : (s.counter + 1) % u64_mod ≡ s.counter + 1 = omega arith in
      record {
        refines = add-Refines _ f s.handlers gs T.refines;
        below =
            rw next
              (AllBelow-append _ gs _ (AllBelow-weaken _ _ gs (omega arith) T.below) (omega arith));
        distinct = DistinctIds-append gs _ T.distinct (AllBelow-Absent _ gs T.below);
      }

  discard-Tracks :
      (h : EventHandlerHandle) (s : EventHandlerStore F) (gs : List (Registration F))
      → Tracks s gs
      → Tracks (step (discard h) s) (spec_remove h gs)
  unfolding step
  discard-Tracks h s gs T = record {
    refines = remove-Refines h s.handlers gs T.refines;
    below = AllBelow-filter s.counter _ gs T.below;
    distinct = DistinctIds-filter _ gs T.distinct;
  }

  counter-register :
      (k : HandlerKind) (t : Option String) (r : Option RoomId) (f : F) (s : EventHandlerStore F)
      → s.counter + 1 < u64_mod
      → (step (register k t r f) s).counter ≡ s.counter + 1
  unfolding step
  counter-register k t r f s room = omega arith

  counter-discard :
      (h : EventHandlerHandle) (s : EventHandlerStore F) → (step (discard h) s).counter ≡ s.counter
  unfolding step
  counter-discard h s = refl

  -- The list of registrations after some operations, with the id of the next one.
  abbrev pub spec_run : ℕ → List (Op F) → List (Registration F) → List (Registration F)
  spec_run n [] gs = gs
  spec_run n (register k t r f ∷ ops) gs = spec_run (n + 1) ops (spec_add (handle_at n k t r) f gs)
  spec_run n (discard h ∷ ops) gs = spec_run n ops (spec_remove h gs)

  run-Tracks_from :
      (ops : List (Op F)) (s : EventHandlerStore F) (gs : List (Registration F)) (n : ℕ)
      → s.counter ≡ n
      → n + length ops < u64_mod
      → Tracks s gs
      → Tracks (run ops s) (spec_run n ops gs)
  unfolding run
  run-Tracks_from [] s gs n e room T = T
  run-Tracks_from (register k t r f ∷ ops) s gs n e room T =
      run-Tracks_from ops _ _ (n + 1) (omega (arith, counter-register k t r f s)) (omega arith) (
        subst (λ m. Tracks (step (register k t r f) s) (spec_add (handle_at m k t r) f gs)) e
          (register-Tracks k t r f s gs (omega arith) T))
  run-Tracks_from (discard h ∷ ops) s gs n e room T =
      run-Tracks_from ops _ _ n (rw counter-discard e) (omega arith) (discard-Tracks h s gs T)

  -- From an empty store, after any registrations and removals that are fewer than 2 ^ 64, the maps
  -- hold what the list of registrations holds, under ids that are distinct.
  pub run-Tracks :
      (ops : List (Op F)) → length ops < u64_mod → Tracks (run ops new_store) (spec_run 0 ops [])
  run-Tracks ops room = run-Tracks_from ops new_store [] 0 refl (omega arith) Tracks-new_store

  spec_remove-Absent :
      (h : EventHandlerHandle) (gs : List (Registration F))
      → Absent h.handler_id gs
      → spec_remove h gs ≡ gs
  unfolding same_handle
  spec_remove-Absent h [] a = refl
  spec_remove-Absent h (g ∷ gs) a = ground (arith, spec_remove-Absent h gs a.1, a.0)

  same_handle_self :
      (h : EventHandlerHandle) (f : F)
      → same_handle h (record { handle = h; handler_fn = f }) ≡ true
  unfolding same_handle selected
  same_handle_self h f =
      rw (beq_refl h.ev_kind, beq_refl h.ev_type, beq_refl h.room_id, beq_refl h.handler_id)

  spec_remove-spec_add :
      (h : EventHandlerHandle) (f : F) (gs : List (Registration F))
      → Absent h.handler_id gs
      → spec_remove h (spec_add h f gs) ≡ gs
  spec_remove-spec_add h f gs a =
      rw (filter-append, same_handle_self h f) (rw append-nil (spec_remove-Absent h gs a))

  -- A handler that is registered and then removed by its handle, as when a drop guard goes out of
  -- scope, leaves every event with the handlers that it had.
  pub get_handlers-discard_register :
      (s : EventHandlerStore F) (gs : List (Registration F))
      → Tracks s gs
      → (k : HandlerKind) (t : Option String) (r : Option RoomId) (f : F) (ek : HandlerKind)
        (et : String) (er : Option RoomId)
      → let (h, s') = add_event_handler_impl k t r f s in
        get_handlers ek et er (remove_handler h s').handlers ≡ get_handlers ek et er s.handlers
  unfolding add_event_handler_impl remove_handler
  get_handlers-discard_register s gs T k t r f ek et er =
      let h = handle_at s.counter k t r in
      get_handlers-Refines ek et er _ _
        (remove-Refines h _ _ (add-Refines h f s.handlers gs T.refines))
      ∙ ap (spec_get ek et er) (spec_remove-spec_add h f gs (AllBelow-Absent _ gs T.below))
      ∙ sym (get_handlers-Refines ek et er s.handlers gs T.refines)
