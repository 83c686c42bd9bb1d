-- ===== src/EventHandler/Closure/Called.antt =====
-- When the boxed function of src/matrix/event_handler/mod.rs runs the handler.
use matrix_goose.Prelude.{
  ap, ◌⊎◌, inl, inr, String, Bool, true, false, ◌&&◌, ◌≡◌, refl, ◌∙◌, Option, none, some, List, [],
  ◌∷◌,
}
use matrix_goose.Exec.{Result, ok, err}
use matrix_goose.EventHandler.Dispatch.{Env, Call}
use matrix_goose.EventHandler.Events.{kind_of, type_of}
use matrix_goose.EventHandler.Closure.{
  ContextMap, Log, Argument, client_argument, handle_argument, room_argument, raw_event_argument,
  encryption_info_argument, push_actions_argument, ctx_argument, Value, Values, from_data, both,
  from_all, Handler, print_error, not_deserialized, invalid_context, event_handler_failed,
  with_read, handler_fn,
}

abbrev is_some : {A : Type 0} → Option A → Bool
is_some none = false
is_some (some a) = true

abbrev pub is_ok : {E A : Type 0} → Result E A → Bool
is_ok (err e) = false
is_ok (ok a) = true

module _ (V : Env) (K : ContextMap) (client : K.Client) (contexts : K.Map) (c : Call V) where
  -- Only a room may be missing for an event, and a value of a type that none was added of.
  abbrev pub is_present : Argument V K → Bool
  is_present client_argument = true
  is_present handle_argument = true
  is_present room_argument = is_some c.room
  is_present raw_event_argument = true
  is_present encryption_info_argument = true
  is_present push_actions_argument = true
  is_present (ctx_argument k) = is_some (K.get k contexts)

  abbrev pub all_present : List (Argument V K) → Bool
  all_present [] = true
  all_present (a ∷ arguments) = is_present a && all_present arguments

  from_data-present :
      (a : Argument V K) → is_some (from_data V K a client contexts c) ≡ is_present a
  unfolding from_data
  from_data-present client_argument = refl
  from_data-present handle_argument = refl
  from_data-present room_argument = refl
  from_data-present raw_event_argument = refl
  from_data-present encryption_info_argument = refl
  from_data-present push_actions_argument = refl
  from_data-present (ctx_argument k) = refl

  both-present :
      (a : Argument V K) (arguments : List (Argument V K)) (v : Option (Value V K a))
      (vs : Option (Values V K arguments))
      → is_some (both V K a arguments v vs) ≡ (is_some v && is_some vs)
  both-present a arguments none vs = refl
  both-present a arguments (some v) none = refl
  both-present a arguments (some v) (some vs) = refl

  from_all-present :
      (arguments : List (Argument V K))
      → is_some (from_all V K arguments client contexts c) ≡ all_present arguments
  unfolding from_all
  from_all-present [] = refl
  from_all-present (a ∷ arguments) =
      both-present a arguments (from_data V K a client contexts c)
        (from_all V K arguments client contexts c)
      ∙ rw (from_data-present a, from_all-present arguments) refl

  -- The value of an argument.
  abbrev pub IsGiven : (a : Argument V K) → Value V K a → Type 0
  IsGiven client_argument v = v ≡ client
  IsGiven handle_argument v = v ≡ c.handle
  IsGiven room_argument v = c.room ≡ some v
  IsGiven raw_event_argument v = v ≡ c.raw
  IsGiven encryption_info_argument v = v ≡ c.encryption_info
  IsGiven push_actions_argument v = v ≡ c.push_actions
  IsGiven (ctx_argument k) v = K.get k contexts ≡ some v

  abbrev pub AllGiven : (arguments : List (Argument V K)) → Values V K arguments → Type 0
  AllGiven [] vs = Unit
  AllGiven (a ∷ arguments) (v, vs) = IsGiven a v × AllGiven arguments vs

  from_data-Given :
      (a : Argument V K) (v : Value V K a)
      → from_data V K a client contexts c ≡ some v
      → IsGiven a v
  unfolding from_data
  from_data-Given client_argument v h = cc h
  from_data-Given handle_argument v h = cc h
  from_data-Given room_argument v h = h
  from_data-Given raw_event_argument v h = cc h
  from_data-Given encryption_info_argument v h = cc h
  from_data-Given push_actions_argument v h = cc h
  from_data-Given (ctx_argument k) v h = h

  both-parts :
      (a : Argument V K) (arguments : List (Argument V K)) (o : Option (Value V K a))
      (os : Option (Values V K arguments)) (v : Value V K a) (vs : Values V K arguments)
      → both V K a arguments o os ≡ some (v, vs)
      → (o ≡ some v) × (os ≡ some vs)
  both-parts a arguments none os v vs h = cc
  both-parts a arguments (some x) none v vs h = cc
  both-parts a arguments (some x) (some xs) v vs h = (cc, cc)

  from_all-Given :
      (arguments : List (Argument V K)) (vs : Values V K arguments)
      → from_all V K arguments client contexts c ≡ some vs
      → AllGiven arguments vs
  unfolding from_all
  from_all-Given [] vs h = tt
  from_all-Given (a ∷ arguments) (v, vs) h =
      let (p, q) =
        both-parts a arguments (from_data V K a client contexts c)
          (from_all V K arguments client contexts c) v vs h in
      (from_data-Given a v p, from_all-Given arguments vs q)

  module _ (h : Handler V K) (w : V.World) where
    -- What is logged of the result of a handler.
    abbrev pub logged : Result String (Unit {0}) → List (Log V.JsonError)
    logged (ok u) = []
    logged (err e) = event_handler_failed (type_of h.event_type) e ∷ []

    logged_lem : (r : Result String (Unit {0})) → print_error V K h r ≡ logged r
    logged_lem (ok u) = refl
    logged_lem (err e) = refl

    -- With `true` the body ran on the event and the arguments, and its error, if any, was logged; with
    -- `false` nothing happened but one line of the log.
    abbrev pub Called : Bool → List (Log V.JsonError) × V.World → Type 0
    Called true q =
        (ev : h.Event) × (vs : Values V K h.arguments) × (h.deserialize c.raw ≡ ok ev)
        × AllGiven h.arguments vs
        × (q ≡ (logged (h.body ev vs w).0, (h.body ev vs w).1))
    Called false q =
        ((e : V.JsonError) × (h.deserialize c.raw ≡ err e)
          × (q ≡ (not_deserialized (type_of h.event_type) (kind_of h.event_type) e ∷ [], w)))
        ⊎ ((ev : h.Event) × (h.deserialize c.raw ≡ ok ev)
            × (q ≡ (invalid_context (type_of h.event_type) (kind_of h.event_type) ∷ [], w)))

    with_read-Called :
        (r : Result V.JsonError h.Event) (o : Option (Values V K h.arguments))
        → h.deserialize c.raw ≡ r
        → from_all V K h.arguments client contexts c ≡ o
        → Called (is_ok r && is_some o) (with_read V K h r o w)
    with_read-Called (err e) o p q = inl (e, p, refl)
    with_read-Called (ok ev) none p q = inr (ev, p, refl)
    with_read-Called (ok ev) (some vs) p q = (
      ev,
      vs,
      p,
      from_all-Given h.arguments vs q,
      ap (λ l. (l, (h.body ev vs w).1)) (logged_lem (h.body ev vs w).0),
    )

    -- A handler runs exactly when its event can be read and its arguments are present: a room, if it
    -- asks for one, and a value of each type that it asks for. It runs once, and each argument is what it
    -- stands for: the client, the handle, the room, the raw event and what came with it, or the value of
    -- its type. Otherwise the world stays as it is, and one line is logged, which says which of the two
    -- failed.
    pub handler_fn-Called :
        Called
          (is_ok (h.deserialize c.raw) && all_present h.arguments)
          (handler_fn V K h client contexts c w)
    unfolding handler_fn
    handler_fn-Called = rw (← from_all-present h.arguments) (with_read-Called _ _ refl refl)
