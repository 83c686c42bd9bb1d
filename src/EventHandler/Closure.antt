-- ===== src/EventHandler/Closure.antt =====
-- What the boxed function of a handler does: `add_event_handler_impl`, `impl_event_handler` and
-- `EventHandlerResult` of src/matrix/event_handler/mod.rs, and the arguments of handlers of
-- src/matrix/event_handler/context.rs. Parameters: the client, and the map of context values by
-- their types, of the crate `anymap2`.
pub mod Called
use matrix_goose.Prelude.{
  ℕ, Bool, true, false, ◌&&◌, ◌≡◌, refl, Option, none, some, String, List, [], ◌∷◌, Bool-cases, inl,
  inr, ◌⊎◌,
}
use matrix_goose.Exec.{Result, ok, err}
use matrix_goose.EventHandler.Defs.{HandlerKind, EventHandlerHandle}
use matrix_goose.EventHandler.Events.{SyncEvent, kind_of, type_of}
use matrix_goose.EventHandler.Dispatch.{Env, Call}

pub record ContextMap : Type 1 where
  pub Client : Type 0
  -- The map has at most one value of each type.
  pub Key : Type 0
  pub Val : Key → Type 0
  pub Map : Type 0
  pub get : (k : Key) → Map → Option (Val k)
  pub insert : (k : Key) → Val k → Map → Map

-- What an error of the program says in its log.
pub data Log (JsonError : Type 0) : Type 0 where
  event_handler_failed : Option String → String → Log JsonError
  invalid_context : Option String → HandlerKind → Log JsonError
  not_deserialized : Option String → HandlerKind → JsonError → Log JsonError

module _ (V : Env) (K : ContextMap) where
  -- The types of the arguments that a handler may have beside its event.
  pub data Argument : Type 0 where
    client_argument handle_argument room_argument raw_event_argument : Argument
    encryption_info_argument push_actions_argument : Argument
    -- `Ctx<T>`
    ctx_argument : K.Key → Argument

  abbrev pub Value : Argument → Type 0
  Value client_argument = K.Client
  Value handle_argument = EventHandlerHandle
  Value room_argument = V.Room
  Value raw_event_argument = V.Raw
  Value encryption_info_argument = Option V.EncryptionInfo
  Value push_actions_argument = List V.Action
  Value (ctx_argument k) = K.Val k

  abbrev pub Values : List Argument → Type 0
  Values [] = Unit
  Values (a ∷ arguments) = Value a × Values arguments

  -- `EventHandlerStore::add_context`
  abbrev add_context : (k : K.Key) → K.Val k → K.Map → K.Map
  add_context = K.insert

  -- `EventHandlerContext::from_data`
  unfoldable pub from_data : (a : Argument) → K.Client → K.Map → Call V → Option (Value a)
  from_data client_argument client contexts c = some client
  from_data handle_argument client contexts c = some c.handle
  from_data room_argument client contexts c = c.room
  from_data raw_event_argument client contexts c = some c.raw
  from_data encryption_info_argument client contexts c = some c.encryption_info
  from_data push_actions_argument client contexts c = some c.push_actions
  from_data (ctx_argument k) client contexts c = K.get k contexts

  abbrev pub both :
      (a : Argument) (arguments : List Argument)
      → Option (Value a)
      → Option (Values arguments)
      → Option (Values (a ∷ arguments))
  both a arguments none vs = none
  both a arguments (some v) none = none
  both a arguments (some v) (some vs) = some (v, vs)

  -- `$($ty::from_data(&_d)?),*`
  unfoldable pub from_all :
      (arguments : List Argument) → K.Client → K.Map → Call V → Option (Values arguments)
  unfolding from_data
  from_all [] client contexts c = some tt
  from_all (a ∷ arguments) client contexts c =
      both a arguments (from_data a client contexts c) (from_all arguments client contexts c)

  -- A handler: a closure with its event, its arguments and its result, a unit or a `Result`.
  pub record Handler : Type 1 where
    pub Event : Type 0
    pub event_type : SyncEvent
    pub deserialize : V.Raw → Result V.JsonError Event
    pub arguments : List Argument
    pub body : Event → Values arguments → V.World → Result String (Unit {0}) × V.World

  module _ (h : Handler) where
    -- `EventHandlerResult::print_error`
    abbrev pub print_error : Result String (Unit {0}) → List (Log V.JsonError)
    print_error (ok u) = []
    print_error (err e) = event_handler_failed (type_of h.event_type) e ∷ []

    abbrev pub run_body : h.Event → Values h.arguments → V.World → List (Log V.JsonError) × V.World
    run_body ev vs w = (print_error (h.body ev vs w).0, (h.body ev vs w).1)

    abbrev handle_event :
        h.Event → Option (Values h.arguments) → V.World → List (Log V.JsonError) × V.World
    handle_event ev none w = (invalid_context (type_of h.event_type) (kind_of h.event_type) ∷ [], w)
    handle_event ev (some vs) w = run_body ev vs w

    abbrev with_read :
        Result V.JsonError h.Event
        → Option (Values h.arguments)
        → V.World
        → List (Log V.JsonError) × V.World
    with_read (err e) vs w =
        (not_deserialized (type_of h.event_type) (kind_of h.event_type) e ∷ [], w)
    with_read (ok ev) vs w = handle_event ev vs w

    -- The boxed function, with the future that it makes.
    unfoldable pub handler_fn :
        K.Client → K.Map → Call V → V.World → List (Log V.JsonError) × V.World
    unfolding from_all
    handler_fn client contexts c w =
        with_read (h.deserialize c.raw) (from_all h.arguments client contexts c) w
