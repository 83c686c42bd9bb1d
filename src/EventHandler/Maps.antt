-- ===== src/EventHandler/Maps.antt =====
-- The four maps that hold the registered handlers: src/matrix/event_handler/maps.rs.
-- The compound keys compare field by field, as their derived `Ord` does.
pub mod Buckets
pub mod Spec
pub mod Refinement
pub mod Coverage
pub mod SelfRemoval
use matrix_goose.Prelude.{
  ℕ, ◌+◌, Bool, true, ◌&&◌, not, Option, none, some, ◌≡◌, ◌↔◌, List, [], ◌∷◌, ◌++◌, map, arith,
  String, Eq, ◌==◌, text_eq, length,
}
use mathlib.Core.Option
use matrix_goose.Map.{Map}
use matrix_goose.EventHandler.Defs.{
  HandlerKind, RoomId, EventHandlerHandle, EventHandlerWrapper, kind_eq,
}
use Buckets.{handlers, push_handler, remove_entry}

pub record KindType : Type 0 where
  pub ev_kind : HandlerKind
  pub ev_type : String

pub record KindRoomId : Type 0 where
  pub ev_kind : HandlerKind
  pub room_id : RoomId

pub record KindTypeRoomId : Type 0 where
  pub ev_kind : HandlerKind
  pub ev_type : String
  pub room_id : RoomId

abbrev pub kind_type_beq : KindType → KindType → Bool
kind_type_beq a b = a.ev_kind == b.ev_kind && a.ev_type == b.ev_type

pub kind_type_beq_iff : (a b : KindType) → (kind_type_beq a b ≡ true) ↔ (a ≡ b)
kind_type_beq_iff a b =
    ground (arith, kind_eq.beq_iff a.ev_kind b.ev_kind, text_eq.beq_iff a.ev_type b.ev_type)

instance abbrev pub kind_type_eq : Eq KindType
kind_type_eq = record { beq = kind_type_beq; beq_iff = kind_type_beq_iff }

abbrev pub kind_room_beq : KindRoomId → KindRoomId → Bool
kind_room_beq a b = a.ev_kind == b.ev_kind && a.room_id == b.room_id

pub kind_room_beq_iff : (a b : KindRoomId) → (kind_room_beq a b ≡ true) ↔ (a ≡ b)
kind_room_beq_iff a b =
    ground (arith, kind_eq.beq_iff a.ev_kind b.ev_kind, text_eq.beq_iff a.room_id b.room_id)

instance abbrev pub kind_room_eq : Eq KindRoomId
kind_room_eq = record { beq = kind_room_beq; beq_iff = kind_room_beq_iff }

abbrev pub kind_type_room_beq : KindTypeRoomId → KindTypeRoomId → Bool
kind_type_room_beq a b =
    a.ev_kind == b.ev_kind && (a.ev_type == b.ev_type && a.room_id == b.room_id)

pub kind_type_room_beq_iff : (a b : KindTypeRoomId) → (kind_type_room_beq a b ≡ true) ↔ (a ≡ b)
kind_type_room_beq_iff a b = ground (
  arith,
  kind_eq.beq_iff a.ev_kind b.ev_kind,
  text_eq.beq_iff a.ev_type b.ev_type,
  text_eq.beq_iff a.room_id b.room_id,
)

instance abbrev pub kind_type_room_eq : Eq KindTypeRoomId
kind_type_room_eq = record { beq = kind_type_room_beq; beq_iff = kind_type_room_beq_iff }

pub data Key : Type 0 where
  kind : HandlerKind → Key
  kind_type : KindType → Key
  kind_room_id : KindRoomId → Key
  kind_type_room_id : KindTypeRoomId → Key

-- `Key::new`, on the fields that it matches.
unfoldable pub key_of : HandlerKind → Option String → Option RoomId → Key
key_of k none none = kind k
key_of k (some t) none = kind_type (record { ev_kind = k; ev_type = t })
key_of k none (some r) = kind_room_id (record { ev_kind = k; room_id = r })
key_of k (some t) (some r) = kind_type_room_id (record { ev_kind = k; ev_type = t; room_id = r })

abbrev pub key_new : EventHandlerHandle → Key
key_new h = key_of h.ev_kind h.ev_type h.room_id

module _ (F : Type 0) where
  pub record EventHandlerMaps : Type 0 where
    pub by_kind : Map HandlerKind (List (EventHandlerWrapper F))
    pub by_kind_type : Map KindType (List (EventHandlerWrapper F))
    pub by_kind_roomid : Map KindRoomId (List (EventHandlerWrapper F))
    pub by_kind_type_roomid : Map KindTypeRoomId (List (EventHandlerWrapper F))

abbrev pub no_handlers : {F : Type 0} → EventHandlerMaps F
no_handlers = record {
  by_kind = [];
  by_kind_type = [];
  by_kind_roomid = [];
  by_kind_type_roomid = [];
}

module _ {F : Type 0} where
  add_at : Key → EventHandlerWrapper F → EventHandlerMaps F → EventHandlerMaps F
  add_at (kind k) w m = record m { by_kind = push_handler k w m.by_kind }
  add_at (kind_type k) w m = record m { by_kind_type = push_handler k w m.by_kind_type }
  add_at (kind_room_id k) w m = record m { by_kind_roomid = push_handler k w m.by_kind_roomid }
  add_at (kind_type_room_id k) w m = record m {
    by_kind_type_roomid = push_handler k w m.by_kind_type_roomid;
  }

  -- `EventHandlerMaps::add`
  unfoldable pub add : EventHandlerHandle → F → EventHandlerMaps F → EventHandlerMaps F
  unfolding add_at
  add h f m = add_at (key_new h) (record { handler_fn = f; handler_id = h.handler_id }) m

  -- The handlers of one entry, each beside the handle that its call is given.
  abbrev deliver :
      HandlerKind
      → Option String
      → Option RoomId
      → List (EventHandlerWrapper F)
      → List (EventHandlerHandle × F)
  deliver k t r = map (λ w.
      (record { ev_kind = k; ev_type = t; room_id = r; handler_id = w.handler_id }, w.handler_fn))

  -- The two lookups that are made only for an event in a room.
  room_handlers :
      HandlerKind → String → Option RoomId → EventHandlerMaps F → List (EventHandlerHandle × F)
  room_handlers k t none m = []
  room_handlers k t (some r) m =
      deliver k none (some r) (handlers (record { ev_kind = k; room_id = r }) m.by_kind_roomid)
      ++ deliver k (some t) (some r)
          (handlers (record { ev_kind = k; ev_type = t; room_id = r }) m.by_kind_type_roomid)

  -- `EventHandlerMaps::get_handlers`
  unfoldable pub get_handlers :
      HandlerKind → String → Option RoomId → EventHandlerMaps F → List (EventHandlerHandle × F)
  unfolding room_handlers
  get_handlers k t r m =
      deliver k none r (handlers k m.by_kind)
      ++ (deliver k (some t) r (handlers (record { ev_kind = k; ev_type = t }) m.by_kind_type)
          ++ room_handlers k t r m)

  remove_at : Key → ℕ → EventHandlerMaps F → EventHandlerMaps F
  remove_at (kind k) n m = record m { by_kind = remove_entry k n m.by_kind }
  remove_at (kind_type k) n m = record m { by_kind_type = remove_entry k n m.by_kind_type }
  remove_at (kind_room_id k) n m = record m { by_kind_roomid = remove_entry k n m.by_kind_roomid }
  remove_at (kind_type_room_id k) n m = record m {
    by_kind_type_roomid = remove_entry k n m.by_kind_type_roomid;
  }

  -- `EventHandlerMaps::remove`
  unfoldable pub remove : EventHandlerHandle → EventHandlerMaps F → EventHandlerMaps F
  unfolding remove_at
  remove h m = remove_at (key_new h) h.handler_id m

  -- `EventHandlerMaps::len`, which counts the entries of two maps.
  unfoldable pub len : EventHandlerMaps F → ℕ
  len m = length m.by_kind_type + length m.by_kind_type_roomid
