-- ===== src/EventHandler/Defs.antt =====
-- The kinds of event handlers and the handles of registrations: src/matrix/event_handler/mod.rs.
use matrix_goose.Prelude.{ℕ, Bool, Option, String, Eq, eq_of_discrete, if◌then◌else◌}

pub data HandlerKind : Type 0 where
  global_account_data room_account_data ephemeral_room_data : HandlerKind
  timeline message_like original_message_like redacted_message_like : HandlerKind
  state original_state redacted_state stripped_state : HandlerKind
  to_device presence : HandlerKind

-- Shut in proofs: a comparison of kinds is read through `beq_iff`.
HandlerKind-discrete : Discrete HandlerKind
HandlerKind-discrete = hlevel

instance unfoldable pub kind_eq : Eq HandlerKind
unfolding HandlerKind-discrete
kind_eq = eq_of_discrete HandlerKind-discrete

unfoldable pub message_like_redacted : Bool → HandlerKind
message_like_redacted redacted = if redacted then redacted_message_like else original_message_like

unfoldable pub state_redacted : Bool → HandlerKind
state_redacted redacted = if redacted then redacted_state else original_state

-- Room ids and event types are texts.
abbrev pub RoomId : Type 0
RoomId = String

pub record EventHandlerHandle : Type 0 where
  pub ev_kind : HandlerKind
  pub ev_type : Option String
  pub room_id : Option RoomId
  pub handler_id : ℕ

-- The boxed function is a parameter `F`.
pub record EventHandlerWrapper (F : Type 0) : Type 0 where
  pub handler_fn : F
  pub handler_id : ℕ
