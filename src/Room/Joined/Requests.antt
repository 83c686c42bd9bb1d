-- ===== src/Room/Joined/Requests.antt =====
-- The requests of a joined room: src/matrix/room/joined.rs from `ban_user` to `redact`, and
-- `Receipts`. The room is its identifier. Parameters: JSON and its printing, fresh transaction
-- identifiers, and the sending of a request over a world `W`. No encryption is compiled.
pub mod Outbox
use mathlib.Core.Option
use matrix_goose.Prelude.{
  ℕ, Bool, true, false, not, ◌&&◌, Option, none, some, String, List, if◌then◌else◌,
}
use matrix_goose.Exec.{Result, ok, err}
use matrix_goose.Error.{Error, http, serde_json, HttpResult}
use matrix_goose.Media.{Uri, Content}
use matrix_goose.Account.{UserId}
use matrix_goose.Attachment.{
  Mime, MessageInfo, new_info, MessageType, AttachmentConfig, UploadClient, Uploaded, upload,
  prepare_attachment_message,
}
use matrix_goose.Room.Common.{RoomId}

abbrev pub EventId : Type 0
EventId = String

-- `Invite3pid`, by its address.
pub data InvitationRecipient : Type 0 where
  by_user_id by_third_party : String → InvitationRecipient

-- `Receipts`
pub record Receipts : Type 0 where
  pub fully_read : Option EventId
  pub read_receipt : Option EventId
  pub private_read_receipt : Option EventId

-- `Receipts::new`
unfoldable pub new_receipts : Receipts
new_receipts = record { fully_read = none; read_receipt = none; private_read_receipt = none }

unfoldable pub fully_read_marker : Option EventId → Receipts → Receipts
fully_read_marker e r = record r { fully_read = e }

unfoldable pub public_read_receipt : Option EventId → Receipts → Receipts
public_read_receipt e r = record r { read_receipt = e }

unfoldable pub private_receipt : Option EventId → Receipts → Receipts
private_receipt e r = record r { private_read_receipt = e }

abbrev pub is_none : Option EventId → Bool
is_none none = true
is_none (some e) = false

-- `Receipts::is_empty`
unfoldable pub is_empty : Receipts → Bool
is_empty r = is_none r.fully_read && (is_none r.read_receipt && is_none r.private_read_receipt)

-- The requests of `ruma`, without the room. Content is JSON.
pub data Request (Json : Type 0) : Type 0 where
  ban_user kick_user : UserId → Option String → Request Json
  invite_user : InvitationRecipient → Request Json
  -- By the kind of the receipt and the thread.
  create_receipt : String → String → EventId → Request Json
  set_read_marker : Receipts → Request Json
  -- By the transaction and the type.
  send_message_event : String → String → Json → Request Json
  -- By the type and the state key.
  send_state_event : String → String → Json → Request Json
  redact_event : EventId → String → Option String → Request Json

-- Contents of state events; those of power levels are in `Levels`.
pub data StateContent : Type 0 where
  room_name : Option String → StateContent
  room_topic : String → StateContent
  room_avatar : Option Uri → Option MessageInfo → StateContent
  room_encryption : StateContent

abbrev pub state_type : StateContent → String
state_type (room_name n) = "m.room.name"
state_type (room_topic t) = "m.room.topic"
state_type (room_avatar u i) = "m.room.avatar"
state_type room_encryption = "m.room.encryption"

pub record RoomClient (W : Type 0) : Type 1 where
  pub Json : Type 0
  -- What `serde` prints, if it does.
  pub print_state : StateContent → Option Json
  pub print_message : MessageType → Option Json
  -- `Raw::new`
  pub raw : Json → Option Json
  -- `TransactionId::new`
  pub new_txn_id : W → String × W
  -- The answer is the event's identifier, where the endpoint answers one.
  pub send : RoomId → Request Json → W → HttpResult EventId × W

module _ {W : Type 0} (C : RoomClient W) where
  abbrev pub as_unit : HttpResult EventId × W → Result Error (Unit {0}) × W
  as_unit (ok a, w) = (ok tt, w)
  as_unit (err e, w) = (err (http e), w)

  abbrev pub as_error : HttpResult EventId × W → Result Error EventId × W
  as_error (ok a, w) = (ok a, w)
  as_error (err e, w) = (err (http e), w)

  unfoldable pub ban : RoomId → UserId → Option String → W → Result Error (Unit {0}) × W
  ban room user reason w = as_unit (C.send room (ban_user user reason) w)

  unfoldable pub kick : RoomId → UserId → Option String → W → Result Error (Unit {0}) × W
  kick room user reason w = as_unit (C.send room (kick_user user reason) w)

  unfoldable pub invite_user_by_id : RoomId → UserId → W → Result Error (Unit {0}) × W
  invite_user_by_id room user w = as_unit (C.send room (invite_user (by_user_id user)) w)

  unfoldable pub invite_user_by_3pid : RoomId → String → W → Result Error (Unit {0}) × W
  invite_user_by_3pid room id w = as_unit (C.send room (invite_user (by_third_party id)) w)

  unfoldable pub send_single_receipt :
      RoomId → String → String → EventId → W → Result Error (Unit {0}) × W
  send_single_receipt room kind thread event w =
      as_unit (C.send room (create_receipt kind thread event) w)

  unfoldable pub send_multiple_receipts : RoomId → Receipts → W → Result Error (Unit {0}) × W
  unfolding is_empty
  send_multiple_receipts room r w =
      if is_empty r then (ok tt, w) else as_unit (C.send room (set_read_marker r) w)

  abbrev pub state_sent : RoomId → String → String → Option C.Json → W → Result Error EventId × W
  state_sent room kind key none w = (err serde_json, w)
  state_sent room kind key (some content) w =
      as_error (C.send room (send_state_event kind key content) w)

  -- `send_state_event_for_key`
  unfoldable pub send_state_event_for_key :
      RoomId → String → StateContent → W → Result Error EventId × W
  send_state_event_for_key room key content w =
      state_sent room (state_type content) key (C.print_state content) w

  -- `send_state_event`
  unfoldable pub send_state : RoomId → StateContent → W → Result Error EventId × W
  unfolding send_state_event_for_key
  send_state room content w = send_state_event_for_key room "" content w

  unfoldable pub send_state_event_raw :
      RoomId → C.Json → String → String → W → Result Error EventId × W
  send_state_event_raw room content kind key w = state_sent room kind key (C.raw content) w

  unfoldable pub set_name : RoomId → Option String → W → Result Error EventId × W
  set_name room name w = send_state room (room_name name) w

  unfoldable pub set_room_topic : RoomId → String → W → Result Error EventId × W
  set_room_topic room topic w = send_state room (room_topic topic) w

  unfoldable pub set_avatar_url : RoomId → Uri → Option MessageInfo → W → Result Error EventId × W
  set_avatar_url room url info w = send_state room (room_avatar (some url) info) w

  unfoldable pub remove_avatar : RoomId → W → Result Error EventId × W
  remove_avatar room w = send_state room (room_avatar none none) w

  -- `is_encrypted` is the room's own request of its state; the wait for a sync is not modelled.
  unfoldable pub encrypted_or_not : RoomId → Result Error Bool × W → Result Error (Unit {0}) × W
  encrypted_or_not room (err e, w) = (err e, w)
  encrypted_or_not room (ok true, w) = (ok tt, w)
  encrypted_or_not room (ok false, w) =
      let (r, w') = send_state room room_encryption w in
      (elim r [ ok a ↦ ok tt | err e ↦ err e ], w')

  unfoldable pub enable_encryption :
      (RoomId → W → Result Error Bool × W) → RoomId → W → Result Error (Unit {0}) × W
  unfolding encrypted_or_not
  enable_encryption is_encrypted room w = encrypted_or_not room (is_encrypted room w)

  abbrev pub txn_id_or_new : Option String → W → String × W
  txn_id_or_new none w = C.new_txn_id w
  txn_id_or_new (some t) w = (t, w)

  abbrev pub message_sent : RoomId → String → String → Option C.Json → W → Result Error EventId × W
  message_sent room txn kind none w = (err serde_json, w)
  message_sent room txn kind (some content) w =
      as_error (C.send room (send_message_event txn kind content) w)

  -- `send_raw`
  unfoldable pub send_raw : RoomId → C.Json → String → Option String → W → Result Error EventId × W
  send_raw room content kind txn w =
      let (t, w') = txn_id_or_new txn w in message_sent room t kind (C.raw content) w'

  abbrev pub value_sent :
      RoomId → String → Option C.Json → Option String → W → Result Error EventId × W
  value_sent room kind none txn w = (err serde_json, w)
  value_sent room kind (some v) txn w = send_raw room v kind txn w

  -- `send`, of content that is a message of a room
  unfoldable pub send_message : RoomId → MessageType → Option String → W → Result Error EventId × W
  send_message room m txn w = value_sent room "m.room.message" (C.print_message m) txn w

  -- `redact`
  unfoldable pub redact :
      RoomId → EventId → Option String → Option String → W → HttpResult EventId × W
  redact room event reason txn w =
      let (t, w') = txn_id_or_new txn w in C.send room (redact_event event t reason) w'

  module _ (U : UploadClient W) where
    abbrev pub avatar_uploaded :
        RoomId → Mime → Option MessageInfo → Result Error Uploaded × W → Result Error EventId × W
    avatar_uploaded room mime info (err e, w) = (err e, w)
    avatar_uploaded room mime info (ok a, w) =
        let i = Option.get_or info new_info in
        set_avatar_url room a.content_uri
          (some (record i { blurhash = a.blurhash; mimetype = some mime.text })) w

    unfoldable pub upload_avatar :
        RoomId → Mime → Content → Option MessageInfo → W → Result Error EventId × W
    upload_avatar room mime content info w =
        avatar_uploaded room mime info (upload U mime content w)

    abbrev pub attachment_prepared :
        RoomId → Option String → Result Error MessageType × W → Result Error EventId × W
    attachment_prepared room txn (err e, w) = (err e, w)
    attachment_prepared room txn (ok m, w) = send_message room m txn w

    -- `prepare_and_send_attachment`
    unfoldable pub prepare_and_send_attachment :
        RoomId → String → Mime → Content → AttachmentConfig → W → Result Error EventId × W
    prepare_and_send_attachment room body mime content config w =
        attachment_prepared room config.txn_id
          (prepare_attachment_message U body mime content config.info config.thumbnail w)

    -- `send_attachment`, without the generation of thumbnails
    unfoldable pub send_attachment :
        RoomId → String → Mime → Content → AttachmentConfig → W → Result Error EventId × W
    unfolding prepare_and_send_attachment
    send_attachment room body mime content config w = elim config.thumbnail [
      | some t ↦ prepare_and_send_attachment room body mime content config w
      | none ↦
          prepare_and_send_attachment room body mime content
            (record { txn_id = config.txn_id; info = config.info; thumbnail = none }) w
    ]
