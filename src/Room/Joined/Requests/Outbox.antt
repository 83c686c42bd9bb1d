-- ===== src/Room/Joined/Requests/Outbox.antt =====
-- What a joined room sends for an attachment and for receipts (src/matrix/room/joined.rs).
use matrix_goose.Prelude.{◌≡◌, refl, ap, Option, none, some, String}
use matrix_goose.Exec.{Result, ok, err}
use matrix_goose.Error.{Error, HttpResult}
use matrix_goose.Media.{Content}
use matrix_goose.Attachment.{
  Mime, MessageType, Thumbnail, AttachmentConfig, UploadClient, prepare_attachment_message,
}
use matrix_goose.Room.Common.{RoomId}
use matrix_goose.Room.Joined.Requests.{
  EventId, send_message_event, RoomClient, as_error, txn_id_or_new, message_sent, send_raw,
  value_sent, send_message, attachment_prepared, prepare_and_send_attachment, send_attachment,
}

module _ {W : Type 0} (C : RoomClient W) where
  -- The transaction of a request, and the state once it is chosen: the one that is configured, with
  -- nothing done, or else a new one.
  abbrev pub Under : Option String → W → String → W → Type 0
  Under (some txn) w used v = (used ≡ txn) × (v ≡ w)
  Under none w used v = C.new_txn_id w ≡ (used, v)

  txn_id_or_new-Under :
      (txn : Option String) (w : W)
      → Under txn w (txn_id_or_new C txn w).0 (txn_id_or_new C txn w).1
  txn_id_or_new-Under none w = refl
  txn_id_or_new-Under (some txn) w = (refl, refl)

  -- The one request for a message, and its answer.
  abbrev pub Sent : RoomId → MessageType → Option String → W → EventId → W → Type 0
  Sent room m txn w id w' =
      (value : C.Json) × (content : C.Json) × (used : String) × (v : W) × (C.print_message m
        ≡ some value)
      × (C.raw value ≡ some content)
      × Under txn w used v
      × (C.send room (send_message_event used "m.room.message" content) v ≡ (ok id, w'))

  as_error-ok :
      (q : HttpResult EventId × W) (id : EventId) (w' : W)
      → as_error C q ≡ (ok id, w')
      → q ≡ (ok id, w')
  as_error-ok (ok a, w) id w' h = cc
  as_error-ok (err e, w) id w' h = cc

  message_sent-ok :
      (room : RoomId) (txn kind : String) (o : Option C.Json) (w : W) (id : EventId) (w' : W)
      → message_sent C room txn kind o w ≡ (ok id, w')
      → (content : C.Json) × (o ≡ some content)
        × (C.send room (send_message_event txn kind content) w ≡ (ok id, w'))
  message_sent-ok room txn kind none w id w' h = cc
  message_sent-ok room txn kind (some c) w id w' h = (c, refl, as_error-ok _ id w' h)

  value_sent-Sent :
      (room : RoomId) (m : MessageType) (txn : Option String) (w : W) (id : EventId) (w' : W)
      (o : Option C.Json)
      → C.print_message m ≡ o
      → value_sent C room "m.room.message" o txn w ≡ (ok id, w')
      → Sent room m txn w id w'
  unfolding send_raw
  value_sent-Sent room m txn w id w' none e h = cc
  value_sent-Sent room m txn w id w' (some v) e h =
      let (c, r, s) =
        message_sent-ok room (txn_id_or_new C txn w).0 "m.room.message" (C.raw v)
          (txn_id_or_new C txn w).1 id w' h in
      (
        v,
        c,
        (txn_id_or_new C txn w).0,
        (txn_id_or_new C txn w).1,
        e,
        r,
        txn_id_or_new-Under txn w,
        s,
      )

  module _ (U : UploadClient W) where
    -- The message was prepared, with its uploads, and then sent.
    abbrev pub Delivered :
        RoomId → String → Mime → Content → AttachmentConfig → W → EventId → W → Type 0
    Delivered room body mime content config w id w' =
        (m : MessageType) × (v : W) × (prepare_attachment_message U body mime content config.info
            config.thumbnail w
          ≡ (ok m, v))
        × Sent room m config.txn_id v id w'

    attachment_prepared-Delivered :
        (room : RoomId) (body : String) (mime : Mime) (content : Content)
        (config : AttachmentConfig) (w : W) (id : EventId) (w' : W)
        (q : Result Error MessageType × W)
        → prepare_attachment_message U body mime content config.info config.thumbnail w ≡ q
        → attachment_prepared C U room config.txn_id q ≡ (ok id, w')
        → Delivered room body mime content config w id w'
    unfolding send_message
    attachment_prepared-Delivered room body mime content config w id w' (err x, v) e h = cc
    attachment_prepared-Delivered room body mime content config w id w' (ok m, v) e h =
        (m, v, e, value_sent-Sent room m config.txn_id v id w' _ refl h)

    -- If `send_attachment` answers an event, then the attachment's message was prepared with the
    -- configured information and thumbnail, and after that one request was sent: the message, in this
    -- room, under the configured transaction, or a new one if none is configured; and the event is
    -- what the server answered.
    pub send_attachment-Delivered :
        (room : RoomId) (body : String) (mime : Mime) (content : Content)
        (config : AttachmentConfig) (w : W) (id : EventId) (w' : W)
        → send_attachment C U room body mime content config w ≡ (ok id, w')
        → Delivered room body mime content config w id w'
    unfolding send_attachment prepare_and_send_attachment
    send_attachment-Delivered room body mime content config w id w' h = go config.thumbnail refl h
      where
        go :
            (t : Option Thumbnail)
            → config.thumbnail ≡ t
            → (elim t as (λ x. Result Error EventId × W) [
              | some n ↦ prepare_and_send_attachment C U room body mime content config w
              | none ↦
                  prepare_and_send_attachment C U room body mime content
                    (record { txn_id = config.txn_id; info = config.info; thumbnail = none })
                    w
            ])
              ≡ (ok id, w')
            → Delivered room body mime content config w id w'
        go (some n) e k =
            attachment_prepared-Delivered room body mime content config w id w' _ refl k
        go none e k =
            attachment_prepared-Delivered room body mime content config w id w' _
              (ap (λ t. prepare_attachment_message U body mime content config.info t w) e) k
