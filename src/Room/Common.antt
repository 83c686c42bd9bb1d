-- ===== src/Room/Common.antt =====
-- What the rooms of all states share: the requests for the members and for the encryption state of
-- a room in src/matrix/room/common.rs. Parameters: the endpoints and the base client. The locks
-- of the rooms with a request in flight are sets of room ids; a call that finds its room there
-- is taken from the moment on when the lock is free.
pub mod Requests
pub mod Members
pub mod Route
pub mod Lists
pub mod Messages
use matrix_goose.Prelude.{
  ◌≡◌, Bool, true, false, Option, none, some, String, if◌then◌else◌, text_eq,
}
use matrix_goose.Map.{Map, lookup, insert, erase}
use matrix_goose.Exec.{Result, ok, err}
use matrix_goose.Error.{
  HttpError, HttpResult, Error, ErrorKind, http, serde_json, client_api_error_kind, not_found,
  limit_exceeded, unknown_token, other_kind,
}

abbrev pub RoomId : Type 0
RoomId = String

pub data RoomState : Type 0 where
  joined left invited : RoomState

pub data HistoryVisibility : Type 0 where
  world_readable invited_only joined_only shared custom : HistoryVisibility

-- The base client and the homeserver. `I` is what the base client knows of a room.
pub record Base (W I : Type 0) : Type 1 where
  pub MembersAnswer : Type 0
  pub MembersResponse : Type 0
  pub send_members : RoomId → W → HttpResult MembersAnswer × W
  pub receive_members : RoomId → MembersAnswer → W → Result Error MembersResponse × W
  pub are_members_synced : RoomId → W → Bool
  pub Content : Type 0
  pub EncryptionContent : Type 0
  pub send_encryption : RoomId → W → HttpResult Content × W
  pub deserialize_as : Content → Option EncryptionContent
  pub mark_encryption_state_synced : I → I
  pub set_encryption_event : Option EncryptionContent → I → I
  pub is_encryption_state_synced : I → Bool
  pub is_encrypted : I → Bool
  pub save_changes : RoomId → I → W → Result Error (Unit {0}) × W
  pub state : I → RoomState
  pub history_visibility : I → HistoryVisibility

-- The documented behaviour of `RoomInfo`.
pub record BaseLaws {W I : Type 0} (B : Base W I) : Type 0 where
  pub synced_lem :
      (o : Option B.EncryptionContent) (i : I)
      → B.is_encryption_state_synced (B.set_encryption_event o (B.mark_encryption_state_synced i))
        ≡ true
  pub encrypted-none :
      (i : I)
      → B.is_encrypted (B.set_encryption_event none (B.mark_encryption_state_synced i)) ≡ false
  pub encrypted-some :
      (x : B.EncryptionContent) (i : I)
      → B.is_encrypted (B.set_encryption_event (some x) (B.mark_encryption_state_synced i)) ≡ true

-- The client, seen from one room.
pub record Common (W I : Type 0) : Type 0 where
  pub room_id : RoomId
  pub info : I
  pub members_request_locks : Map RoomId (Unit {0})
  pub encryption_state_request_locks : Map RoomId (Unit {0})
  pub world : W

abbrev pub readable : HistoryVisibility → Bool
readable world_readable = true
readable invited_only = true
readable joined_only = false
readable shared = false
readable custom = false

abbrev pub visible : RoomState → HistoryVisibility → Bool
visible invited v = readable v
visible joined v = true
visible left v = true

abbrev pub is_not_found : Option ErrorKind → Bool
is_not_found none = false
is_not_found (some not_found) = true
is_not_found (some (limit_exceeded t)) = false
is_not_found (some (unknown_token s)) = false
is_not_found (some (other_kind k)) = false

abbrev pub answered_some : {A : Type 0} → Result Error (Option A) → Result Error Bool
answered_some (err e) = err e
answered_some (ok none) = ok false
answered_some (ok (some a)) = ok true

module _ {W I : Type 0} (B : Base W I) where
  unfoldable pub members_received :
      Common W I
      → Result Error B.MembersResponse × W
      → Result Error (Option B.MembersResponse) × Common W I
  members_received c (err e, w) = (err e, record c { world = w })
  members_received c (ok m, w) = (
    ok (some m),
    record c { world = w; members_request_locks = erase c.room_id c.members_request_locks },
  )

  unfoldable pub members_sent :
      Common W I
      → HttpResult B.MembersAnswer × W
      → Result Error (Option B.MembersResponse) × Common W I
  members_sent c (err e, w) = (err (http e), record c { world = w })
  members_sent c (ok a, w) = members_received c (B.receive_members c.room_id a w)

  unfoldable pub request_members : Common W I → Result Error (Option B.MembersResponse) × Common W I
  unfolding members_sent members_received
  request_members c =
      let begun : Common W I = record c {
        members_request_locks = insert c.room_id tt c.members_request_locks;
      } in
      elim (lookup c.room_id c.members_request_locks) [
        | some _ ↦ (ok none, c)
        | none ↦ members_sent begun (B.send_members c.room_id c.world)
      ]

  unfoldable pub are_events_visible : Common W I → Bool
  are_events_visible c = visible (B.state c.info) (B.history_visibility c.info)

  unfoldable pub ensure_members : Common W I → Result Error (Option B.MembersResponse) × Common W I
  ensure_members c =
      let r = request_members c in
      if are_events_visible c
      then if B.are_members_synced c.room_id c.world then (ok none, c) else r
      else (ok none, c)

  -- `Some(response.content.deserialize_as()?)`
  abbrev pub deserialized : Option B.EncryptionContent → Result Error (Option B.EncryptionContent)
  deserialized none = err serde_json
  deserialized (some x) = ok (some x)

  -- `match self.client.send(request, None).await`
  unfoldable pub encryption_answer :
      HttpResult B.Content → Result Error (Option B.EncryptionContent)
  encryption_answer (ok content) = deserialized (B.deserialize_as content)
  encryption_answer (err e) =
      if is_not_found (client_api_error_kind e) then ok none else err (http e)

  unfoldable pub encryption_saved :
      Common W I
      → Option B.EncryptionContent
      → I
      → Result Error (Unit {0}) × W
      → Result Error (Option B.EncryptionContent) × Common W I
  encryption_saved c response info (err e, w) = (err e, record c { world = w })
  encryption_saved c response info (ok _, w) = (
    ok response,
    record c {
      world = w;
      info = info;
      encryption_state_request_locks = erase c.room_id c.encryption_state_request_locks;
    },
  )

  unfoldable pub encryption_received :
      Common W I
      → Result Error (Option B.EncryptionContent)
      → Result Error (Option B.EncryptionContent) × Common W I
  encryption_received c (err e) = (err e, c)
  encryption_received c (ok response) =
      let info = B.set_encryption_event response (B.mark_encryption_state_synced c.info) in
      encryption_saved c response info (B.save_changes c.room_id info c.world)

  unfoldable pub request_encryption_state :
      Common W I → Result Error (Option B.EncryptionContent) × Common W I
  request_encryption_state c =
      let (a, w) = B.send_encryption c.room_id c.world in
      let begun : Common W I = record c {
        world = w;
        encryption_state_request_locks = insert c.room_id tt c.encryption_state_request_locks;
      } in
      elim (lookup c.room_id c.encryption_state_request_locks) [
        | some _ ↦ (ok none, c)
        | none ↦ encryption_received begun (encryption_answer a)
      ]

  unfoldable pub is_encrypted : Common W I → Result Error Bool × Common W I
  is_encrypted c =
      let (r, c') = request_encryption_state c in
      if B.is_encryption_state_synced c.info
      then (ok (B.is_encrypted c.info), c)
      else (answered_some r, c')
