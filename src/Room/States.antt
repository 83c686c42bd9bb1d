-- ===== src/Room/States.antt =====
-- The rooms by their state: src/matrix/room/mod.rs, left.rs, invited.rs and joined.rs, and how a room
-- is left and joined in src/matrix/room/common.rs. Parameters: the base rooms `R`, and the requests
-- and the base client over a world `W`.
pub mod Moves
use matrix_goose.Prelude.{Option, none, some}
use matrix_goose.Exec.{Result, ok, err, ok_or}
use matrix_goose.Error.{Error, HttpResult, http, inconsistent_state}
use matrix_goose.Room.Common.{RoomId, RoomState, joined, left, invited}

pub data Room (R : Type 0) : Type 0 where
  joined_room left_room invited_room : R → Room R

pub record Rooms (W R : Type 0) : Type 0 where
  pub room_id : R → RoomId
  pub state : R → RoomState
  pub send_leave : RoomId → W → HttpResult (Unit {0}) × W
  -- The answer names the room that was joined.
  pub send_join : RoomId → W → HttpResult RoomId × W
  pub room_left : RoomId → W → Result Error R × W
  pub room_joined : RoomId → W → Result Error R × W

module _ {W R : Type 0} (B : Rooms W R) where
  -- `Deref for Room`
  unfoldable pub deref : Room R → R
  deref (joined_room r) = r
  deref (left_room r) = r
  deref (invited_room r) = r

  abbrev pub of_state : RoomState → R → Room R
  of_state joined r = joined_room r
  of_state left r = left_room r
  of_state invited r = invited_room r

  -- `From<Common>`, and `From<Joined>`, `From<Left>` and `From<Invited>` on the room inside
  unfoldable pub from_common : R → Room R
  from_common r = of_state (B.state r) r

  abbrev pub if_left : RoomState → R → Option R
  if_left left r = some r
  if_left joined r = none
  if_left invited r = none

  -- `Left::new`
  unfoldable pub new_left : R → Option R
  new_left r = if_left (B.state r) r

  abbrev pub if_joined : RoomState → R → Option R
  if_joined joined r = some r
  if_joined left r = none
  if_joined invited r = none

  -- `Joined::new`
  unfoldable pub new_joined : R → Option R
  new_joined r = if_joined (B.state r) r

  abbrev pub checked : (R → Option R) → Result Error R × W → Result Error R × W
  checked new (err e, w) = (err e, w)
  checked new (ok r, w) = (ok_or (new r) inconsistent_state, w)

  abbrev pub left_after : RoomId → HttpResult (Unit {0}) × W → Result Error R × W
  left_after id (err e, w) = (err (http e), w)
  left_after id (ok _, w) = checked new_left (B.room_left id w)

  unfoldable pub leave : R → W → Result Error R × W
  leave r w = left_after (B.room_id r) (B.send_leave (B.room_id r) w)

  abbrev pub joined_after : HttpResult RoomId × W → Result Error R × W
  joined_after (err e, w) = (err (http e), w)
  joined_after (ok id, w) = checked new_joined (B.room_joined id w)

  unfoldable pub join : R → W → Result Error R × W
  join r w = joined_after (B.send_join (B.room_id r) w)
