-- ===== src/Room/Entry.antt =====
-- The rooms of the client and how it enters one: `rooms` to `left_rooms`, `get_room` to
-- `get_left_room`, `join_room_by_id`, `join_room_by_id_or_alias`, `create_room` and `create_dm` of
-- src/matrix/mod.rs. Parameters: the rooms that the base client knows, and the requests.
pub mod Created
use mathlib.Core.List.{filter_map}
use mathlib.Core.Option
use matrix_goose.Prelude.{
  Bool, true, false, not, ◌&&◌, Option, none, some, String, List, [], ◌∷◌, map, is_empty,
}
use matrix_goose.Exec.{Result, ok, err}
use matrix_goose.Error.{Error, http, HttpResult}
use matrix_goose.Account.{UserId, AccountData, Direct, mark_as_dm}
use matrix_goose.Room.Common.{RoomId, RoomState, joined}
use matrix_goose.Room.States.{Room, Rooms, from_common, new_left, new_joined, joined_after}
use matrix_goose.Room.Invited.{new_invited}

-- `create_room::v3::Request`, of which the client reads the first two.
pub record CreateRoom (Rest : Type 0) : Type 0 where
  pub invite : List UserId
  pub is_direct : Bool
  pub rest : Rest

pub record Directory (W R Rest : Type 0) : Type 0 where
  pub get_rooms : W → List R
  pub get_stripped_rooms : W → List R
  pub get_room : RoomId → W → Option R
  pub get_or_create_room : RoomId → RoomState → W → R × W
  pub send_create : CreateRoom Rest → W → HttpResult RoomId × W
  -- By an identifier or an alias, and servers to ask.
  pub send_join_alias : String → List String → W → HttpResult RoomId × W
  -- A request for a new room with the preset for trusted private chats.
  pub trusted_private_chat : Rest

module _ {W R Rest : Type 0} (B : Rooms W R) (D : Directory W R Rest) where
  unfoldable pub rooms : W → List (Room R)
  rooms w = map (from_common B) (D.get_rooms w)

  unfoldable pub joined_rooms : W → List R
  unfolding filter_map
  joined_rooms w = filter_map (new_joined B) (D.get_rooms w)

  unfoldable pub invited_rooms : W → List R
  unfolding filter_map
  invited_rooms w = filter_map (new_invited B) (D.get_stripped_rooms w)

  unfoldable pub left_rooms : W → List R
  unfolding filter_map
  left_rooms w = filter_map (new_left B) (D.get_rooms w)

  unfoldable pub get_room : RoomId → W → Option (Room R)
  get_room id w = Option.map (from_common B) (D.get_room id w)

  unfoldable pub get_joined_room : RoomId → W → Option R
  unfolding Option.bind
  get_joined_room id w = Option.bind (D.get_room id w) (new_joined B)

  unfoldable pub get_invited_room : RoomId → W → Option R
  unfolding Option.bind
  get_invited_room id w = Option.bind (D.get_room id w) (new_invited B)

  unfoldable pub get_left_room : RoomId → W → Option R
  unfolding Option.bind
  get_left_room id w = Option.bind (D.get_room id w) (new_left B)

  unfoldable pub join_room_by_id : RoomId → W → Result Error R × W
  join_room_by_id id w = joined_after B (B.send_join id w)

  unfoldable pub join_room_by_id_or_alias : String → List String → W → Result Error R × W
  join_room_by_id_or_alias alias servers w = joined_after B (D.send_join_alias alias servers w)

  module _ (A : AccountData W Direct) where
    -- An error of the marking is only logged.
    abbrev marked : Bool → R → List UserId → W → W
    marked false r users w = w
    marked true r users w = (mark_as_dm A (B.room_id r) users w).1

    -- `none` is the panic of `unwrap`.
    abbrev entered : CreateRoom Rest → Option R → W → Option (Result Error R) × W
    entered request none w = (none, w)
    entered request (some r) w = (
      some (ok r),
      marked (request.is_direct && not (is_empty request.invite)) r request.invite w,
    )

    abbrev created : CreateRoom Rest → HttpResult RoomId × W → Option (Result Error R) × W
    created request (err e, w) = (some (err (http e)), w)
    created request (ok id, w) =
        let (r, w') = D.get_or_create_room id joined w in entered request (new_joined B r) w'

    unfoldable pub create_room : CreateRoom Rest → W → Option (Result Error R) × W
    create_room request w = created request (D.send_create request w)

    unfoldable pub create_dm : UserId → W → Option (Result Error R) × W
    unfolding create_room
    create_dm user w =
        create_room (record { invite = user ∷ []; is_direct = true; rest = D.trusted_private_chat })
          w
