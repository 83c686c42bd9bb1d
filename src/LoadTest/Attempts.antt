-- ===== src/LoadTest/Attempts.antt =====
-- The users that register, join rooms and create rooms: src/bin/register.rs, src/bin/join.rs and
-- src/bin/create_room.rs. Parameters: the requests, over a world `W`, and the CSV and JSON files.
pub mod Retries
use matrix_goose.Prelude.{
  ℕ, zero, suc, Bool, true, false, Option, none, some, String, List, [], ◌∷◌, ◌<>◌, ◌==◌, text_eq,
  map, filter, is_empty, if◌then◌else◌,
}
use matrix_goose.Exec.{Result, ok, err}
use matrix_goose.Error.{Error}
use matrix_goose.Room.Common.{RoomId}

-- `let mut retries = 3;`
abbrev pub max_retries : ℕ
max_retries = 3

module _ {W A : Type 0} (request : W → Result Error A × W) where
  -- `while retries > 0`: the answer of the first attempt that succeeds, if any.
  unfoldable pub retry : ℕ → W → Option A × W
  retry zero w = (none, w)
  retry (suc retries) w =
      let again = retry retries in
      elim (request w).0 [ ok a ↦ (some a, (request w).1) | err e ↦ again (request w).1 ]

-- What a user of the tests does at the homeserver.
pub record Homeserver (W : Type 0) : Type 1 where
  pub RegistrationRequest : Type 0
  -- A request with a name, a password and the dummy authentication.
  pub registration : String → String → RegistrationRequest
  pub register : RegistrationRequest → W → Result Error (Unit {0}) × W
  pub login_username : String → String → W → Result Error (Unit {0}) × W
  pub sync_once : W → Result Error (Unit {0}) × W
  pub invited_rooms : W → List RoomId
  pub join_room_by_id : RoomId → W → Result Error (Unit {0}) × W
  -- The host of the homeserver's URL.
  pub host_str : String
  -- `str::replace`
  pub replace : String → String → String → String
  -- A room by its name and the users to invite.
  pub create_room : Option String → List String → W → Result Error (Unit {0}) × W

pub record User : Type 0 where
  pub username : String
  pub password : String

pub record RoomInfo : Type 0 where
  pub creator : String
  pub name : String
  pub users : List String

module _ {W : Type 0} (H : Homeserver W) where
  -- `register` of src/bin/register.rs, from the request on: it tells whether it succeeded.
  unfoldable pub register_user : User → W → Option (Unit {0}) × W
  register_user u w = retry (H.register (H.registration u.username u.password)) max_retries w

  -- The loop over the invites.
  unfoldable pub join_invites : List RoomId → W → W
  join_invites [] w = w
  join_invites (invite ∷ invites) w =
      join_invites invites (retry (H.join_room_by_id invite) max_retries w).1

  abbrev pub after_sync : Result Error (Unit {0}) × W → W
  after_sync (r, w) = join_invites (H.invited_rooms w) w

  abbrev pub logged_in : (W → W) → Result Error (Unit {0}) × W → W
  logged_in go (ok _, w) = go w
  logged_in go (err e, w) = w

  -- `join` of src/bin/join.rs: the outcome of the sync is not looked at.
  unfoldable pub join : User → W → W
  join u w = logged_in (λ v. after_sync (H.sync_once v)) (H.login_username u.username u.password w)

  abbrev pub full_name : String → String
  full_name name = "@" <> name <> ":" <> H.replace H.host_str "matrix." ""

  -- The loop over the rooms of a creator.
  unfoldable pub create_rooms : List RoomInfo → W → W
  create_rooms [] w = w
  create_rooms (room ∷ rooms) w =
      create_rooms rooms
        (retry (H.create_room (some room.name) (map full_name room.users)) max_retries w).1

  -- `create_room` of src/bin/create_room.rs: a user who creates no room does not log in.
  unfoldable pub create_room : User → List RoomInfo → W → W
  create_room u rooms w =
      let own = filter (λ room. room.creator == u.username) rooms in
      if is_empty own
      then w
      else logged_in (create_rooms own) (H.login_username u.username u.password w)
