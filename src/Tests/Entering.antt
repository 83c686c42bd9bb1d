-- ===== src/Tests/Entering.antt =====
-- The rooms of a client, of src/matrix/mod.rs and src/matrix/room/invited.rs, and its filters.
use matrix_goose.Prelude.{true, Option, none, some, List, [], ◌∷◌}
use matrix_goose.Exec.{ok, err}
use matrix_goose.Error.{serde_json}
use matrix_goose.Account.{AccountData, Direct}
use matrix_goose.Room.Common.{RoomId, RoomState, joined, left}
use matrix_goose.Room.States.{Rooms}
use matrix_goose.Room.Entry.{CreateRoom, Directory}

-- Rooms are known by their id and state; the world is the list of the rooms.
abbrev Known : Type 0
Known = RoomId × RoomState

abbrev rooms : Rooms (List Known) Known
rooms = record {
  room_id = λ r. r.0;
  state = λ r. r.1;
  send_leave = λ id w. (ok tt, w);
  send_join = λ id w. (ok id, w);
  room_left = λ id w. (ok (id, left), w);
  room_joined = λ id w. (ok (id, joined), w);
}

abbrev first : List Known → Option Known
first [] = none
first (r ∷ w) = some r

abbrev directory : Directory (List Known) Known (Unit {0})
directory = record {
  get_rooms = λ w. w;
  get_stripped_rooms = λ w. w;
  get_room = λ id w. first w;
  get_or_create_room = λ id s w. ((id, joined), (id, joined) ∷ w);
  send_create = λ request w. (ok "!new", w);
  send_join_alias = λ alias servers w. (ok alias, w);
  trusted_private_chat = tt;
}

-- Account data that cannot be read.
abbrev broken : AccountData (List Known) Direct
broken = record {
  user_id = λ w. some "@u";
  Raw = Unit;
  stored = λ w. (err serde_json, w);
  deserialize = λ r. none;
  serialize = λ c. none;
  send = λ user raw w. (ok tt, w);
}

abbrev direct_room : CreateRoom (Unit {0})
direct_room = record { invite = "@v" ∷ []; is_direct = true; rest = tt }
