-- ===== src/Tests/Moves.antt =====
-- Leaving and joining rooms of src/matrix/room.
use matrix_goose.Prelude.{◌≡◌, refl}
use matrix_goose.Exec.{ok}
use matrix_goose.Room.Common.{RoomId, RoomState, joined, left, invited}
use matrix_goose.Room.States.{Rooms, leave, join, new_left, new_joined}

-- Rooms are known by their id and state; the world is the state of the one room there is.
abbrev rooms : Rooms RoomState (RoomId × RoomState)
rooms = record {
  room_id = λ r. r.0;
  state = λ r. r.1;
  send_leave = λ id w. (ok tt, left);
  send_join = λ id w. (ok id, joined);
  room_left = λ id w. (ok (id, w), w);
  room_joined = λ id w. (ok (id, w), w);
}

left_run : leave rooms ("!a", joined) joined ≡ (ok ("!a", left), left)
unfolding leave new_left
left_run = refl

joined_run : join rooms ("!a", invited) invited ≡ (ok ("!a", joined), joined)
unfolding join new_joined
joined_run = refl
