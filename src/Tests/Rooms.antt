-- ===== src/Tests/Rooms.antt =====
-- The rooms of src/matrix/room with a homeserver that answers from a list.
use matrix_goose.Prelude.{
  ◌≡◌, refl, Bool, true, false, Option, none, some, String, List, [], ◌∷◌, text_eq,
}
use matrix_goose.Map.{lookup, insert}
use matrix_goose.Exec.{ok, err}
use matrix_goose.Config.{from_secs}
use matrix_goose.Error.{HttpResult, reqwest}
use matrix_goose.Room.Common.{
  Base, BaseLaws, Common, joined, shared, is_encrypted, RoomId, request_encryption_state,
  encryption_received, encryption_answer, encryption_saved,
}
use matrix_goose.Room.Common.Requests.{is_encrypted-settled}
use matrix_goose.Room.Joined.{Joined, Typing}
use matrix_goose.Room.Joined.Notices.{Spaced, last_notice, presses, late_presses, presses-Spaced}

-- What the homeserver answers next: whether the room is encrypted, or no answer.
abbrev answer : List (Option Bool) → HttpResult Bool × List (Option Bool)
answer [] = (err reqwest, [])
answer (none ∷ w) = (err reqwest, w)
answer (some b ∷ w) = (ok b, w)

abbrev content : Bool → Option (Unit {0})
content true = some tt
content false = none

abbrev is_some : Option (Unit {0}) → Bool
is_some none = false
is_some (some u) = true

-- Whether the encryption state is synced, and whether the room is encrypted.
abbrev base : Base (List (Option Bool)) (Bool × Bool)
base = record {
  MembersAnswer = Unit;
  MembersResponse = Unit;
  send_members = λ id w. (ok tt, w);
  receive_members = λ id a w. (ok tt, w);
  are_members_synced = λ id w. false;
  Content = Bool;
  EncryptionContent = Unit;
  send_encryption = λ id w. answer w;
  deserialize_as = content;
  mark_encryption_state_synced = λ i. (true, i.1);
  set_encryption_event = λ o i. (i.0, is_some o);
  is_encryption_state_synced = λ i. i.0;
  is_encrypted = λ i. i.1;
  save_changes = λ id i w. (ok tt, w);
  state = λ i. joined;
  history_visibility = λ i. shared;
}

abbrev base_laws : BaseLaws base
base_laws = record {
  synced_lem = λ o i. refl;
  encrypted-none = λ i. refl;
  encrypted-some = λ x i. refl;
}

-- A room whose encryption state is not known yet.
abbrev room_with : List (Option Bool) → Common (List (Option Bool)) (Bool × Bool)
room_with w = record {
  room_id = "!a";
  info = (false, false);
  members_request_locks = [];
  encryption_state_request_locks = [];
  world = w;
}

is_encrypted-settled_example :
    is_encrypted base (is_encrypted base (room_with (some true ∷ []))).1
    ≡ (ok true, (is_encrypted base (room_with (some true ∷ []))).1)
unfolding lookup is_encrypted request_encryption_state encryption_received encryption_answer
    encryption_saved
is_encrypted-settled_example =
    is_encrypted-settled base base_laws (room_with (some true ∷ []))
      (is_encrypted base (room_with (some true ∷ []))).1 true refl refl

-- The server takes every notice and keeps it.
abbrev note : String → RoomId → Typing → List Typing → HttpResult (Unit {0}) × List Typing
note user id t w = (ok tt, t ∷ w)

abbrev typing_room : Joined (List Typing)
typing_room = record {
  room_id = "!a";
  own_user_id = "@u";
  typing_notice_times = insert "!a" (from_secs 10) [];
  world = [];
}

presses-Spaced_example :
    (presses note (from_secs 11 ∷ from_secs 14 ∷ from_secs 15 ∷ from_secs 20 ∷ []) typing_room
      ≡ late_presses
          (last_notice note typing_room)
          (from_secs 11 ∷ from_secs 14 ∷ from_secs 15 ∷ from_secs 20 ∷ []))
    × Spaced
        (last_notice note typing_room)
        (presses note (from_secs 11 ∷ from_secs 14 ∷ from_secs 15 ∷ from_secs 20 ∷ []) typing_room)
presses-Spaced_example =
    presses-Spaced note (from_secs 11 ∷ from_secs 14 ∷ from_secs 15 ∷ from_secs 20 ∷ []) typing_room

-- No answer to the question for the members.
abbrev base_failing : Base (List (Option Bool)) (Bool × Bool)
base_failing = record base { send_members = λ id w. (err reqwest, w) }
