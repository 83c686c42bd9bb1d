-- ===== src/LoadTest/Chat/Doing.antt =====
-- The tasks of a user that chats: src/bin/chat.rs. Parameters: the client, the random choices and the
-- waits, over a world `W`. A failed request is only printed, so that requests whose answer is not
-- looked at are changes of the world. `none` is a panic, `task_sleep`'s as well (see Sleep).
pub mod Filled
pub mod Safety
use matrix_goose.Prelude.{
  ℕ, Bool, true, false, Option, none, some, String, ◌<>◌, List, [], ◌∷◌, length, text_eq,
}
use matrix_goose.Map.{Map, lookup, insert}
use matrix_goose.Exec.{Result, ok, err}
use matrix_goose.Error.{Error}
use matrix_goose.Room.Common.{RoomId}
use matrix_goose.LoadTest.Chat
use matrix_goose.LoadTest.Chat.{TaskIndex, recent, message_words}

-- `ClientData`, without the handle of the task that syncs.
pub record ClientData (Event : Type 0) : Type 0 where
  pub room_id : Option RoomId
  pub room_tokens : Map RoomId String
  pub room_messages : Map RoomId (List Event)

pub record ChatClient (W Event : Type 0) : Type 0 where
  -- The local part of the user's identifier, of a client that is logged in.
  pub user_id : W → Option String
  pub joined_rooms : W → List RoomId
  pub get_joined_room : RoomId → W → Option (Unit {0})
  pub choose_room : List RoomId → W → Option RoomId × W
  pub choose_event : List Event → W → Option Event × W
  pub choose_reaction : W → String × W
  pub event_id : Event → String
  pub typing_notice : RoomId → W → W
  pub send_single_receipt : RoomId → String → W → W
  -- `/messages`, backwards from a token; the answer is the token of its end.
  pub messages : RoomId → Option String → W → Result Error (Option String) × W
  pub send_message : RoomId → List String → W → W
  pub send_annotation : RoomId → String → String → W → W
  pub set_display_name : String → W → W
  -- What stands behind the last dot of a name.
  pub last_part : String → String
  pub random_number : W → String × W
  -- The rounded sample of the log-normal distribution
  pub random_length : W → ℕ × W
  pub words : List String
  pub csv_user : W → Option String
  -- `task_sleep` for a random time, which may panic
  pub sleep : W → Option W

-- A user: the session data, and the world.
pub record Chatting (W Event : Type 0) : Type 0 where
  pub session : Option (ClientData Event)
  pub world : W

-- `unwrap()`, and the code after a call that may panic
abbrev pub unwrap : {A B : Type 0} → Option A → (A → Option B) → Option B
unwrap none f = none
unwrap (some a) f = f a

abbrev pub last : {A : Type 0} → List A → Option A
last [] = none
last (a ∷ []) = some a
last (a ∷ b ∷ more) = last (b ∷ more)

module _ {W Event : Type 0} (C : ChatClient W Event) where
  abbrev pub with_world : W → Chatting W Event → Chatting W Event
  with_world w u = record u { world = w }

  unfoldable pub do_nothing : Chatting W Event → Option (Chatting W Event)
  do_nothing u = unwrap (C.sleep u.world) (λ w. some (with_world w u))

  abbrev pub words_sent : RoomId → W → W
  words_sent room w =
      let (n, w') = C.random_length w in C.send_message room (message_words n C.words) w'

  abbrev pub text_to : Option RoomId → Chatting W Event → Option (Chatting W Event)
  text_to none u = some u
  text_to (some room) u = unwrap (C.get_joined_room room u.world) (λ x.
      unwrap (C.sleep (C.typing_notice room u.world))
        (λ w. some (with_world (words_sent room w) u)))

  unfoldable pub send_text : Chatting W Event → Option (Chatting W Event)
  unfolding message_words
  send_text u = unwrap (C.user_id u.world) (λ name. unwrap u.session (λ d. text_to d.room_id u))

  abbrev pub receipt_for :
      RoomId → Option (List Event) → W → Chatting W Event → Option (Chatting W Event)
  receipt_for room none w u = some (with_world w u)
  receipt_for room (some events) w u = unwrap (last events) (λ e.
      unwrap (C.get_joined_room room w)
        (λ x. some (with_world (C.send_single_receipt room (C.event_id e) w) u)))

  abbrev pub looked :
      ClientData Event → Option RoomId × W → Chatting W Event → Option (Chatting W Event)
  looked d (none, w) u = some (with_world w u)
  looked d (some room, w) u = receipt_for room (lookup room d.room_messages) w u

  unfoldable pub look_at_room : Chatting W Event → Option (Chatting W Event)
  look_at_room u = unwrap u.session (λ d.
      unwrap (C.user_id u.world)
        (λ name. looked d (C.choose_room (C.joined_rooms u.world) u.world) u))

  -- What the answer of `/messages` leaves in the session.
  abbrev pub paginated : RoomId → ClientData Event → Result Error (Option String) → ClientData Event
  paginated room d (err e) = d
  paginated room d (ok none) = d
  paginated room d (ok (some token)) = record d { room_tokens = insert room token d.room_tokens }

  abbrev pub page_of : RoomId → ClientData Event → W → Option (Chatting W Event)
  page_of room d w =
      let (r, w') = C.messages room (lookup room d.room_tokens) w in
      some (record {
        session = some (paginated room (record d { room_id = some room }) r);
        world = w';
      })

  abbrev pub page_at : Option RoomId × W → Chatting W Event → Option (Chatting W Event)
  page_at (none, w) u = some (with_world w u)
  page_at (some room, w) u = unwrap u.session (λ d. page_of room d w)

  unfoldable pub paginate_room : Chatting W Event → Option (Chatting W Event)
  paginate_room u =
      unwrap (C.user_id u.world)
        (λ name. page_at (C.choose_room (C.joined_rooms u.world) u.world) u)

  unfoldable pub go_afk : Chatting W Event → Option (Chatting W Event)
  go_afk u =
      unwrap (C.csv_user u.world) (λ name. unwrap (C.sleep u.world) (λ w. some (with_world w u)))

  abbrev pub new_name : String → String → String
  new_name number random = "User " <> number <> " (random=" <> random <> ")"

  unfoldable pub change_displayname : Chatting W Event → Option (Chatting W Event)
  change_displayname u = unwrap (C.user_id u.world) (λ name.
      let (n, w) = C.random_number u.world in
      some (with_world (C.set_display_name (new_name (C.last_part name) n) w) u))

  unfoldable pub send_image : Chatting W Event → Option (Chatting W Event)
  send_image u = some u

  abbrev pub reacted : RoomId → Option Event × W → Chatting W Event → Option (Chatting W Event)
  reacted room (none, w) u = none
  reacted room (some e, w) u =
      let (key, w') = C.choose_reaction w in
      some (with_world (C.send_annotation room (C.event_id e) key w') u)

  abbrev pub reaction_for :
      RoomId → Option (List Event) → W → Chatting W Event → Option (Chatting W Event)
  reaction_for room none w u = some (with_world w u)
  reaction_for room (some events) w u = reacted room (C.choose_event (recent events) w) u

  abbrev pub reacting :
      ClientData Event → Option RoomId × W → Chatting W Event → Option (Chatting W Event)
  reacting d (none, w) u = some (with_world w u)
  reacting d (some room, w) u = reaction_for room (lookup room d.room_messages) w u

  unfoldable pub send_reaction : Chatting W Event → Option (Chatting W Event)
  unfolding recent
  send_reaction u = unwrap u.session (λ d.
      unwrap (C.user_id u.world)
        (λ name. reacting d (C.choose_room (C.joined_rooms u.world) u.world) u))

  -- The arms of `match TaskIndex::from(index)`.
  unfoldable pub run_task : TaskIndex → Chatting W Event → Option (Chatting W Event)
  run_task Chat.do_nothing u = do_nothing u
  run_task Chat.send_text u = send_text u
  run_task Chat.look_at_room u = look_at_room u
  run_task Chat.paginate_room u = paginate_room u
  run_task Chat.go_afk u = go_afk u
  run_task Chat.change_display_name u = change_displayname u
  run_task Chat.send_image u = send_image u
  run_task Chat.send_reaction u = send_reaction u
