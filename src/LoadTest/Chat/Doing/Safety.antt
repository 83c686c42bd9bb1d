-- ===== src/LoadTest/Chat/Doing/Safety.antt =====
-- When a task of src/bin/chat.rs panics, and when not.
use matrix_goose.Prelude.{
  ◌≤◌, ◌≡◌, refl, false, Option, none, some, String, List, [], ◌∷◌, is_empty, text_eq, length,
  arith,
}
use matrix_goose.Map.{Map, lookup}
use matrix_goose.Room.Common.{RoomId}
use matrix_goose.LoadTest.Chat
use matrix_goose.LoadTest.Chat.{TaskIndex, on_room_message, recent, slice_start}
use matrix_goose.LoadTest.Chat.Messages.{length-recent}
use matrix_goose.LoadTest.Chat.Doing.{
  ClientData, ChatClient, Chatting, unwrap, with_world, words_sent, last, text_to, receipt_for,
  looked, page_at, reacted, reaction_for, reacting, do_nothing, send_text, look_at_room,
  paginate_room, go_afk, change_displayname, send_image, send_reaction, run_task,
}
use matrix_goose.LoadTest.Chat.Doing.Filled.{Filled, Filled-lookup}

-- What the client documents of choosing: a room that is chosen from the joined ones can be got, and
-- one of the messages of a list that has some is chosen.
pub record ChatLaws {W Event : Type 0} (C : ChatClient W Event) : Type 0 where
  pub choose-joined :
      (r : RoomId) (w w' : W)
      → C.choose_room (C.joined_rooms w) w ≡ (some r, w')
      → C.get_joined_room r w' ≡ some tt
  pub choose-event :
      (events : List Event) (w : W)
      → is_empty events ≡ false
      → (e : Event) × ((C.choose_event events w).0 ≡ some e)

last-some : {A : Type 0} (xs : List A) → is_empty xs ≡ false → (a : A) × (last xs ≡ some a)
last-some [] h = cc
last-some (a ∷ []) h = (a, refl)
last-some (a ∷ b ∷ xs) h = last-some (b ∷ xs) refl

length_of : {A : Type 0} (xs : List A) → is_empty xs ≡ false → 1 ≤ length xs
length_of [] h = cc
length_of (x ∷ xs) h = omega arith

filled_of : {A : Type 0} (xs : List A) → 1 ≤ length xs → is_empty xs ≡ false
filled_of [] h = absurd (omega arith)
filled_of (x ∷ xs) h = refl

recent-filled : {A : Type 0} (xs : List A) → is_empty xs ≡ false → is_empty (recent xs) ≡ false
recent-filled xs h = filled_of (recent xs) (omega (arith, length-recent xs, length_of xs h))

module _ {W Event : Type 0} (C : ChatClient W Event) where
  abbrev StillJoined : Option RoomId → W → Type 0
  StillJoined none w = Unit
  StillJoined (some r) w = C.get_joined_room r w ≡ some tt

  -- A user that logged in, whose session holds no empty list of messages, and whose room, if it has
  -- chosen one, it is still in.
  abbrev pub Ready : Chatting W Event → Type 0
  Ready u =
      (name : String) × (row : String) × (d : ClientData Event) × (C.user_id u.world ≡ some name)
      × (C.csv_user u.world ≡ some row)
      × (u.session ≡ some d)
      × Filled d.room_messages
      × StillJoined d.room_id u.world

  -- The task went to its end, or it panicked in a sleep.
  abbrev pub Done : Option (Chatting W Event) → Type 0
  Done (some u) = Unit
  Done none = (w : W) × (C.sleep w ≡ none)

  slept-Done :
      (w : W) (f : W → Chatting W Event) (o : Option W)
      → C.sleep w ≡ o
      → Done (unwrap o (λ v. some (f v)))
  slept-Done w f none e = (w, e)
  slept-Done w f (some v) e = tt

  module _ (L : ChatLaws C) where
    text_to-Done :
        (o : Option RoomId) (u : Chatting W Event) → StillJoined o u.world → Done (text_to C o u)
    text_to-Done none u h = tt
    text_to-Done (some r) u h =
        rw h
          (slept-Done (C.typing_notice r u.world) (λ w. with_world C (words_sent C r w) u) _ refl)

    receipt_for-Done :
        (r : RoomId) (w : W) (m : Map RoomId (List Event)) (u : Chatting W Event)
        (o : Option (List Event))
        → lookup r m ≡ o
        → Filled m
        → C.get_joined_room r w ≡ some tt
        → Done (receipt_for C r o w u)
    receipt_for-Done r w m u none e h j = tt
    receipt_for-Done r w m u (some events) e h j =
        let (x, l) = last-some events (Filled-lookup r m events h e) in rw (l, j) tt

    looked-Done :
        (d : ClientData Event) (u : Chatting W Event) (q : Option RoomId × W)
        → C.choose_room (C.joined_rooms u.world) u.world ≡ q
        → Filled d.room_messages
        → Done (looked C d q u)
    looked-Done d u (none, w) e h = tt
    looked-Done d u (some r, w) e h =
        receipt_for-Done r w d.room_messages u _ refl h (L.choose-joined r u.world w e)

    reacted-Done :
        (r : RoomId) (u : Chatting W Event) (q : Option Event × W) (e : Event)
        → q.0 ≡ some e
        → Done (reacted C r q u)
    reacted-Done r u (none, w) e h = cc
    reacted-Done r u (some x, w) e h = tt

    reaction_for-Done :
        (r : RoomId) (w : W) (m : Map RoomId (List Event)) (u : Chatting W Event)
        (o : Option (List Event))
        → lookup r m ≡ o
        → Filled m
        → Done (reaction_for C r o w u)
    reaction_for-Done r w m u none e h = tt
    reaction_for-Done r w m u (some events) e h =
        let (x, c) =
          L.choose-event (recent events) w (recent-filled events (Filled-lookup r m events h e)) in
        reacted-Done r u (C.choose_event (recent events) w) x c

    reacting-Done :
        (d : ClientData Event) (u : Chatting W Event) (q : Option RoomId × W)
        → Filled d.room_messages
        → Done (reacting C d q u)
    reacting-Done d u (none, w) h = tt
    reacting-Done d u (some r, w) h = reaction_for-Done r w d.room_messages u _ refl h

    page_at-Done :
        (d : ClientData Event) (u : Chatting W Event) (q : Option RoomId × W)
        → u.session ≡ some d
        → Done (page_at C q u)
    page_at-Done d u (none, w) h = tt
    page_at-Done d u (some r, w) h = rw h tt

    -- For a user that logged in, whose session holds no empty list of messages, and that is still in
    -- the room of its session, no task panics but in a sleep that panics.
    pub run_task-Done : (t : TaskIndex) (u : Chatting W Event) → Ready u → Done (run_task C t u)
    unfolding run_task do_nothing send_text look_at_room paginate_room go_afk change_displayname
        send_image send_reaction
    run_task-Done Chat.do_nothing u h = slept-Done u.world (λ w. with_world C w u) _ refl
    run_task-Done Chat.go_afk u (n, c, d, user, row, s, f, j) =
        rw row (slept-Done u.world (λ w. with_world C w u) _ refl)
    run_task-Done Chat.send_image u h = tt
    run_task-Done Chat.send_text u (n, c, d, user, row, s, f, j) =
        simp (user, s) (text_to-Done d.room_id u j)
    run_task-Done Chat.look_at_room u (n, c, d, user, row, s, f, j) =
        simp (s, user) (looked-Done d u (C.choose_room (C.joined_rooms u.world) u.world) refl f)
    run_task-Done Chat.paginate_room u (n, c, d, user, row, s, f, j) =
        rw user (page_at-Done d u _ s)
    run_task-Done Chat.change_display_name u (n, c, d, user, row, s, f, j) = rw user tt
    run_task-Done Chat.send_reaction u (n, c, d, user, row, s, f, j) =
        simp (s, user) (reacting-Done d u (C.choose_room (C.joined_rooms u.world) u.world) f)
