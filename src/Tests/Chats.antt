-- ===== src/Tests/Chats.antt =====
-- The tasks of the chatting users of src/bin/chat.rs.
use mathlib.Core.Option
use matrix_goose.Prelude.{
  ℕ, ◌+◌, ◌≡◌, refl, false, Option, none, some, String, List, [], ◌∷◌, is_empty, leb, text_eq,
}
use matrix_goose.Exec.{ok}
use matrix_goose.Config.Request.{new_request_config}
use matrix_goose.Config.Sync.{new_sync_settings}
use matrix_goose.LoadTest.Chat
use matrix_goose.LoadTest.Chat.{TaskIndex}
use matrix_goose.LoadTest.Chat.Doing.{ChatClient, Chatting, run_task}
use matrix_goose.LoadTest.Chat.Doing.Safety.{ChatLaws, Done, run_task-Done}
use matrix_goose.LoadTest.Chat.Start.{sync_forever, until_canceled, sync_forever-sync_loop}
use matrix_goose.Sync.Loop.{SyncClient, sync_loop}

abbrev head : {A : Type 0} → List A → Option A
head [] = none
head (a ∷ as_) = some a

-- The world is the name of the user, if it is logged in.
abbrev client : ChatClient (Option String) String
client = record {
  user_id = λ w. w;
  joined_rooms = λ w. "!a" ∷ [];
  get_joined_room = λ r w. some tt;
  choose_room = λ rooms w. (head rooms, w);
  choose_event = λ events w. (head events, w);
  choose_reaction = λ w. ("+", w);
  event_id = λ e. e;
  typing_notice = λ r w. w;
  send_single_receipt = λ r e w. w;
  messages = λ r token w. (ok (some "t1"), w);
  send_message = λ r words w. w;
  send_annotation = λ r e key w. w;
  set_display_name = λ n w. w;
  last_part = λ n. n;
  random_number = λ w. ("5", w);
  random_length = λ w. (2, w);
  words = "lorem" ∷ [];
  csv_user = λ w. some "user.0";
  sleep = λ w. some w;
}

head-some : (events : List String) → is_empty events ≡ false → (e : String) × (head events ≡ some e)
head-some [] h = cc
head-some (e ∷ events) h = (e, refl)

abbrev laws : ChatLaws client
laws = record { choose-joined = λ r w w' h. refl; choose-event = λ events w h. head-some events h }

abbrev user : Chatting (Option String) String
user = record {
  session =
      some
        (record { room_id = some "!a"; room_tokens = []; room_messages = ("!a", "e1" ∷ []) ∷ [] });
  world = some "user.0";
}

run_task-Done_example : Done client (run_task client Chat.send_reaction user)
run_task-Done_example =
    run_task-Done client laws Chat.send_reaction user
      ("user.0", "user.0", _, refl, refl, refl, (refl, tt), refl)

-- The world counts the syncs.
abbrev syncs : SyncClient ℕ (Unit {0})
syncs = record {
  Answer = String;
  next_batch = λ a. a;
  Processed = Unit;
  request_config = λ w. new_request_config;
  send = λ request config w. (ok "s", w + 1);
  process_sync = λ a w. (ok tt, w);
  notify_beat = λ w. w;
  now = λ w. w;
  sleep = λ w. w;
  sync_token = λ w. none;
}

sync_forever-sync_loop_example :
    sync_forever syncs (λ w. leb 2 w) 3 new_sync_settings none 0
    ≡ Option.map
        (λ q. q.1)
        (sync_loop syncs 3
          (until_canceled syncs (λ w. leb 2 w))
          (record { settings = new_sync_settings; last_sync_time = none; world = 0 }))
sync_forever-sync_loop_example =
    sync_forever-sync_loop syncs (λ w. leb 2 w) 3 new_sync_settings none 0
