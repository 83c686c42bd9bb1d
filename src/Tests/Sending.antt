-- ===== src/Tests/Sending.antt =====
-- Attachments, power levels, the wait for a sync and routes of src/matrix/attachment.rs,
-- src/matrix/media.rs and src/matrix/room.
use matrix_goose.Prelude.{
  ℕ, ◌+◌, ◌≡◌, refl, false, none, some, String, List, [], ◌∷◌, leb, arith, num_eq,
}
use matrix_goose.Map.{insert, lookup}
use matrix_goose.Media.{upload_config}
use matrix_goose.Exec.{ok}
use matrix_goose.Config.Request.{new_request_config}
use matrix_goose.Room.Common.{joined}
use matrix_goose.Attachment.{
  Mime, Thumbnail, UploadClient, prepare_attachment_message, with_thumbnail, send_thumbnail, upload,
}
use matrix_goose.Attachment.Prepared.{Prepared, prepare_attachment_message-Prepared}
use matrix_goose.Room.Joined.Requests.{RoomClient, send_attachment}
use matrix_goose.Room.Joined.Requests
use matrix_goose.Room.Joined.Requests.Outbox.{Delivered, send_attachment-Delivered}
use matrix_goose.Room.Joined.Levels.{PowerLevels, set_levels, level_of, level_of-set_levels}
use matrix_goose.Room.Joined.Waiting.{Watched, Returns, sync_up-Returns, is_waiting}
use matrix_goose.Room.Common.Route.{Member, pos, servers_of}
use matrix_goose.Room.Common.Route.Servers.{Routes, servers_of-Routes}

abbrev jpeg : Mime
jpeg = record { major = "image"; essence = "image/jpeg"; text = "image/jpeg" }

abbrev pdf : Mime
pdf = record { major = "application"; essence = "application/pdf"; text = "application/pdf" }

-- The world counts the uploads.
abbrev uploads : UploadClient ℕ
uploads = record {
  request_config = new_request_config;
  create_content =
      λ cfg mime content w. (ok (record { content_uri = "mxc://a"; blurhash = none }), w + 1);
}

abbrev small : Thumbnail
small = record { content = 1 ∷ []; content_type = jpeg; info = none }

prepare_attachment_message-Prepared_example :
    Prepared uploads "a picture" jpeg
      (1 ∷ 2 ∷ [])
      none
      (some small)
      0
      (prepare_attachment_message uploads "a picture" jpeg (1 ∷ 2 ∷ []) none (some small) 0)
prepare_attachment_message-Prepared_example =
    prepare_attachment_message-Prepared uploads "a picture" jpeg (1 ∷ 2 ∷ []) none (some small) 0

abbrev room_client : RoomClient ℕ
room_client = record {
  Json = String;
  print_state = λ c. some "state";
  print_message = λ m. some "message";
  raw = λ j. some j;
  new_txn_id = λ w. ("t", w + 1);
  send = λ room r w. (ok "$e", w + 1);
}

send_attachment-Delivered_example :
    Delivered room_client uploads "!a" "a file" pdf (1 ∷ []) (with_thumbnail small) 0 "$e" 4
unfolding with_thumbnail send_attachment Requests.prepare_and_send_attachment Requests.send_message
    Requests.send_raw prepare_attachment_message send_thumbnail upload upload_config
send_attachment-Delivered_example =
    send_attachment-Delivered room_client uploads "!a" "a file" pdf (1 ∷ []) (with_thumbnail small)
      0 "$e" 4 refl

abbrev levels : PowerLevels ℕ (Unit {0})
levels = record { users = ("@a", 100) ∷ []; users_default = 0; rest = tt }

abbrev updates : List (String × ℕ)
updates = ("@b", 50) ∷ ("@a", 0) ∷ ("@b", 60) ∷ []

level_of-set_levels_example : level_of "@b" (set_levels updates levels) ≡ 60
level_of-set_levels_example = level_of-set_levels "@b" updates levels

-- A room that is synced after two waits.
abbrev watched : Watched ℕ
watched = record { is_synced = λ w. leb 2 w; state = λ w. joined; wait = λ w. w + 1 }

sync_up-Returns_example : Returns watched 3 4 0
unfolding is_waiting
sync_up-Returns_example = sync_up-Returns watched 3 4 0 (omega arith) refl

abbrev member : String → ℕ → Member
member server level = record { server = server; is_ip_literal = false; power_level = pos level }

abbrev members : List Member
members =
    member "a.org" 0
    ∷ member "b.org" 100
    ∷ member "c.org" 0
    ∷ member "c.org" 0
    ∷ member "d.org" 0
    ∷ []

servers_of-Routes_example : Routes members "c.org" (servers_of members)
servers_of-Routes_example = servers_of-Routes members "c.org"

routed : servers_of members ≡ "b.org" ∷ "c.org" ∷ "a.org" ∷ []
unfolding servers_of insert lookup
routed = refl
