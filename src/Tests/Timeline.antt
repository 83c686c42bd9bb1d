-- ===== src/Tests/Timeline.antt =====
-- The messages of a room, the profile of the user, and syncs without an end, of
-- src/matrix/room/common.rs, src/matrix/account.rs and src/matrix/mod.rs.
use matrix_goose.Prelude.{ℕ, ◌+◌, ◌≡◌, refl, ap, Option, none, some, String, [], ◌∷◌}
use matrix_goose.Exec.{ok, err}
use matrix_goose.Error.{reqwest}
use matrix_goose.Config.Request.{new_request_config}
use matrix_goose.Config.Sync.{new_sync_settings}
use matrix_goose.Account.Profile.{
  ProfileClient, ProfileLaws, get_avatar_url, get_cached_avatar_url,
  get_cached_avatar_url-get_avatar_url,
}
use matrix_goose.Room.Common.Messages.{MessagesClient, MessagesOptions, backward, messages}
use matrix_goose.Room.Common.Messages.Actions.{Annotated, messages-Annotated}
use matrix_goose.Sync.Loop.Endless.{
  sync, sync_stream, items, first_error, result_of, sync-sync_stream,
}
use matrix_goose.Tests.Syncs.{client}

-- A room with one message, whose rules act once for each member.
abbrev timeline : MessagesClient ℕ
timeline = record {
  Raw = String;
  State = Unit;
  Action = ℕ;
  Ruleset = ℕ;
  Filter = Unit;
  room_id = "!a";
  own_user_id = "@a";
  send_messages = λ room o w.
      (ok (record { start = "s"; end = none; chunk = "hello" ∷ []; state = [] }), w + 1);
  send_event = λ room id w. (ok "hello", w + 1);
  active_members_count = λ w. 2;
  get_member_no_sync = λ room user w. (ok (some "Alice"), w);
  PowerEvent = Unit;
  Levels = Unit;
  power_event = λ room w. (ok (some tt), w);
  power_levels = λ e. some e;
  rules = record {
    user_id = λ w. some "@a";
    Raw = ℕ;
    stored = λ w. (ok none, w);
    deserialize = λ r. some r;
    serialize = λ c. some c;
    send = λ u r w. (ok tt, w);
  };
  server_default = λ user. 1;
  get_actions = λ rules e ctx. rules ∷ ctx.member_count ∷ [];
  user_id = λ w. some "@a";
  TagInfo = Unit;
  send_tag = λ user room tag info w. (ok tt, w);
  send_untag = λ user room tag w. (ok tt, w);
}

abbrev options : MessagesOptions Unit
options = record { from_token = some "s"; to_token = none; dir = backward; limit = 10; filter = tt }

messages-Annotated_example : Annotated timeline options 0 (messages timeline options 0)
messages-Annotated_example = messages-Annotated timeline options 0

-- The world is what the store keeps; the homeserver has one avatar.
abbrev profile : ProfileClient (Option String)
profile = record {
  user_id = λ w. some "@a";
  request_config = λ w. new_request_config;
  send_get_display_name = λ u c w. (ok (some "Alice"), w);
  send_set_display_name = λ u n w. (ok tt, w);
  send_get_avatar_url = λ u c w. (ok (some "mxc://a"), w);
  send_set_avatar_url = λ u o w. (ok tt, w);
  send_get_profile = λ u c w. (err reqwest, w);
  get_kv_data = λ u w. (ok w, w);
  set_kv_data = λ u url w. (ok tt, some url);
  remove_kv_data = λ u w. (ok tt, none);
}

stored_value : (o w : Option String) → o ≡ w → profile.get_kv_data "@a" w ≡ (ok o, w)
stored_value o w h = cc

abbrev profile_laws : ProfileLaws profile
profile_laws = record {
  get-set = λ u url w w' h. stored_value (some url) w' (ap (λ q. q.1) h);
  get-remove = λ u w w' h. stored_value none w' (ap (λ q. q.1) h);
  set-works = λ u url w. refl;
  remove-works = λ u w. refl;
}

asked : get_avatar_url profile none ≡ (ok (some "mxc://a"), some "mxc://a")
unfolding get_avatar_url
asked = refl

get_cached_avatar_url-get_avatar_url_example :
    get_cached_avatar_url profile (some "mxc://a") ≡ (ok (some "mxc://a"), some "mxc://a")
get_cached_avatar_url-get_avatar_url_example =
    get_cached_avatar_url-get_avatar_url profile profile_laws "@a" (some "mxc://a") none
      (some "mxc://a") refl refl asked

sync-sync_stream_example :
    result_of client (sync client 3 new_sync_settings (some "t1" ∷ none ∷ []))
    ≡ first_error client
        (items client 3 (sync_stream client new_sync_settings (some "t1" ∷ none ∷ [])))
sync-sync_stream_example = sync-sync_stream client 3 new_sync_settings (some "t1" ∷ none ∷ [])
