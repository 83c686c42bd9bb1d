-- ===== src/Room/Common/Messages/Events.antt =====
-- One event of a room with its push actions, and the tags of a room: `event`, `event_push_actions`,
-- `set_tag` and `remove_tag` of src/matrix/room/common.rs.
use matrix_goose.Prelude.{Option, none, some, String, List, []}
use matrix_goose.Exec.{Result, ok, err}
use matrix_goose.Error.{Error, HttpResult, http, authentication_required}
use matrix_goose.Account.{UserId}
use matrix_goose.Account.Rules.{push_rules}
use matrix_goose.Room.Common.Messages.{PushContext, TimelineEvent, MessagesClient, push_context}

module _ {W : Type 0} (C : MessagesClient W) where
  abbrev pub actions_by :
      C.Raw
      → PushContext C.Levels
      → Option (Result Error C.Ruleset) × W
      → Option (Result Error (List C.Action)) × W
  actions_by e ctx (none, w) = (none, w)
  actions_by e ctx (some (err x), w) = (some (err x), w)
  actions_by e ctx (some (ok rules), w) = (some (ok (C.get_actions rules e ctx)), w)

  abbrev pub actions_in :
      C.Raw
      → Result Error (Option (PushContext C.Levels)) × W
      → Option (Result Error (List C.Action)) × W
  actions_in e (err x, w) = (some (err x), w)
  actions_in e (ok none, w) = (some (ok []), w)
  actions_in e (ok (some ctx), w) = actions_by e ctx (push_rules C.rules C.server_default w)

  unfoldable pub event_push_actions : C.Raw → W → Option (Result Error (List C.Action)) × W
  unfolding push_context
  event_push_actions e w = actions_in e (push_context C w)

  abbrev pub with_event :
      C.Raw
      → Option (Result Error (List C.Action)) × W
      → Option (Result Error (TimelineEvent C.Raw C.Action)) × W
  with_event e (none, w) = (none, w)
  with_event e (some (err x), w) = (some (err x), w)
  with_event e (some (ok actions), w) =
      (some (ok (record { event = e; push_actions = actions })), w)

  abbrev pub event_of :
      HttpResult C.Raw × W → Option (Result Error (TimelineEvent C.Raw C.Action)) × W
  event_of (err e, w) = (some (err (http e)), w)
  event_of (ok e, w) = with_event e (event_push_actions e w)

  unfoldable pub event : String → W → Option (Result Error (TimelineEvent C.Raw C.Action)) × W
  unfolding event_push_actions
  event id w = event_of (C.send_event C.room_id id w)

  abbrev pub tagging :
      Option UserId → (UserId → W → HttpResult (Unit {0}) × W) → W → HttpResult (Unit {0}) × W
  tagging none f w = (err authentication_required, w)
  tagging (some user) f w = f user w

  unfoldable pub set_tag : String → C.TagInfo → W → HttpResult (Unit {0}) × W
  set_tag tag info w = tagging (C.user_id w) (λ user v. C.send_tag user C.room_id tag info v) w

  unfoldable pub remove_tag : String → W → HttpResult (Unit {0}) × W
  remove_tag tag w = tagging (C.user_id w) (λ user v. C.send_untag user C.room_id tag v) w
