-- ===== src/Room/Common/Messages.antt =====
-- The messages of a room with their push actions: `messages`, `push_context` and `MessagesOptions` of
-- src/matrix/room/common.rs. Parameters: the requests, what the base client knows of the room, and the
-- rules of `ruma`. `none` is the panic of `push_rules` for a client that is not logged in. No
-- encryption is compiled.
pub mod Actions
pub mod Events
use matrix_goose.Prelude.{ℕ, ◌-◌, ◌^◌, min, Option, none, some, String, List, [], ◌∷◌, map}
use matrix_goose.Exec.{Result, ok, err}
use matrix_goose.Error.{Error, HttpResult, http, HttpError, authentication_required}
use matrix_goose.Account.{UserId, AccountData}
use matrix_goose.Account.Rules.{push_rules}
use matrix_goose.Room.Common.{RoomId}

pub data Direction : Type 0 where
  backward forward : Direction

pub record MessagesOptions (Filter : Type 0) : Type 0 where
  pub from_token : Option String
  pub to_token : Option String
  pub dir : Direction
  pub limit : ℕ
  pub filter : Filter

module _ {Filter : Type 0} where
  -- `MessagesOptions::new`; the filter is `RoomEventFilter::default()`.
  unfoldable pub new_options : Filter → Direction → MessagesOptions Filter
  new_options default dir = record {
    from_token = none;
    to_token = none;
    dir = dir;
    limit = 10;
    filter = default;
  }

  unfoldable pub start_from : Option String → MessagesOptions Filter → MessagesOptions Filter
  start_from token o = record o { from_token = token }

-- `PushConditionRoomCtx`
pub record PushContext (Levels : Type 0) : Type 0 where
  pub user_id : UserId
  pub room_id : RoomId
  pub member_count : ℕ
  pub user_display_name : String
  -- The levels of the users, their default, and those of notifications.
  pub levels : Levels

-- `TimelineEvent`
pub record TimelineEvent (Raw Action : Type 0) : Type 0 where
  pub event : Raw
  pub push_actions : List Action

-- The answer of `/messages`, and `Messages`, whose chunk is of timeline events.
pub record Messages (Event State : Type 0) : Type 0 where
  pub start : String
  pub end : Option String
  pub chunk : List Event
  pub state : List State

pub record MessagesClient (W : Type 0) : Type 1 where
  pub Raw : Type 0
  pub State : Type 0
  pub Action : Type 0
  pub Ruleset : Type 0
  pub Filter : Type 0
  pub room_id : RoomId
  pub own_user_id : UserId
  pub send_messages : RoomId → MessagesOptions Filter → W → HttpResult (Messages Raw State) × W
  pub send_event : RoomId → String → W → HttpResult Raw × W
  pub active_members_count : W → ℕ
  -- The name of a member, if the room has it.
  pub get_member_no_sync : RoomId → UserId → W → Result Error (Option String) × W
  pub PowerEvent : Type 0
  pub Levels : Type 0
  pub power_event : RoomId → W → Result Error (Option PowerEvent) × W
  pub power_levels : PowerEvent → Option Levels
  pub rules : AccountData W Ruleset
  pub server_default : UserId → Ruleset
  pub get_actions : Ruleset → Raw → PushContext Levels → List Action
  pub user_id : W → Option UserId
  pub TagInfo : Type 0
  pub send_tag : UserId → RoomId → String → TagInfo → W → HttpResult (Unit {0}) × W
  pub send_untag : UserId → RoomId → String → W → HttpResult (Unit {0}) × W

-- `UInt::new(count).unwrap_or(UInt::MAX)`
abbrev pub uint_or_max : ℕ → ℕ
uint_or_max n = min n (2 ^ 53 - 1)

module _ {W : Type 0} (C : MessagesClient W) where
  abbrev pub Event : Type 0
  Event = TimelineEvent C.Raw C.Action

  -- `TimelineEvent::new`
  abbrev pub new_event : C.Raw → TimelineEvent C.Raw C.Action
  new_event e = record { event = e; push_actions = [] }

  abbrev pub levels_of : Option C.PowerEvent → Option C.Levels
  levels_of none = none
  levels_of (some e) = C.power_levels e

  abbrev pub context_with : ℕ → String → Option C.Levels → Option (PushContext C.Levels)
  context_with count name none = none
  context_with count name (some levels) = some (record {
    user_id = C.own_user_id;
    room_id = C.room_id;
    member_count = uint_or_max count;
    user_display_name = name;
    levels = levels;
  })

  abbrev pub context_for :
      ℕ
      → String
      → Result Error (Option C.PowerEvent) × W
      → Result Error (Option (PushContext C.Levels)) × W
  context_for count name (err e, w) = (err e, w)
  context_for count name (ok o, w) = (ok (context_with count name (levels_of o)), w)

  abbrev pub context_of :
      ℕ → Result Error (Option String) × W → Result Error (Option (PushContext C.Levels)) × W
  context_of count (err e, w) = (err e, w)
  context_of count (ok none, w) = (ok none, w)
  context_of count (ok (some name), w) = context_for count name (C.power_event C.room_id w)

  unfoldable pub push_context : W → Result Error (Option (PushContext C.Levels)) × W
  push_context w =
      context_of (C.active_members_count w) (C.get_member_no_sync C.room_id C.own_user_id w)

  abbrev pub acted :
      C.Ruleset → PushContext C.Levels → TimelineEvent C.Raw C.Action → TimelineEvent C.Raw C.Action
  acted rules ctx e = record e { push_actions = C.get_actions rules e.event ctx }

  -- `for event in &mut response.chunk`
  abbrev pub with_actions :
      C.Ruleset
      → PushContext C.Levels
      → Messages (TimelineEvent C.Raw C.Action) C.State
      → Messages (TimelineEvent C.Raw C.Action) C.State
  with_actions rules ctx m = record m { chunk = map (acted rules ctx) m.chunk }

  abbrev pub MessagesAnswer : Type 0
  MessagesAnswer = Option (Result Error (Messages (TimelineEvent C.Raw C.Action) C.State)) × W

  abbrev pub ruled :
      PushContext C.Levels
      → Messages (TimelineEvent C.Raw C.Action) C.State
      → Option (Result Error C.Ruleset) × W
      → MessagesAnswer
  ruled ctx m (none, w) = (none, w)
  ruled ctx m (some (err e), w) = (some (err e), w)
  ruled ctx m (some (ok rules), w) = (some (ok (with_actions rules ctx m)), w)

  abbrev pub in_context :
      Messages (TimelineEvent C.Raw C.Action) C.State
      → Result Error (Option (PushContext C.Levels)) × W
      → MessagesAnswer
  in_context m (err e, w) = (some (err e), w)
  in_context m (ok none, w) = (some (ok m), w)
  in_context m (ok (some ctx), w) = ruled ctx m (push_rules C.rules C.server_default w)

  abbrev pub plain_messages :
      Messages C.Raw C.State → Messages (TimelineEvent C.Raw C.Action) C.State
  plain_messages m = record {
    start = m.start;
    end = m.end;
    chunk = map new_event m.chunk;
    state = m.state;
  }

  abbrev pub messages_of : HttpResult (Messages C.Raw C.State) × W → MessagesAnswer
  messages_of (err e, w) = (some (err (http e)), w)
  messages_of (ok m, w) = in_context (plain_messages m) (push_context w)

  unfoldable pub messages : MessagesOptions C.Filter → W → MessagesAnswer
  unfolding push_context
  messages options w = messages_of (C.send_messages C.room_id options w)
