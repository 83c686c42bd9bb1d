-- ===== src/Account.antt =====
-- The account data of the user: src/matrix/account.rs, and the marking of direct chats in
-- src/matrix/room/common.rs. Parameters: the stored account data, its parsing and printing, and the
-- request that sets it.
pub mod Direct
pub mod Rules
pub mod Profile
pub mod Requests
use matrix_goose.Prelude.{
  Bool, true, false, not, Option, none, some, String, List, [], ◌∷◌, ◌++◌, ◌==◌, text_eq, any,
  filter, is_empty, to_list, if◌then◌else◌,
}
use matrix_goose.Map.{Map, lookup, insert, erase}
use matrix_goose.Exec.{Result, ok, err}
use matrix_goose.Error.{Error, HttpResult, http, authentication_required, serde_json}
use matrix_goose.Room.Common.{RoomId}

abbrev pub UserId : Type 0
UserId = String

-- Account data of one type, with content `C`.
pub record AccountData (W C : Type 0) : Type 1 where
  pub user_id : W → Option UserId
  pub Raw : Type 0
  -- `self.client.store().get_account_data_event_static()`
  pub stored : W → Result Error (Option Raw) × W
  pub deserialize : Raw → Option C
  pub serialize : C → Option Raw
  pub send : UserId → Raw → W → HttpResult (Unit {0}) × W

module _ {W C : Type 0} (A : AccountData W C) where
  abbrev parsed : C → Option A.Raw → Result Error C
  parsed default none = ok default
  parsed default (some raw) = elim (A.deserialize raw) [ none ↦ err serde_json | some c ↦ ok c ]

  abbrev content_of : C → Result Error (Option A.Raw) → Result Error C
  content_of default (err e) = err e
  content_of default (ok o) = parsed default o

  -- `account_data().await?.map(..).transpose()?.unwrap_or_default()`
  unfoldable pub account_content : C → W → Result Error C × W
  account_content default w = let (r, w') = A.stored w in (content_of default r, w')

  abbrev as_error : HttpResult (Unit {0}) × W → Result Error (Unit {0}) × W
  as_error (ok _, w) = (ok tt, w)
  as_error (err e, w) = (err (http e), w)

  abbrev send_for : UserId → Option A.Raw → W → Result Error (Unit {0}) × W
  send_for own_user none w = (err serde_json, w)
  send_for own_user (some raw) w = as_error (A.send own_user raw w)

  abbrev set_for : Option UserId → C → W → Result Error (Unit {0}) × W
  set_for none content w = (err (http authentication_required), w)
  set_for (some own_user) content w = send_for own_user (A.serialize content) w

  unfoldable pub set_account_data : C → W → Result Error (Unit {0}) × W
  set_account_data content w = set_for (A.user_id w) content w

  abbrev set_changed : (C → C) → Result Error C × W → Result Error (Unit {0}) × W
  set_changed change (err e, w) = (err e, w)
  set_changed change (ok c, w) = set_account_data (change c) w

  -- The content is read, changed and sent.
  unfoldable pub change_account_data : C → (C → C) → W → Result Error (Unit {0}) × W
  change_account_data default change w = set_changed change (account_content default w)

-- `DirectEventContent`
abbrev pub Direct : Type 0
Direct = Map UserId (List RoomId)

-- `content.entry(user_id).or_default().push(room_id)`
unfoldable pub push_room : RoomId → UserId → Direct → Direct
push_room room_id user content = insert user (to_list (lookup user content) ++ room_id ∷ []) content

unfoldable pub push_rooms : RoomId → List UserId → Direct → Direct
push_rooms room_id [] content = content
push_rooms room_id (user ∷ users) content =
    push_rooms room_id users (push_room room_id user content)

abbrev pub with_room : RoomId → List RoomId → List RoomId
with_room room_id rooms = if any (λ r. r == room_id) rooms then rooms else rooms ++ room_id ∷ []

-- One member in `set_is_direct(true)`
unfoldable pub mark_member : RoomId → UserId → Direct → Direct
mark_member room_id user content =
    insert user (with_room room_id (to_list (lookup user content))) content

unfoldable pub mark_members : RoomId → List UserId → Direct → Direct
mark_members room_id [] content = content
mark_members room_id (user ∷ users) content =
    mark_members room_id users (mark_member room_id user content)

abbrev pub without : RoomId → List RoomId → List RoomId
without room_id rooms = filter (λ r. not (r == room_id)) rooms

-- `set_is_direct(false)`: users without a direct chat go.
unfoldable pub unmark : RoomId → Direct → Direct
unmark room_id [] = []
unmark room_id ((user, rooms) ∷ content) =
    let rest = unmark room_id content in
    if is_empty (without room_id rooms) then rest else (user, without room_id rooms) ∷ rest

module _ {W : Type 0} (A : AccountData W Direct) where
  unfoldable pub mark_as_dm : RoomId → List UserId → W → Result Error (Unit {0}) × W
  mark_as_dm room_id users = change_account_data A [] (push_rooms room_id users)

  -- What the room knows: its user, and its active members, which are read after the account data.
  module _ (own_user_id : UserId) (active_members : W → Result Error (List UserId) × W) where
    abbrev others : List UserId → List UserId
    others = filter (λ user. not (user == own_user_id))

    abbrev mark_for :
        RoomId → UserId → Direct → Result Error (List UserId) × W → Result Error (Unit {0}) × W
    mark_for room_id own content (err e, w) = (err e, w)
    mark_for room_id own content (ok members, w) =
        send_for A own (A.serialize (mark_members room_id (others members) content)) w

    abbrev direct_for :
        RoomId → UserId → Bool → Result Error Direct × W → Result Error (Unit {0}) × W
    direct_for room_id own is_direct (err e, w) = (err e, w)
    direct_for room_id own true (ok content, w) = mark_for room_id own content (active_members w)
    direct_for room_id own false (ok content, w) =
        send_for A own (A.serialize (unmark room_id content)) w

    unfoldable pub set_is_direct : RoomId → Bool → W → Result Error (Unit {0}) × W
    set_is_direct room_id is_direct w = elim (A.user_id w) [
      | none ↦ (err (http authentication_required), w)
      | some own ↦ direct_for room_id own is_direct (account_content A [] w)
    ]

-- `IgnoredUserListEventContent`
abbrev pub Ignored : Type 0
Ignored = Map UserId (Unit {0})

module _ {W : Type 0} (A : AccountData W Ignored) where
  unfoldable pub ignore_user : UserId → W → Result Error (Unit {0}) × W
  ignore_user user = change_account_data A [] (insert user tt)

  unfoldable pub unignore_user : UserId → W → Result Error (Unit {0}) × W
  unignore_user user = change_account_data A [] (erase user)
