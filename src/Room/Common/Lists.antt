-- ===== src/Room/Common/Lists.antt =====
-- The members of a room, from `sync_members` to `members_no_sync` of src/matrix/room/common.rs, and
-- src/matrix/room/member.rs. Parameters: what the base client keeps of the members, and the account.
use matrix_goose.Prelude.{Bool, true, false, Option, none, some, List, ◌==◌, text_eq}
use matrix_goose.Exec.{Result, ok, err}
use matrix_goose.Error.{Error}
use matrix_goose.Media.{Uri, Content, MediaClient, MediaFormat, plain, get_media_content}
use matrix_goose.Account.{UserId, AccountData, Ignored, ignore_user, unignore_user}
use matrix_goose.Room.Common.{RoomId, Base, Common, ensure_members}

-- `BaseRoomMember`
pub record Member : Type 0 where
  pub user_id : UserId
  pub avatar_url : Option Uri

-- The lists of the base client, for a room.
pub record Members (W : Type 0) : Type 0 where
  pub active : RoomId → W → Result Error (List Member) × W
  pub joined : RoomId → W → Result Error (List Member) × W
  pub all : RoomId → W → Result Error (List Member) × W
  pub one : RoomId → UserId → W → Result Error (Option Member) × W

module _ {W I : Type 0} (B : Base W I) where
  -- A method that ends with ` _no_sync` reads what is there.
  abbrev pub no_sync :
      {A : Type 0} → (RoomId → W → Result Error A × W) → Common W I → Result Error A × Common W I
  no_sync read c = let (r, w) = read c.room_id c.world in (r, record c { world = w })

  abbrev pub after_members :
      {A : Type 0}
      → (RoomId → W → Result Error A × W)
      → Result Error (Option B.MembersResponse) × Common W I
      → Result Error A × Common W I
  after_members read (err e, c) = (err e, c)
  after_members read (ok m, c) = no_sync read c

  -- `self.ensure_members().await?`, and the method without it
  unfoldable pub with_members :
      {A : Type 0} → (RoomId → W → Result Error A × W) → Common W I → Result Error A × Common W I
  with_members read c = after_members read (ensure_members B c)

  unfoldable pub sync_members : Common W I → Result Error (Option B.MembersResponse) × Common W I
  sync_members c = ensure_members B c

  module _ (M : Members W) where
    unfoldable pub active_members_no_sync : Common W I → Result Error (List Member) × Common W I
    active_members_no_sync c = no_sync M.active c

    unfoldable pub active_members : Common W I → Result Error (List Member) × Common W I
    unfolding with_members
    active_members c = with_members M.active c

    unfoldable pub joined_members_no_sync : Common W I → Result Error (List Member) × Common W I
    joined_members_no_sync c = no_sync M.joined c

    unfoldable pub joined_members : Common W I → Result Error (List Member) × Common W I
    unfolding with_members
    joined_members c = with_members M.joined c

    unfoldable pub members_no_sync : Common W I → Result Error (List Member) × Common W I
    members_no_sync c = no_sync M.all c

    unfoldable pub members : Common W I → Result Error (List Member) × Common W I
    unfolding with_members
    members c = with_members M.all c

    unfoldable pub get_member_no_sync :
        UserId → Common W I → Result Error (Option Member) × Common W I
    get_member_no_sync user c = no_sync (λ room w. M.one room user w) c

    unfoldable pub get_member : UserId → Common W I → Result Error (Option Member) × Common W I
    unfolding with_members
    get_member user c = with_members (λ room w. M.one room user w) c

module _ {W : Type 0} where
  abbrev pub some_answer : Result Error Content × W → Result Error (Option Content) × W
  some_answer (err e, w) = (err e, w)
  some_answer (ok c, w) = (ok (some c), w)

  -- `avatar` of a member, and of a room, by the URL of its avatar
  unfoldable pub avatar :
      MediaClient W → Option Uri → MediaFormat → W → Result Error (Option Content) × W
  avatar C none format w = (ok none, w)
  avatar C (some url) format w =
      some_answer (get_media_content C (record { source = plain url; format = format }) true w)

  unfoldable pub ignore : AccountData W Ignored → Member → W → Result Error (Unit {0}) × W
  ignore A m w = ignore_user A m.user_id w

  unfoldable pub unignore : AccountData W Ignored → Member → W → Result Error (Unit {0}) × W
  unignore A m w = unignore_user A m.user_id w

-- `is_account_user`
unfoldable pub is_account_user : Option UserId → Member → Bool
is_account_user none m = false
is_account_user (some id) m = id == m.user_id
