-- ===== src/Room/Invited.antt =====
-- src/matrix/room/invited.rs. Parameters: the base rooms with their requests, the account data, and
-- the members that the base client knows.
use matrix_goose.Prelude.{◌≡◌, refl, Bool, true, false, Option, none, some, List}
use matrix_goose.Exec.{Result, ok, err}
use matrix_goose.Error.{Error, other_error}
use matrix_goose.Account.{UserId, AccountData, Direct, set_is_direct}
use matrix_goose.Room.Common.{RoomState, joined, left, invited}
use matrix_goose.Room.States.{Rooms, leave, join}

module _ {W R : Type 0} (B : Rooms W R) where
  abbrev pub if_invited : RoomState → R → Option R
  if_invited invited r = some r
  if_invited joined r = none
  if_invited left r = none

  -- `Invited::new`
  unfoldable pub new_invited : R → Option R
  new_invited r = if_invited (B.state r) r

  -- `reject_invitation`
  unfoldable pub reject_invitation : R → W → Result Error R × W
  reject_invitation r w = leave B r w

-- What an invited room reads: whether its invitation is to a direct chat, and its members, without
-- a request.
pub record Invitations (W R Member : Type 0) : Type 0 where
  pub is_direct : R → W → Result Error Bool × W
  pub own_user_id : R → UserId
  pub active_members : R → W → Result Error (List UserId) × W
  pub user_id : W → Option UserId
  pub get_member_no_sync : R → UserId → W → Result Error (Option Member) × W
  -- `member.event().sender()`
  pub sender : Member → UserId

pub record Invite (Member : Type 0) : Type 0 where
  pub invitee : Member
  pub inviter : Option Member

module _ {W R Member : Type 0} (B : Rooms W R) (A : AccountData W Direct)
    (I : Invitations W R Member) where
  -- `is_direct().await.unwrap_or_else(...)`
  abbrev direct_or_not : Result Error Bool → Bool
  direct_or_not (ok b) = b
  direct_or_not (err e) = false

  abbrev marked : R → Bool → W → W
  marked r false w = w
  marked r true w = (set_is_direct A (I.own_user_id r) (I.active_members r) (B.room_id r) true w).1

  abbrev accepted : R → Result Error R × W → Result Error R × W
  accepted r (err e, w) = (err e, w)
  accepted r (ok room, w) =
      let (direct, w') = I.is_direct r w in (ok room, marked r (direct_or_not direct) w')

  unfoldable pub accept_invitation : R → W → Result Error R × W
  accept_invitation r w = accepted r (join B r w)

  -- An invitation is accepted exactly as the room is joined: whether the invitation was to a direct
  -- chat, and what became of marking it as one, does not change the answer.
  pub accept_invitation-join : (r : R) (w : W) → (accept_invitation r w).0 ≡ (join B r w).0
  unfolding accept_invitation
  accept_invitation-join r w = go (join B r w)
    where
      go : (q : Result Error R × W) → (accepted r q).0 ≡ q.0
      go (ok room, v) = refl
      go (err e, v) = refl

module _ {W R Member : Type 0} (I : Invitations W R Member) where
  abbrev with_inviter : Member → Result Error (Option Member) × W → Result Error (Invite Member) × W
  with_inviter m (ok o, w) = (ok (record { invitee = m; inviter = o }), w)
  with_inviter m (err e, w) = (err e, w)

  abbrev invited_by : R → Result Error (Option Member) × W → Result Error (Invite Member) × W
  invited_by r (err e, w) = (err e, w)
  invited_by r (ok none, w) = (err (other_error "No membership event found"), w)
  invited_by r (ok (some m), w) = with_inviter m (I.get_member_no_sync r (I.sender m) w)

  abbrev details_for : R → Option UserId → W → Result Error (Invite Member) × W
  details_for r none w = (err (other_error "The client isn't authenticated"), w)
  details_for r (some user) w = invited_by r (I.get_member_no_sync r user w)

  unfoldable pub invite_details : R → W → Result Error (Invite Member) × W
  invite_details r w = details_for r (I.user_id w) w
