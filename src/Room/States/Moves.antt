-- ===== src/Room/States/Moves.antt =====
-- The states of rooms that are converted, left and joined (src/matrix/room).
use matrix_goose.Prelude.{◌≡◌, refl, Option, none, some}
use matrix_goose.Exec.{Result, ok, err, ok_or}
use matrix_goose.Error.{Error, HttpResult, inconsistent_state}
use matrix_goose.Room.Common.{RoomId, RoomState, joined, left, invited}
use matrix_goose.Room.States.{
  Rooms, if_left, new_left, if_joined, new_joined, checked, left_after, leave, joined_after, join,
}

module _ {W R : Type 0} (B : Rooms W R) where
  new_left-state : (r q : R) → new_left B r ≡ some q → B.state q ≡ left
  unfolding new_left
  new_left-state r q = go (B.state r) refl
    where
      go : (s : RoomState) → B.state r ≡ s → if_left B s r ≡ some q → B.state q ≡ left
      go left e h = cc
      go joined e h = cc
      go invited e h = cc

  new_joined-state : (r q : R) → new_joined B r ≡ some q → B.state q ≡ joined
  unfolding new_joined
  new_joined-state r q = go (B.state r) refl
    where
      go : (s : RoomState) → B.state r ≡ s → if_joined B s r ≡ some q → B.state q ≡ joined
      go joined e h = cc
      go left e h = cc
      go invited e h = cc

  checked-ok :
      (new : R → Option R) (a : Result Error R × W) (q : R) (v : W)
      → checked B new a ≡ (ok q, v)
      → (r : R) × (new r ≡ some q)
  checked-ok new (err e, w) q v h = cc
  checked-ok new (ok r, w) q v h = go (new r) refl h
    where
      go :
          (o : Option R)
          → new r ≡ o
          → ◌≡◌ {A = Result Error R × W} (ok_or o inconsistent_state, w) (ok q, v)
          → (p : R) × (new p ≡ some q)
      go none e k = cc
      go (some p) e k = (r, cc)

  left_after-left :
      (id : RoomId) (a : HttpResult (Unit {0}) × W) (q : R) (v : W)
      → left_after B id a ≡ (ok q, v)
      → B.state q ≡ left
  left_after-left id (err e, w) q v h = cc
  left_after-left id (ok u, w) q v h =
      let (p, e) = checked-ok (new_left B) (B.room_left id w) q v h in new_left-state p q e

  joined_after-joined :
      (a : HttpResult RoomId × W) (q : R) (v : W)
      → joined_after B a ≡ (ok q, v)
      → B.state q ≡ joined
  joined_after-joined (err e, w) q v h = cc
  joined_after-joined (ok id, w) q v h =
      let (p, e) = checked-ok (new_joined B) (B.room_joined id w) q v h in new_joined-state p q e

  -- A room that `leave` answers is left, whatever the server and the base client do.
  pub leave-left : (r q : R) (w v : W) → leave B r w ≡ (ok q, v) → B.state q ≡ left
  unfolding leave
  leave-left r q w v h = left_after-left (B.room_id r) (B.send_leave (B.room_id r) w) q v h

  -- A room that `join` answers is joined, whatever the server and the base client do.
  pub join-joined : (r q : R) (w v : W) → join B r w ≡ (ok q, v) → B.state q ≡ joined
  unfolding join
  join-joined r q w v h = joined_after-joined (B.send_join (B.room_id r) w) q v h
