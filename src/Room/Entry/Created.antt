-- ===== src/Room/Entry/Created.antt =====
-- How the rooms of the client stand in its lists, and what `create_room` answers
-- (src/matrix/mod.rs).
use mathlib.Core.Option
use matrix_goose.Prelude.{◌≡◌, refl, ◌⊎◌, inl, inr, Option, none, some}
use matrix_goose.Exec.{Result, ok, err}
use matrix_goose.Error.{Error, http, HttpResult}
use matrix_goose.Account.{AccountData, Direct}
use matrix_goose.Room.Common.{RoomId, RoomState, joined, left, invited}
use matrix_goose.Room.States.{
  Room, joined_room, left_room, invited_room, Rooms, from_common, of_state, new_left, if_left,
  new_joined, if_joined,
}
use matrix_goose.Room.Invited.{new_invited, if_invited}
use matrix_goose.Room.Entry.{
  CreateRoom, Directory, get_room, get_joined_room, get_invited_room, get_left_room, created,
  create_room,
}

module _ {W R Rest : Type 0} (B : Rooms W R) (D : Directory W R Rest) where
  -- The answers of the four methods for one room.
  abbrev Answers : Type 0
  Answers = Option (Room R) × Option R × Option R × Option R

  abbrev answers : RoomId → W → Answers
  answers id w = (
    get_room B D id w,
    get_joined_room B D id w,
    get_invited_room B D id w,
    get_left_room B D id w,
  )

  -- In exactly one state, or in none.
  abbrev pub OneState : Answers → Type 0
  OneState a =
      (◌≡◌ {A = Answers} a (none, none, none, none))
      ⊎ ((r : R) × (((B.state r ≡ joined)
              × (◌≡◌ {A = Answers} a (some (joined_room r), some r, none, none)))
            ⊎ ((B.state r ≡ invited)
                × (◌≡◌ {A = Answers} a (some (invited_room r), none, some r, none)))
            ⊎ ((B.state r ≡ left)
                × (◌≡◌ {A = Answers} a (some (left_room r), none, none, some r)))))

  -- For each identifier, either the client knows no room, and `get_room`, `get_joined_room`,
  -- `get_invited_room` and `get_left_room` all answer nothing, or it knows one, `get_room` answers it
  -- by its state, and of the three others exactly the one of its state answers it.
  pub get_room-OneState :
      (id : RoomId) (w : W)
      → OneState (
        get_room B D id w,
        get_joined_room B D id w,
        get_invited_room B D id w,
        get_left_room B D id w,
      )
  unfolding get_room get_joined_room get_invited_room get_left_room Option.bind from_common
      new_joined new_invited new_left
  get_room-OneState id w = go (D.get_room id w)
    where
      by_state :
          (r : R) (s : RoomState)
          → B.state r ≡ s
          → OneState (some (of_state B s r), if_joined B s r, if_invited B s r, if_left B s r)
      by_state r joined e = inr (r, inl (e, refl))
      by_state r invited e = inr (r, inr (inl (e, refl)))
      by_state r left e = inr (r, inr (inr (e, refl)))

      go :
          (o : Option R)
          → OneState (
            Option.map (from_common B) o,
            Option.bind o (new_joined B),
            Option.bind o (new_invited B),
            Option.bind o (new_left B),
          )
      go none = inl refl
      go (some r) = by_state r (B.state r) refl

  abbrev pub answer_of : HttpResult RoomId × W → Result Error R
  answer_of (ok id, w) = ok (D.get_or_create_room id joined w).0
  answer_of (err e, w) = err (http e)

  module _ (A : AccountData W Direct) where
    -- If the base client hands out a room in the joined state for the identifier that the server
    -- answers, then `create_room` does not panic, and it answers that room, or the error of its
    -- request, whatever becomes of marking the room as a direct chat.
    pub create_room-answer_of :
        (request : CreateRoom Rest) (w : W)
        → ((id : RoomId) (v : W) → B.state (D.get_or_create_room id joined v).0 ≡ joined)
        → (create_room B D A request w).0 ≡ some (answer_of (D.send_create request w))
    unfolding create_room new_joined
    create_room-answer_of request w law = go (D.send_create request w)
      where
        go : (q : HttpResult RoomId × W) → (created B D A request q).0 ≡ some (answer_of q)
        go (err e, v) = refl
        go (ok id, v) = rw (law id v) refl
