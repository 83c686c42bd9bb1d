-- ===== src/Room/Joined.antt =====
-- What a joined room can do: src/matrix/room/joined.rs. The clock is an argument, in the nanoseconds
-- since some moment; the elapsed time of a call is read once.
pub mod Notices
pub mod Requests
pub mod Levels
pub mod Waiting
use matrix_goose.Prelude.{
  ℕ, ◌-◌, Bool, true, false, not, ◌||◌, Option, none, some, if◌then◌else◌, ltb, leb, text_eq,
  String,
}
use matrix_goose.Map.{Map, lookup, insert, erase}
use matrix_goose.Exec.{Result, ok, err}
use matrix_goose.Config.{Duration, from_secs}
use matrix_goose.Error.{HttpError, HttpResult, Error, http}
use matrix_goose.Room.Common.{RoomId}

abbrev pub typing_notice_timeout : Duration
typing_notice_timeout = from_secs 4

abbrev pub typing_notice_resend_timeout : Duration
typing_notice_resend_timeout = from_secs 3

-- `Typing` of the request
pub data Typing : Type 0 where
  yes : Duration → Typing
  no : Typing

-- The client, seen from a joined room.
pub record Joined (W : Type 0) : Type 0 where
  pub room_id : RoomId
  pub own_user_id : String
  pub typing_notice_times : Map RoomId ℕ
  pub world : W

-- `let send = ..` of `typing_notice`
unfoldable pub is_due : Option ℕ → ℕ → Bool → Bool
is_due none now typing = typing
is_due (some typing_time) now typing =
    if ltb typing_notice_resend_timeout (now - typing_time)
    then typing || leb (now - typing_time) typing_notice_timeout
    else not typing

module _ {W : Type 0} (send_typing : String → RoomId → Typing → W → HttpResult (Unit {0}) × W) where
  abbrev pub sent : Joined W → HttpResult (Unit {0}) × W → Result Error (Unit {0}) × Joined W
  sent r (ok _, w) = (ok tt, record r { world = w })
  sent r (err e, w) = (err (http e), record r { world = w })

  unfoldable pub send_typing_notice : ℕ → Bool → Joined W → Result Error (Unit {0}) × Joined W
  send_typing_notice now true r =
      sent (record r { typing_notice_times = insert r.room_id now r.typing_notice_times })
        (send_typing r.own_user_id r.room_id (yes typing_notice_timeout) r.world)
  send_typing_notice now false r =
      sent (record r { typing_notice_times = erase r.room_id r.typing_notice_times })
        (send_typing r.own_user_id r.room_id no r.world)

  unfoldable pub typing_notice : ℕ → Bool → Joined W → Result Error (Unit {0}) × Joined W
  typing_notice now typing r =
      if is_due (lookup r.room_id r.typing_notice_times) now typing
      then send_typing_notice now typing r
      else (ok tt, r)
