-- ===== src/LoadTest/Chat.antt =====
-- The users that chat: src/bin/chat.rs. Parameters: the clock, the random choices and the tasks
-- themselves, over a world `W`; tasks and waits may panic. The scheduler has
-- fuel, one unit for each task.
pub mod Messages
pub mod Doing
pub mod Start
use matrix_goose.Prelude.{
  ℕ, zero, suc, ◌-◌, max, min, Bool, true, false, ◌||◌, Option, none, some, String, List, [], ◌∷◌,
  ◌++◌, text_eq, length, drop, take, ltb, get_elem?, if◌then◌else◌, to_list,
}
use matrix_goose.Map.{Map, lookup, insert}
use matrix_goose.Room.Common.{RoomId}

pub data TaskIndex : Type 0 where
  do_nothing send_text look_at_room paginate_room go_afk : TaskIndex
  change_display_name send_image send_reaction : TaskIndex

abbrev pub task_indices : List TaskIndex
task_indices =
    do_nothing ∷ send_text ∷ look_at_room ∷ paginate_room ∷ go_afk ∷ change_display_name
    ∷ send_image ∷ send_reaction ∷ []

-- `TaskIndex::from`
unfoldable pub task_from : ℕ → Option TaskIndex
task_from value = get_elem? task_indices value

-- `index_weights`
abbrev pub index_weights : List ℕ
index_weights = 11 ∷ 6 ∷ 4 ∷ 2 ∷ 1 ∷ 1 ∷ 0 ∷ 1 ∷ []

-- How the scheduler ends.
pub data Ended (W : Type 0) : Type 0 where
  finished : W → Ended W
  panicked : Ended W

pub record Tasks (W : Type 0) : Type 0 where
  -- `*CANCELED.read().await`
  pub is_canceled : W → Bool
  -- `ATTACK_START.elapsed() > runtime`, for a run time that is a number
  pub is_over : W → Bool
  -- `task_gen.next_rng(..)`
  pub next_rng : W → ℕ × W
  -- The task, whose outcome is not looked at; `none` is a panic.
  pub run_task : TaskIndex → W → Option W
  -- `task_sleep(0.1, true)`; `none` is its panic.
  pub pause : W → Option W

module _ {W : Type 0} (T : Tasks W) where
  abbrev pub paused : Option W → Option W
  paused none = none
  paused (some w) = T.pause w

  abbrev pub next_task : (W → Option (Ended W)) → Option W → Option (Ended W)
  next_task rest none = some panicked
  next_task rest (some w) = rest w

  -- The loop of `task_scheduler`.
  unfoldable pub schedule : ℕ → W → Option (Ended W)
  schedule zero w = none
  schedule (suc fuel) w =
      let rest = schedule fuel in
      if T.is_canceled w || T.is_over w
      then some (finished w)
      else (elim (task_from (T.next_rng w).0) [
        | none ↦ some panicked
        | some task ↦ next_task rest (paused (T.run_task task (T.next_rng w).1))
      ])

  unfoldable pub task_scheduler : ℕ → W → Option (Ended W)
  task_scheduler fuel w =
      if T.is_canceled w || T.is_over w then some (finished w) else schedule fuel w

-- `on_room_message`: the messages of a room, in the order in which they came.
module _ {Event : Type 0} where
  unfoldable pub on_room_message :
      Event → RoomId → Map RoomId (List Event) → Map RoomId (List Event)
  on_room_message event room_id messages = elim (lookup room_id messages) [
    | some ms ↦ insert room_id (ms ++ event ∷ []) messages
    | none ↦ insert room_id (event ∷ []) messages
  ]

  abbrev pub slice_start : List Event → ℕ
  slice_start messages = if ltb 10 (length messages) then length messages - 11 else 0

  -- The messages that `send_reaction` chooses from.
  unfoldable pub recent : List Event → List Event
  recent messages = drop (slice_start messages) messages

-- The number of words that `send_text` sends, of a random number and the words that there are.
unfoldable pub message_len : ℕ → ℕ → ℕ
message_len sample words = max (min sample words) 1

-- `words[0..message_len]`
unfoldable pub message_words : ℕ → List String → List String
message_words sample words = take (message_len sample (length words)) words
