-- ===== src/LoadTest/Chat/Messages.antt =====
-- What the chatting users of src/bin/chat.rs choose from.
use matrix_goose.Prelude.{
  ℕ, zero, suc, true, false, ◌-◌, ◌≤◌, ◌<◌, max, min, ◌≡◌, ◌≢◌, refl, sym, ◌∙◌, ap, ◌||◌, Option,
  none, some, String, List, [], ◌∷◌, ◌++◌, ◌==◌, text_eq, length, drop, take, get_elem?,
  if◌then◌else◌, to_list, arith, Bool-cases, inl, inr, append-nil, append_assoc,
}
use matrix_goose.Map.{Map, lookup, insert, lookup-insert, lookup-nil}
use matrix_goose.Room.Common.{RoomId}
use matrix_goose.LoadTest.Chat.{
  TaskIndex, task_from, Tasks, panicked, schedule, paused, next_task, on_room_message, slice_start,
  recent, message_len, message_words, index_weights, task_indices,
}

module _ {Event : Type 0} where
  -- The messages come one after the other.
  unfoldable pub receive : List (RoomId × Event) → Map RoomId (List Event) → Map RoomId (List Event)
  receive [] messages = messages
  receive ((room_id, event) ∷ events) messages =
      receive events (on_room_message event room_id messages)

  -- The messages of one room.
  abbrev pub of_room : RoomId → List (RoomId × Event) → List Event
  of_room room_id [] = []
  of_room room_id ((r, event) ∷ events) =
      if r == room_id then event ∷ of_room room_id events else of_room room_id events

  lookup-on_room_message :
      (r : RoomId) (event : Event) (room_id : RoomId) (messages : Map RoomId (List Event))
      → lookup r (on_room_message event room_id messages) ≡ (
          if room_id == r
          then some (to_list (lookup r messages) ++ event ∷ [])
          else lookup r messages)
  unfolding on_room_message
  lookup-on_room_message r event room_id messages = go (lookup room_id messages) refl
    where
      pushed :
          (o : Option (List Event)) (ms : List Event)
          → lookup room_id messages ≡ o
          → to_list o ++ event ∷ [] ≡ ms
          → lookup r (insert room_id ms messages) ≡ (
              if room_id == r
              then some (to_list (lookup r messages) ++ event ∷ [])
              else lookup r messages)
      pushed o ms e f = lookup-insert r room_id ms messages ∙ elim (Bool-cases (room_id == r)) [
        | inl h ↦
            let same = ap (λ k. lookup k messages) (sym ((text_eq.beq_iff room_id r).0 h)) ∙ e in
            rw (h, same, f) refl
        | inr h ↦ rw h refl
      ]

      go :
          (o : Option (List Event))
          → lookup room_id messages ≡ o
          → lookup r (elim o as (λ x. Map RoomId (List Event)) [
            | some ms ↦ insert room_id (ms ++ event ∷ []) messages
            | none ↦ insert room_id (event ∷ []) messages
          ])
            ≡ (if room_id == r
                then some (to_list (lookup r messages) ++ event ∷ [])
                else lookup r messages)
      go none e = pushed none (event ∷ []) e refl
      go (some ms) e = pushed (some ms) (ms ++ event ∷ []) e refl

  -- A list of messages that came to a room in which there were none before.
  abbrev pub listed : List Event → Option (List Event)
  listed [] = none
  listed (m ∷ ms) = some (m ∷ ms)

  to_list-listed : (ms : List Event) → to_list (listed ms) ≡ ms
  to_list-listed [] = refl
  to_list-listed (m ∷ ms) = refl

  listed-snoc : (ms : List Event) (m : Event) → listed (ms ++ m ∷ []) ≡ some (ms ++ m ∷ [])
  listed-snoc [] m = refl
  listed-snoc (x ∷ ms) m = refl

  receive-from :
      (r : RoomId) (events : List (RoomId × Event)) (messages : Map RoomId (List Event))
      (ms : List Event)
      → lookup r messages ≡ listed ms
      → lookup r (receive events messages) ≡ listed (ms ++ of_room r events)
  unfolding receive
  receive-from r [] messages ms h = h ∙ ap listed (sym (append-nil ms))
  receive-from r ((room_id, event) ∷ events) messages ms h = elim (Bool-cases (room_id == r)) [
    | inl e ↦ rw e (
        receive-from r events (on_room_message event room_id messages) (ms ++ event ∷ []) (
          lookup-on_room_message r event room_id messages
          ∙ rw (e, h, to_list-listed ms) (sym (listed-snoc ms event)))
        ∙ ap listed (append_assoc ms (event ∷ []) (of_room r events)))
    | inr e ↦ rw e (
        receive-from r events (on_room_message event room_id messages) ms
          (lookup-on_room_message r event room_id messages ∙ rw e h))
  ]

  -- After any messages, a user holds for each room the messages of that room in the order in which
  -- they came, and nothing for a room in which none came.
  pub lookup-receive :
      (r : RoomId) (events : List (RoomId × Event))
      → lookup r (receive events []) ≡ listed (of_room r events)
  lookup-receive r events = receive-from r events [] [] (lookup-nil r)

  length-drop : (n : ℕ) (xs : List Event) → length (drop n xs) ≡ length xs - n
  length-drop zero xs = omega arith
  length-drop (suc n) [] = omega arith
  length-drop (suc n) (x ∷ xs) = omega (arith, length-drop n xs)

  -- `send_reaction` chooses from the last eleven messages of a room, or from all if they are fewer:
  -- there is one to choose whenever there is a message.
  pub length-recent : (ms : List Event) → length (recent ms) ≡ min (length ms) 11
  unfolding recent
  length-recent ms = length-drop (slice_start ms) ms ∙ ground arith

get_elem?-below :
    {A : Type 0} (xs : List A) (n : ℕ) → n < length xs → (a : A) × (get_elem? xs n ≡ some a)
get_elem?-below [] n h = absurd (omega arith)
get_elem?-below (x ∷ xs) zero h = (x, refl)
get_elem?-below (x ∷ xs) (suc n) h = get_elem?-below xs n (omega arith)

task_from-below : (n : ℕ) → n < 8 → (t : TaskIndex) × (task_from n ≡ some t)
unfolding task_from
task_from-below n h = get_elem?-below task_indices n h

-- The scheduler panics only in a task or in the sleep after it: an index of its table of weights,
-- which has eight, is always that of a task.
pub schedule-panicked :
    {W : Type 0} (T : Tasks W)
    → ((w : W) → (T.next_rng w).0 < length index_weights)
    → (fuel : ℕ) (w : W) → schedule T fuel w ≡ some panicked
    → (t : TaskIndex) × (v : W) × (paused T (T.run_task t v) ≡ none)
unfolding schedule
schedule-panicked T h zero w p = cc
schedule-panicked {W} T h (suc fuel) w p =
    let (t, f) = task_from-below (T.next_rng w).0 (h w) in
    elim (Bool-cases (T.is_canceled w || T.is_over w)) [
      | inl e ↦ absurd (stopped e p)
      | inr e ↦
          go t (paused T (T.run_task t (T.next_rng w).1)) refl (λ v. schedule-panicked T h fuel v)
            (went t f e p)
    ]
  where
    stopped : T.is_canceled w || T.is_over w ≡ true → schedule T (suc fuel) w ≢ some panicked
    stopped e = rw (e, schedule) (λ q. cc)

    went :
        (t : TaskIndex)
        → task_from (T.next_rng w).0 ≡ some t
        → T.is_canceled w || T.is_over w ≡ false
        → schedule T (suc fuel) w ≡ some panicked
        → next_task T (schedule T fuel) (paused T (T.run_task t (T.next_rng w).1)) ≡ some panicked
    went t f e = rw (e, f, schedule) (λ q. q)

    go :
        (t : TaskIndex) (o : Option W)
        → paused T (T.run_task t (T.next_rng w).1) ≡ o
        → ((v : W)
            → schedule T fuel v ≡ some panicked
            → (t : TaskIndex) × (v : W) × (paused T (T.run_task t v) ≡ none))
        → next_task T (schedule T fuel) o ≡ some panicked
        → (t : TaskIndex) × (v : W) × (paused T (T.run_task t v) ≡ none)
    go t none e rec q = (t, (T.next_rng w).1, e)
    go t (some v) e rec q = rec v q

length-take : {A : Type 0} (n : ℕ) (xs : List A) → length (take n xs) ≡ min n (length xs)
length-take zero xs = omega arith
length-take (suc n) [] = omega arith
length-take (suc n) (x ∷ xs) = omega (arith, length-take n xs)

length-positive : {A : Type 0} (xs : List A) → xs ≢ [] → 1 ≤ length xs
length-positive [] h = absurd (h refl)
length-positive (x ∷ xs) h = omega arith

-- The words that `send_text` sends are at least one and at most those that there are.
pub length-message_words :
    (sample : ℕ) (words : List String)
    → words ≢ []
    → (1 ≤ length (message_words sample words))
      × (length (message_words sample words) ≤ length words)
unfolding message_words message_len
length-message_words sample words h =
    let some_word = length-positive words h in
    let taken = length-take (max (min sample (length words)) 1) words in (omega arith, omega arith)
