-- ===== src/LoadTest/Chat/Doing/Filled.antt =====
-- The lists of messages that a user of src/bin/chat.rs keeps: none of them is empty.
use matrix_goose.Prelude.{
  ◌≡◌, refl, Bool, true, false, Option, none, some, List, [], ◌∷◌, ◌++◌, is_empty, ◌==◌, text_eq,
  if◌then◌else◌, Bool-cases, inl, inr,
}
use matrix_goose.Map.{Map, lookup, insert}
use matrix_goose.Room.Common.{RoomId}
use matrix_goose.LoadTest.Chat.{on_room_message}
use matrix_goose.LoadTest.Chat.Messages.{receive}

abbrev pub Filled : {Event : Type 0} → Map RoomId (List Event) → Type 0
Filled [] = Unit
Filled ((r, events) ∷ m) = (is_empty events ≡ false) × Filled m

pub Filled-lookup :
    {Event : Type 0} (r : RoomId) (m : Map RoomId (List Event)) (events : List Event)
    → Filled m
    → lookup r m ≡ some events
    → is_empty events ≡ false
unfolding lookup
Filled-lookup r [] events h e = cc
Filled-lookup r ((s, es) ∷ m) events (f, h) e = go (s == r) (Filled-lookup r m events h) e
  where
    go :
        (b : Bool)
        → (lookup r m ≡ some events → is_empty events ≡ false)
        → (if b then some es else lookup r m) ≡ some events
        → is_empty events ≡ false
    go true later k = cc
    go false later k = later k

pub is_empty-push : {Event : Type 0} (es : List Event) (e : Event) → is_empty (es ++ e ∷ []) ≡ false
is_empty-push [] e = refl
is_empty-push (x ∷ es) e = refl

pub insert-Filled :
    {Event : Type 0} (r : RoomId) (es : List Event) (m : Map RoomId (List Event))
    → is_empty es ≡ false
    → Filled m
    → Filled (insert r es m)
unfolding insert
insert-Filled r es [] f h = (f, tt)
insert-Filled r es ((s, ss) ∷ m) f (g, h) = elim (Bool-cases (s == r)) [
  | inl e ↦ rw e (f, h)
  | inr e ↦ rw e (g, insert-Filled r es m f h)
]

pub on_room_message-Filled :
    (Event : Type 0) (e : Event) (r : RoomId) (m : Map RoomId (List Event))
    → Filled m
    → Filled (on_room_message e r m)
unfolding on_room_message
on_room_message-Filled Event e r m h = go (lookup r m)
  where
    go :
        (o : Option (List Event))
        → Filled (elim o as (λ x. Map RoomId (List Event)) [
          | some es ↦ insert r (es ++ e ∷ []) m
          | none ↦ insert r (e ∷ []) m
        ])
    go none = insert-Filled r (e ∷ []) m refl h
    go (some es) = insert-Filled r (es ++ e ∷ []) m (is_empty-push es e) h

-- The messages that a user received leave no room with an empty list.
pub receive-Filled :
    {Event : Type 0} (events : List (RoomId × Event)) (m : Map RoomId (List Event))
    → Filled m
    → Filled (receive events m)
unfolding receive
receive-Filled [] m h = h
receive-Filled ((r, e) ∷ events) m h =
    receive-Filled events (on_room_message e r m) (on_room_message-Filled _ e r m h)
