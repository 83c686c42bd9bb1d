-- ===== src/Account/Direct.antt =====
-- Marking a room as a direct chat and taking the mark back (src/matrix/room/common.rs,
-- `set_is_direct`; src/matrix/account.rs, `mark_as_dm`).
use matrix_goose.Prelude.{
  ◌≡◌, ◌≢◌, refl, sym, ◌∙◌, ap, Bool, true, false, not, Option, none, some, List, [], ◌∷◌, ◌++◌,
  ◌==◌, ◌||◌, text_eq, any, is_empty, to_list, if◌then◌else◌, Bool-cases, inl, inr, arith,
  filter-append, beq_refl, append-nil,
}
use matrix_goose.Map.{lookup, NodupKeys, lookup-insert, insert-NodupKeys}
use matrix_goose.Room.Common.{RoomId}
use matrix_goose.Account.{UserId, Direct, with_room, mark_member, mark_members, without, unmark}

-- Whether a user stands in a list.
abbrev pub has : UserId → List UserId → Bool
has user users = any (λ u. u == user) users

-- An entry without rooms does not stand in the content.
abbrev pub entry : List RoomId → Option (List RoomId)
entry [] = none
entry (r ∷ rooms) = some (r ∷ rooms)

abbrev pub unmarked : RoomId → Option (List RoomId) → Option (List RoomId)
unmarked room_id none = none
unmarked room_id (some rooms) = entry (without room_id rooms)

lookup-unmark :
    (user : UserId) (room_id : RoomId) (content : Direct)
    → NodupKeys content
    → lookup user (unmark room_id content) ≡ unmarked room_id (lookup user content)
unfolding unmark lookup
lookup-unmark user room_id [] h = refl
lookup-unmark user room_id ((u, rooms) ∷ content) h = elim (Bool-cases (u == user)) [
  | inl e ↦
      let gone = ap (λ k. lookup k content) (sym ((text_eq.beq_iff u user).0 e)) ∙ h.0 in
      rw e (
        here e (lookup-unmark user room_id content h.1 ∙ ap (unmarked room_id) gone)
          (without room_id rooms))
  | inr e ↦ rw e (there e (lookup-unmark user room_id content h.1) (without room_id rooms))
]
  where
    rest : Direct
    rest = unmark room_id content

    here :
        (u == user) ≡ true
        → lookup user rest ≡ none
        → (ws : List RoomId) → lookup user (if is_empty ws then rest else (u, ws) ∷ rest) ≡ entry ws
    here e none_left [] = none_left
    here e none_left (w ∷ ws) = rw e refl

    there :
        (u == user) ≡ false
        → lookup user rest ≡ unmarked room_id (lookup user content)
        → (ws : List RoomId)
        → lookup user (if is_empty ws then rest else (u, ws) ∷ rest)
          ≡ unmarked room_id (lookup user content)
    there e same [] = same
    there e same (w ∷ ws) = rw e same

lookup-mark_member :
    (user : UserId) (room_id : RoomId) (u : UserId) (content : Direct)
    → lookup user (mark_member room_id u content) ≡ (
        if u == user
        then some (with_room room_id (to_list (lookup user content)))
        else lookup user content)
unfolding mark_member
lookup-mark_member user room_id u content =
    lookup-insert user u (with_room room_id (to_list (lookup u content))) content
    ∙ elim (Bool-cases (u == user)) [
      | inl e ↦
          let same = ap (λ k. lookup k content) ((text_eq.beq_iff u user).0 e) in rw (e, same) refl
      | inr e ↦ rw e refl
    ]

any-append :
    (room_id : RoomId) (xs ys : List RoomId)
    → any (λ r. r == room_id) (xs ++ ys)
      ≡ (any (λ r. r == room_id) xs || any (λ r. r == room_id) ys)
any-append room_id [] ys = refl
any-append room_id (x ∷ xs) ys = ground (arith, any-append room_id xs ys)

with_room-any :
    (room_id : RoomId) (rooms : List RoomId)
    → any (λ r. r == room_id) (with_room room_id rooms) ≡ true
with_room-any room_id rooms = elim (Bool-cases (any (λ r. r == room_id) rooms)) [
  | inl e ↦ rw e e
  | inr e ↦ rw e (any-append room_id rooms (room_id ∷ []) ∙ ground (arith, beq_refl room_id))
]

with_room-with_room :
    (room_id : RoomId) (rooms : List RoomId)
    → with_room room_id (with_room room_id rooms) ≡ with_room room_id rooms
with_room-with_room room_id rooms =
    ap (λ b. if b then with_room room_id rooms else with_room room_id rooms ++ room_id ∷ [])
      (with_room-any room_id rooms)

without-fresh :
    (room_id : RoomId) (rooms : List RoomId)
    → any (λ r. r == room_id) rooms ≡ false
    → without room_id rooms ≡ rooms
without-fresh room_id [] h = refl
without-fresh room_id (r ∷ rooms) h = ground (arith, without-fresh room_id rooms)

without-with_room :
    (room_id : RoomId) (rooms : List RoomId)
    → any (λ r. r == room_id) rooms ≡ false
    → without room_id (with_room room_id rooms) ≡ rooms
without-with_room room_id rooms h = rw h (
    filter-append (λ r. not (r == room_id)) rooms (room_id ∷ [])
    ∙ rw (beq_refl room_id) (append-nil (without room_id rooms) ∙ without-fresh room_id rooms h))

marked-step :
    (room_id : RoomId) (a b : Bool) (o : Option (List RoomId))
    → (let p = if a then some (with_room room_id (to_list o)) else o in
        (if b then some (with_room room_id (to_list p)) else p)
        ≡ (if a || b then some (with_room room_id (to_list o)) else o))
marked-step room_id true true o = ap some (with_room-with_room room_id (to_list o))
marked-step room_id true false o = refl
marked-step room_id false true o = refl
marked-step room_id false false o = refl

-- `set_is_direct(true)` puts the room at the end of the list of each member given, unless it stands
-- in that list already, however often the member is given; the lists of the others are as they
-- were.
pub lookup-mark_members :
    (user : UserId) (room_id : RoomId) (users : List UserId) (content : Direct)
    → lookup user (mark_members room_id users content) ≡ (
        if has user users
        then some (with_room room_id (to_list (lookup user content)))
        else lookup user content)
unfolding mark_members
lookup-mark_members user room_id [] content = refl
lookup-mark_members user room_id (u ∷ users) content =
    lookup-mark_members user room_id users (mark_member room_id u content)
    ∙ ap (λ p. if has user users then some (with_room room_id (to_list p)) else p)
        (lookup-mark_member user room_id u content)
    ∙ marked-step room_id (u == user) (has user users) (lookup user content)

mark_members-NodupKeys :
    (room_id : RoomId) (users : List UserId) (content : Direct)
    → NodupKeys content
    → NodupKeys (mark_members room_id users content)
unfolding mark_members mark_member
mark_members-NodupKeys room_id [] content h = h
mark_members-NodupKeys room_id (u ∷ users) content h =
    mark_members-NodupKeys room_id users (mark_member room_id u content)
      (insert-NodupKeys u (with_room room_id (to_list (lookup u content))) content h)

unmarked-marked :
    (room_id : RoomId) (b : Bool) (o : Option (List RoomId))
    → any (λ r. r == room_id) (to_list o) ≡ false
    → o ≢ some []
    → unmarked room_id (if b then some (with_room room_id (to_list o)) else o) ≡ o
unmarked-marked room_id true none h n = ap entry (without-with_room room_id [] h)
unmarked-marked room_id true (some []) h n = absurd (n refl)
unmarked-marked room_id true (some (r ∷ rooms)) h n =
    ap entry (without-with_room room_id (r ∷ rooms) h)
unmarked-marked room_id false none h n = refl
unmarked-marked room_id false (some []) h n = absurd (n refl)
unmarked-marked room_id false (some (r ∷ rooms)) h n =
    ap entry (without-fresh room_id (r ∷ rooms) h)

-- Marking a room as direct for any members and taking the mark back leaves each user's list as it
-- was, where the room did not stand in it and it was not an empty list.
pub unmark-mark_members :
    (user : UserId) (room_id : RoomId) (users : List UserId) (content : Direct)
    → NodupKeys content
    → any (λ r. r == room_id) (to_list (lookup user content)) ≡ false
    → lookup user content ≢ some []
    → lookup user (unmark room_id (mark_members room_id users content)) ≡ lookup user content
unmark-mark_members user room_id users content u h n =
    lookup-unmark user room_id (mark_members room_id users content)
      (mark_members-NodupKeys room_id users content u)
    ∙ ap (unmarked room_id) (lookup-mark_members user room_id users content)
    ∙ unmarked-marked room_id (has user users) (lookup user content) h n
