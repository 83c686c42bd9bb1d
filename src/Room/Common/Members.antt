-- ===== src/Room/Common/Members.antt =====
-- What the requests for the members of a room leave behind (src/matrix/room/common.rs).
use matrix_goose.Prelude.{
  ◌≡◌, refl, subst, Bool, true, false, Option, none, some, inl, inr, Option-cases, text_eq,
  if◌then◌else◌,
}
use matrix_goose.Map.{lookup, insert, lookup-insert_same, lookup-erase_same}
use matrix_goose.Exec.{Result, ok, err}
use matrix_goose.Error.{HttpResult, Error}
use matrix_goose.Room.Common.{
  Base, Common, members_received, members_sent, request_members, are_events_visible, ensure_members,
}

module _ {W I : Type 0} (B : Base W I) where
  -- A request for the members began in `c`; it answered `r` and left `c'`.
  unfoldable Ended : Common W I → Result Error (Option B.MembersResponse) → Common W I → Type 0
  Ended c (err e) c' = lookup c'.room_id c'.members_request_locks ≡ some tt
  Ended c (ok none) c' = ⊥
  Ended c (ok (some m)) c' = lookup c'.room_id c'.members_request_locks ≡ none

  members_received-Ended :
      (c : Common W I) (r : Result Error B.MembersResponse × W)
      → lookup c.room_id c.members_request_locks ≡ some tt
      → (let s = members_received B c r in Ended c s.0 s.1)
  unfolding members_received Ended
  members_received-Ended c (err e, w) h = h
  members_received-Ended c (ok m, w) h = lookup-erase_same c.room_id c.members_request_locks

  members_sent-Ended :
      (c : Common W I) (r : HttpResult B.MembersAnswer × W)
      → lookup c.room_id c.members_request_locks ≡ some tt
      → (let s = members_sent B c r in Ended c s.0 s.1)
  unfolding members_sent Ended
  members_sent-Ended c (err e, w) h = h
  members_sent-Ended c (ok a, w) h = members_received-Ended c (B.receive_members c.room_id a w) h

  request_members-Ended :
      (c : Common W I)
      → lookup c.room_id c.members_request_locks ≡ none
      → (let s = request_members B c in Ended c s.0 s.1)
  unfolding request_members Ended
  request_members-Ended c h =
      rw (h, request_members)
        (members_sent-Ended
          (record c { members_request_locks = insert c.room_id tt c.members_request_locks })
          (B.send_members c.room_id c.world)
          (lookup-insert_same c.room_id tt c.members_request_locks))

  request_members-waiting :
      (c : Common W I)
      → lookup c.room_id c.members_request_locks ≡ some tt
      → request_members B c ≡ (ok none, c)
  unfolding request_members
  request_members-waiting c h = rw (h, request_members) refl

  ensure_members-locked :
      (c : Common W I)
      → lookup c.room_id c.members_request_locks ≡ some tt
      → ensure_members B c ≡ (ok none, c)
  unfolding ensure_members
  ensure_members-locked c h = go (are_events_visible B c) (B.are_members_synced c.room_id c.world)
    where
      go :
          (a b : Bool)
          → (if a then if b then (ok none, c) else request_members B c else (ok none, c))
            ≡ (ok none, c)
      go true true = refl
      go true false = request_members-waiting c h
      go false b = refl

  -- A failed `ensure_members` has asked for the members.
  ensure_members-asked :
      (c c' : Common W I) (e : Error)
      → ensure_members B c ≡ (err e, c')
      → request_members B c ≡ (err e, c')
  unfolding ensure_members
  ensure_members-asked c c' e h =
      go (are_events_visible B c) (B.are_members_synced c.room_id c.world) h
    where
      go :
          (a b : Bool)
          → (if a then if b then (ok none, c) else request_members B c else (ok none, c))
            ≡ (err e, c')
          → request_members B c ≡ (err e, c')
      go true true k = cc
      go true false k = k
      go false b k = cc

  -- Once a request for the members of a room has failed, whatever made it fail, each later
  -- `sync_members` answers that there was nothing to do, and asks nobody.
  pub ensure_members-after_failure :
      (c c' : Common W I) (e : Error)
      → ensure_members B c ≡ (err e, c')
      → ensure_members B c' ≡ (ok none, c')
  unfolding Ended
  ensure_members-after_failure c c' e h =
      let asked = ensure_members-asked c c' e h in
      elim (Option-cases (lookup c.room_id c.members_request_locks)) [
        | inl l ↦
            ensure_members-locked c'
              (subst (λ s. Ended c s.0 s.1) asked (request_members-Ended c l))
        | inr (u, l) ↦ cc (request_members-waiting c l)
      ]
