-- ===== src/Room/Common/Requests.antt =====
-- What the requests for the members and the encryption state of a room leave behind
-- (src/matrix/room/common.rs).
use matrix_goose.Prelude.{
  ◌≡◌, refl, sym, subst, ◌∙◌, ap, Bool, true, false, Option, none, some, inl, inr, Bool-cases,
  Option-cases, text_eq,
}
use matrix_goose.Map.{lookup, lookup-insert_same, lookup-erase_same}
use matrix_goose.Exec.{Result, ok, err}
use matrix_goose.Error.{Error}
use matrix_goose.Room.Common.{
  Base, BaseLaws, Common, request_encryption_state, encryption_received, encryption_saved,
  encryption_answer, is_encrypted, answered_some,
}

module _ {W I : Type 0} (B : Base W I) where
  -- `c` began a request for the encryption state; it answered `r` and left `c'`.
  unfoldable Ended : Common W I → Result Error (Option B.EncryptionContent) → Common W I → Type 0
  Ended c (err e) c' =
      (c'.info ≡ c.info) × (lookup c'.room_id c'.encryption_state_request_locks ≡ some tt)
  Ended c (ok o) c' =
      (c'.info ≡ B.set_encryption_event o (B.mark_encryption_state_synced c.info))
      × (lookup c'.room_id c'.encryption_state_request_locks ≡ none)

  encryption_saved-Ended :
      (c : Common W I) (o : Option B.EncryptionContent) (r : Result Error (Unit {0}) × W)
      → lookup c.room_id c.encryption_state_request_locks ≡ some tt
      → (let s =
            encryption_saved B c o
              (B.set_encryption_event o (B.mark_encryption_state_synced c.info))
              r in
          Ended c s.0 s.1)
  unfolding encryption_saved Ended
  encryption_saved-Ended c o (err e, w) h = (refl, h)
  encryption_saved-Ended c o (ok u, w) h =
      (refl, lookup-erase_same c.room_id c.encryption_state_request_locks)

  encryption_received-Ended :
      (c : Common W I) (r : Result Error (Option B.EncryptionContent))
      → lookup c.room_id c.encryption_state_request_locks ≡ some tt
      → Ended c (encryption_received B c r).0 (encryption_received B c r).1
  unfolding encryption_received Ended
  encryption_received-Ended c (err e) h = (refl, h)
  encryption_received-Ended c (ok o) h = encryption_saved-Ended c o _ h

  -- A request that finds no other in flight.
  request_encryption_state-Ended :
      (c : Common W I)
      → lookup c.room_id c.encryption_state_request_locks ≡ none
      → (let r = request_encryption_state B c in Ended c r.0 r.1)
  unfolding request_encryption_state Ended
  request_encryption_state-Ended c h =
      rw (h, request_encryption_state)
        (encryption_received-Ended _ (encryption_answer B (B.send_encryption c.room_id c.world).0)
          (lookup-insert_same c.room_id tt c.encryption_state_request_locks))

  request_encryption_state-waiting :
      (c : Common W I)
      → lookup c.room_id c.encryption_state_request_locks ≡ some tt
      → request_encryption_state B c ≡ (ok none, c)
  unfolding request_encryption_state
  request_encryption_state-waiting c h = rw (h, request_encryption_state) refl

  is_encrypted-synced :
      (c : Common W I)
      → B.is_encryption_state_synced c.info ≡ true
      → is_encrypted B c ≡ (ok (B.is_encrypted c.info), c)
  unfolding is_encrypted
  is_encrypted-synced c h = rw (h, is_encrypted) refl

  is_encrypted-asking :
      (c : Common W I)
      → B.is_encryption_state_synced c.info ≡ false
      → (let r = request_encryption_state B c in is_encrypted B c ≡ (answered_some r.0, r.1))
  unfolding is_encrypted
  is_encrypted-asking c h = rw (h, is_encrypted) refl

  -- A call that waited for another's question.
  is_encrypted-waiting :
      (c : Common W I)
      → B.is_encryption_state_synced c.info ≡ false
      → lookup c.room_id c.encryption_state_request_locks ≡ some tt
      → is_encrypted B c ≡ (ok false, c)
  is_encrypted-waiting c h l =
      is_encrypted-asking c h
      ∙ ap (λ r. (answered_some r.0, r.1)) (request_encryption_state-waiting c l)

  asked-failed :
      (c : Common W I) (r : Result Error (Option B.EncryptionContent)) (d c' : Common W I)
      (e : Error)
      → Ended c r d
      → ◌≡◌ {A = Result Error Bool × Common W I} (answered_some r, d) (err e, c')
      → Ended c (err e) c'
  unfolding Ended
  asked-failed c (err e1) d c' e g h = subst (λ x. Ended c (err e) x) (ap (λ p. p.1) h) g
  asked-failed c (ok none) d c' e g h = cc
  asked-failed c (ok (some x)) d c' e g h = cc

  asked-answered :
      BaseLaws B
      → (c : Common W I) (r : Result Error (Option B.EncryptionContent)) (d c' : Common W I)
        (b : Bool)
      → Ended c r d
      → ◌≡◌ {A = Result Error Bool × Common W I} (answered_some r, d) (ok b, c')
      → (B.is_encryption_state_synced c'.info ≡ true) × (B.is_encrypted c'.info ≡ b)
  unfolding Ended
  asked-answered L c (err e) d c' b g h = cc
  asked-answered L c (ok none) d c' b g h =
      (cc (L.synced_lem none c.info), cc (L.encrypted-none c.info))
  asked-answered L c (ok (some x)) d c' b g h =
      (cc (L.synced_lem (some x) c.info), cc (L.encrypted-some x c.info))

  -- Once a question for the encryption state has failed, whatever made it fail, each later call of
  -- `is_encrypted` answers that the room is not encrypted, and asks nobody.
  pub is_encrypted-after_failure :
      (c c' : Common W I) (e : Error)
      → is_encrypted B c ≡ (err e, c')
      → is_encrypted B c' ≡ (ok false, c')
  unfolding Ended
  is_encrypted-after_failure c c' e h = elim (Bool-cases (B.is_encryption_state_synced c.info)) [
    | inl s ↦ cc (is_encrypted-synced c s)
    | inr s ↦ elim (Option-cases (lookup c.room_id c.encryption_state_request_locks)) [
      | inl l ↦
          let g =
            asked-failed c _ _ c' e (request_encryption_state-Ended c l)
              (sym (is_encrypted-asking c s) ∙ h) in
          is_encrypted-waiting c' (ap B.is_encryption_state_synced g.0 ∙ s) g.1
      | inr (u, l) ↦ cc (is_encrypted-waiting c s l)
    ]
  ]

  -- Once `is_encrypted` has answered where no other question was in flight, it answers the same from
  -- then on, and asks nobody.
  pub is_encrypted-settled :
      BaseLaws B
      → (c c' : Common W I) (b : Bool) → lookup c.room_id c.encryption_state_request_locks ≡ none
      → is_encrypted B c ≡ (ok b, c')
      → is_encrypted B c' ≡ (ok b, c')
  is_encrypted-settled L c c' b f h = elim (Bool-cases (B.is_encryption_state_synced c.info)) [
    | inl s ↦ cc (is_encrypted-synced c s)
    | inr s ↦
        let (t, u) =
          asked-answered L c _ _ c' b (request_encryption_state-Ended c f)
            (sym (is_encrypted-asking c s) ∙ h) in
        is_encrypted-synced c' t ∙ ap (λ x. (ok x, c')) u
  ]
