-- ===== src/Client/Session/Tokens.antt =====
-- What refreshing and sending do to the session of a client (src/matrix/mod.rs,
-- `refresh_access_token`, `send` and `send_inner`).
use matrix_goose.Prelude.{
  ◌≡◌, refl, String, Bool, true, false, Option, none, some, List, inl, inr, Option-cases,
}
use matrix_goose.Exec.{ok, err}
use matrix_goose.Error.{HttpResult, refresh_token, refresh_token_required}
use matrix_goose.Client.Session.{
  SessionTokens, Settings, Client, request_server_versions, server_versions, cached, refreshed,
  refresh_with, refresh_by, refresh_session, refresh_access_token, refresh_waiting,
}

abbrev is_some {ℓ} : {A : Type ℓ} → Option A → Bool
is_some none = false
is_some (some a) = true

module _ {W : Type 0} (S : Settings W) where
  -- What a refresh of `c` that answers `r` and leaves `c'` has done to the tokens.
  unfoldable pub Settled : Client W → HttpResult (Option S.RefreshResponse) → Client W → Type 0
  Settled c (ok none) c' = ⊥
  Settled c (ok (some r)) c' =
      ((t : SessionTokens) × ((c.tokens ≡ some t)
          × (c'.tokens ≡ some (S.update_with_refresh_response t r))))
      × (c'.last_refresh ≡ ok tt)
  Settled c (err e) c' = c'.tokens ≡ c.tokens

  request_server_versions-tokens :
      (c : Client W) → (request_server_versions S c).1.tokens ≡ c.tokens
  unfolding request_server_versions
  request_server_versions-tokens c = refl

  cached-tokens : (r : HttpResult (List String)) (c : Client W) → (cached S r c).tokens ≡ c.tokens
  cached-tokens (ok vs) c = refl
  cached-tokens (err e) c = refl

  server_versions-tokens : (c : Client W) → (server_versions S c).1.tokens ≡ c.tokens
  unfolding server_versions request_server_versions
  server_versions-tokens c = elim (Option-cases c.server_versions) [
    | inl e ↦ rw e (cached-tokens _ _)
    | inr (vs, e) ↦ rw e refl
  ]

  refreshed-Settled :
      (t : SessionTokens) (r : HttpResult S.refresh_exchange.Response) (c0 c : Client W)
      → c0.tokens ≡ some t
      → c.tokens ≡ c0.tokens
      → Settled c0 (refreshed S t r c).0 (refreshed S t r c).1
  unfolding refreshed Settled
  refreshed-Settled t (ok r) c0 c h k = ((t, (h, refl)), refl)
  refreshed-Settled t (err e) c0 c h k = k

  refresh_with-Settled :
      (t : SessionTokens) (s : String) (v : HttpResult (List String)) (c0 c : Client W)
      → c0.tokens ≡ some t
      → c.tokens ≡ c0.tokens
      → Settled c0 (refresh_with S t s v c).0 (refresh_with S t s v c).1
  unfolding refresh_with Settled
  refresh_with-Settled t s (err e) c0 c h k = k
  refresh_with-Settled t s (ok vs) c0 c h k = refreshed-Settled t _ c0 _ h k

  refresh_by-Settled :
      (t : SessionTokens) (s : Option String) (c : Client W)
      → c.tokens ≡ some t
      → Settled c (refresh_by S t s c).0 (refresh_by S t s c).1
  unfolding refresh_by Settled
  refresh_by-Settled t none c h = refl
  refresh_by-Settled t (some s) c h =
      refresh_with-Settled t s (server_versions S c).0 c (server_versions S c).1 h
        (server_versions-tokens c)

  refresh_session-Settled :
      (o : Option SessionTokens) (c : Client W)
      → c.tokens ≡ o
      → Settled c (refresh_session S o c).0 (refresh_session S o c).1
  unfolding refresh_session Settled
  refresh_session-Settled none c h = refl
  refresh_session-Settled (some t) c h = refresh_by-Settled t t.refresh_token c h

  -- A refresh where the lock is free never answers "another task did it": it stores the tokens of
  -- the answer and notes the success when it succeeds, and leaves the session's tokens as they are
  -- when it fails.
  pub refresh_access_token-Settled :
      (c : Client W) → Settled c (refresh_access_token S c).0 (refresh_access_token S c).1
  unfolding refresh_access_token
  refresh_access_token-Settled c = refresh_session-Settled c.tokens c refl

  -- A session with an access token and no refresh token, whose last refresh succeeded: refreshing
  -- fails with `RefreshTokenRequired`, and the tasks that waited for the lock meanwhile are told
  -- that it succeeded.
  pub refresh_waiting-stale :
      (c : Client W) (t : SessionTokens)
      → c.tokens ≡ some t
      → t.refresh_token ≡ none
      → c.last_refresh ≡ ok tt
      → ((refresh_access_token S c).0 ≡ err (refresh_token refresh_token_required))
        × (refresh_waiting S (refresh_access_token S c).1 ≡ ok none)
  unfolding refresh_access_token refresh_session refresh_by refresh_waiting
  refresh_waiting-stale c t h k l = rw (h, k, l) (refl, refl)
