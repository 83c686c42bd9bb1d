-- ===== src/Client/Session/Sending.antt =====
-- What requests never change in a client, shown for each step of a request (src/matrix/mod.rs,
-- `send`, `send_inner`, `server_versions` and `refresh_access_token`).
use matrix_goose.Prelude.{
  ◌+◌, ◌≡◌, refl, sym, ◌∙◌, ap, String, Bool, true, false, Option, none, some, List, [], append-nil,
  if◌then◌else◌, arith,
}
use matrix_goose.Exec.{ok, err}
use matrix_goose.Error.{HttpResult}
use matrix_goose.Config.Request.{RequestConfig}
use matrix_goose.HttpClient.Send.{Endpoint}
use matrix_goose.Client.Session.{
  SessionTokens, Settings, Client, with_http, request_server_versions, cached, server_versions,
  send_with_versions, send_inner, refreshed, refresh_with, refresh_by, refresh_session,
  refresh_access_token, wants_refresh, after_refresh, send,
}
use matrix_goose.Client.Session.Continuity.{
  is_some, Kept-refl, Continues, Continues-refl, Continues-noted, Continues-trans, Continues-le,
  broadcast-le,
}

module _ {W : Type 0} (S : Settings W) where
  cached-Continues :
      (r : HttpResult (List String)) (c : Client W)
      → c.server_versions ≡ none
      → Continues 0 c (cached S r c)
  cached-Continues (ok vs) c h = record {
    homeserver = refl;
    user_id = refl;
    logged_in = refl;
    versions = rw h tt;
    told = ([], (sym (append-nil c.unknown_tokens), omega arith));
  }
  cached-Continues (err e) c h = Continues-refl 0 c

  request_server_versions-Continues : (c : Client W) → Continues 0 c (request_server_versions S c).1
  unfolding request_server_versions
  request_server_versions-Continues c = Continues-noted c _ c.last_refresh

  server_versions-Continues : (c : Client W) → Continues 0 c (server_versions S c).1
  unfolding server_versions request_server_versions
  server_versions-Continues c = go c.server_versions refl
    where
      go :
          (o : Option (List String))
          → c.server_versions ≡ o
          → Continues 0 c
              (elim o as (λ x. HttpResult (List String) × Client W) [
                | some vs ↦ (ok vs, c)
                | none ↦ let (r, c') = request_server_versions S c in (r, cached S r c')
              ]).1
      go (some vs) e = Continues-refl 0 c
      go none e =
          Continues-trans 0 0 c (request_server_versions S c).1 _
            (request_server_versions-Continues c)
            (cached-Continues (request_server_versions S c).0 (request_server_versions S c).1 e)

  send_with_versions-Continues :
      (E : Endpoint W) (request : E.Request) (config : Option RequestConfig)
      (v : HttpResult (List String)) (c : Client W)
      → Continues 1 c (send_with_versions S E request config v c).1
  unfolding send_with_versions
  send_with_versions-Continues E request config (err e) c = Continues-refl 1 c
  send_with_versions-Continues E request config (ok vs) c = record {
    homeserver = refl;
    user_id = refl;
    logged_in = refl;
    versions = Kept-refl c.server_versions;
    told = (_, (refl, broadcast-le _));
  }

  send_inner-Continues :
      (E : Endpoint W) (request : E.Request) (config : Option RequestConfig) (c : Client W)
      → Continues 1 c (send_inner S E request config c).1
  unfolding send_inner
  send_inner-Continues E request config c =
      let (v, c') = server_versions S c in
      Continues-le (0 + 1) 1 c _ (omega arith) (
        Continues-trans 0 1 c c' _ (server_versions-Continues c)
          (send_with_versions-Continues E request config v c'))

  refreshed-Continues :
      (t : SessionTokens) (r : HttpResult S.refresh_exchange.Response) (c : Client W)
      → is_some c.tokens ≡ true
      → Continues 0 c (refreshed S t r c).1
  unfolding refreshed
  refreshed-Continues t (ok r) c h = record {
    homeserver = refl;
    user_id = refl;
    logged_in = sym h;
    versions = Kept-refl c.server_versions;
    told = ([], (sym (append-nil c.unknown_tokens), omega arith));
  }
  refreshed-Continues t (err e) c h = Continues-noted c c.http_client _

  refresh_with-Continues :
      (t : SessionTokens) (s : String) (v : HttpResult (List String)) (c : Client W)
      → is_some c.tokens ≡ true
      → Continues 0 c (refresh_with S t s v c).1
  unfolding refresh_with
  refresh_with-Continues t s (err e) c h = Continues-refl 0 c
  refresh_with-Continues t s (ok vs) c h =
      Continues-trans 0 0 c _ _ (Continues-noted c _ c.last_refresh)
        (refreshed-Continues t _ (with_http S c _) h)

  refresh_by-Continues :
      (t : SessionTokens) (o : Option String) (c : Client W)
      → is_some c.tokens ≡ true
      → Continues 0 c (refresh_by S t o c).1
  unfolding refresh_by
  refresh_by-Continues t none c h = Continues-refl 0 c
  refresh_by-Continues t (some s) c h =
      let (v, c') = server_versions S c in
      let p = server_versions-Continues c in
      Continues-trans 0 0 c c' _ p (refresh_with-Continues t s v c' (p.logged_in ∙ h))

  refresh_session-Continues :
      (o : Option SessionTokens) (c : Client W)
      → c.tokens ≡ o
      → Continues 0 c (refresh_session S o c).1
  unfolding refresh_session
  refresh_session-Continues none c h = Continues-noted c c.http_client _
  refresh_session-Continues (some t) c h = refresh_by-Continues t t.refresh_token c (ap is_some h)

  refresh_access_token-Continues : (c : Client W) → Continues 0 c (refresh_access_token S c).1
  unfolding refresh_access_token
  refresh_access_token-Continues c = refresh_session-Continues c.tokens c refl

  after_refresh-Continues :
      (E : Endpoint W) (request : E.Request) (config : Option RequestConfig)
      (res : HttpResult E.Response) (r : HttpResult (Option S.RefreshResponse)) (c : Client W)
      → Continues 1 c (after_refresh S E request config res r c).1
  unfolding after_refresh
  after_refresh-Continues E request config res (ok x) c = send_inner-Continues E request config c
  after_refresh-Continues E request config res (err e) c = Continues-refl 1 c

  -- Whatever happens to a request, and even if it makes the client refresh its access token, the
  -- client keeps its homeserver and its user, stays logged in or logged out, forgets no
  -- versions of the server that it knew, and tells its subscribers of at most two unknown tokens.
  pub send-Continues :
      (E : Endpoint W) (request : E.Request) (config : Option RequestConfig) (c : Client W)
      → Continues 2 c (send S E request config c).1
  unfolding send
  send-Continues E request config c =
      let (res, c') = send_inner S E request config c in
      let once = send_inner-Continues E request config c in
      let stop = Continues-le 1 2 c c' (omega arith) once in
      go stop
        (Continues-le (1 + (0 + 1)) 2 c _ (omega arith) (
          Continues-trans 1 (0 + 1) c c' _ once (
            Continues-trans 0 1 c' _ _ (refresh_access_token-Continues c') (
              after_refresh-Continues E request config res (refresh_access_token S c').0
                (refresh_access_token S c').1))))
        S.handle_refresh_tokens (wants_refresh res)
    where
      go :
          (let (res, c') = send_inner S E request config c in
            let refresh = refresh_access_token S c' in
            let more = after_refresh S E request config res refresh.0 refresh.1 in
            Continues 2 c c'
            → Continues 2 c more.1
            → (a b : Bool)
            → Continues 2 c (if a then if b then more else (res, c') else (res, c')).1)
      go p q true true = q
      go p q true false = p
      go p q false b = p
