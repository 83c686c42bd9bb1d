-- ===== src/Client/Session/Elsewhere.antt =====
-- Requests to another homeserver: `send_with_homeserver` of src/matrix/mod.rs, and `send_inner` with
-- the homeserver that it is given.
use matrix_goose.Prelude.{
  ◌≡◌, refl, Bool, true, false, Option, none, some, String, List, ◌++◌, if◌then◌else◌,
}
use matrix_goose.Exec.{ok, err}
use matrix_goose.Error.{HttpResult}
use matrix_goose.Config.Request.{RequestConfig}
use matrix_goose.HttpClient.Send
use matrix_goose.HttpClient.Send.{Endpoint, HttpClient}
use matrix_goose.Client.Session.{
  Client, Settings, access_token, with_http, broadcast, server_versions, send_with_versions,
  send_inner, wants_refresh, after_refusal, after_refresh, refresh_access_token, send,
}

module _ {W : Type 0} (S : Settings W) (E : Endpoint W) where
  abbrev pub home_of : Option String → Client W → String
  home_of none c = c.homeserver
  home_of (some hs) c = hs

  abbrev pub sent_at :
      E.Request
      → Option RequestConfig
      → Option String
      → HttpResult (List String)
      → Client W
      → HttpResult E.Response × Client W
  sent_at request config home (err e) c = (err e, c)
  sent_at request config home (ok vs) c =
      let (r, h) =
        Send.send E request config (home_of home c) (access_token S c) c.user_id vs c.http_client in
      (r, record (with_http S c h) { unknown_tokens = c.unknown_tokens ++ broadcast r })

  -- `send_inner`
  unfoldable pub send_inner_at :
      E.Request → Option RequestConfig → Option String → Client W → HttpResult E.Response × Client W
  send_inner_at request config home c =
      let (v, c') = server_versions S c in sent_at request config home v c'

  abbrev pub refreshed_at :
      E.Request
      → Option RequestConfig
      → Option String
      → HttpResult E.Response
      → HttpResult (Option S.RefreshResponse)
      → Client W
      → HttpResult E.Response × Client W
  refreshed_at request config home res (ok r) c = send_inner_at request config home c
  refreshed_at request config home res (err e) c = (after_refusal e res, c)

  unfoldable pub send_with_homeserver :
      E.Request → Option RequestConfig → Option String → Client W → HttpResult E.Response × Client W
  send_with_homeserver request config home c =
      let (res, c') = send_inner_at request config home c in
      let refresh = refresh_access_token S c' in
      if S.handle_refresh_tokens
      then if wants_refresh res
        then refreshed_at request config home res refresh.0 refresh.1
        else (res, c')
      else (res, c')

  sent_at-own :
      (request : E.Request) (config : Option RequestConfig) (v : HttpResult (List String))
      (c : Client W)
      → sent_at request config none v c ≡ send_with_versions S E request config v c
  unfolding send_with_versions
  sent_at-own request config (err e) c = refl
  sent_at-own request config (ok vs) c = refl

  send_inner_at-own :
      (request : E.Request) (config : Option RequestConfig) (c : Client W)
      → send_inner_at request config none c ≡ send_inner S E request config c
  unfolding send_inner_at send_inner
  send_inner_at-own request config c =
      sent_at-own request config (server_versions S c).0 (server_versions S c).1

  refreshed_at-own :
      (request : E.Request) (config : Option RequestConfig) (res : HttpResult E.Response)
      (r : HttpResult (Option S.RefreshResponse)) (c : Client W)
      → refreshed_at request config none res r c ≡ after_refresh S E request config res r c
  unfolding after_refresh
  refreshed_at-own request config res (ok r) c = send_inner_at-own request config c
  refreshed_at-own request config res (err e) c = refl

  -- The two copies of the method agree: with no other homeserver, `send_with_homeserver` is `send`.
  pub send_with_homeserver-send :
      (request : E.Request) (config : Option RequestConfig) (c : Client W)
      → send_with_homeserver request config none c ≡ send S E request config c
  unfolding send_with_homeserver send
  send_with_homeserver-send request config c = rw (send_inner_at-own request config c) (
      go S.handle_refresh_tokens (wants_refresh (send_inner S E request config c).0) (
        refreshed_at-own request config (send_inner S E request config c).0
          (refresh_access_token S (send_inner S E request config c).1).0
          (refresh_access_token S (send_inner S E request config c).1).1))
    where
      res : HttpResult E.Response × Client W
      res = send_inner S E request config c

      go :
          (b d : Bool) {x y : HttpResult E.Response × Client W}
          → x ≡ y
          → (if b then if d then x else res else res) ≡ (if b then if d then y else res else res)
      go true true e = e
      go true false e = refl
      go false d e = refl
