-- ===== src/Client/Session.antt =====
-- Requests of a logged-in client: `send`, `send_inner`, `refresh_access_token`, `server_versions`
-- and `request_server_versions` of src/matrix/mod.rs. Parameters: the endpoints, and what `ruma`
-- makes of the tokens when they are refreshed. `refresh_token_lock` is free in the operations here:
-- a refresh that finds it taken is `refresh_waiting`.
pub mod Tokens
pub mod Continuity
pub mod Sending
pub mod Elsewhere
use matrix_goose.Prelude.{
  ℕ, Bool, true, false, Option, none, some, String, List, [], ◌∷◌, ◌++◌, if◌then◌else◌, is_empty,
}
use mathlib.Core.Option
use matrix_goose.Exec.{Result, ok, err}
use matrix_goose.Error.{
  HttpError, HttpResult, ErrorKind, RefreshTokenError, limit_exceeded, unknown_token, not_found,
  other_kind, refresh_token, refused, refresh_token_required, unable_to_refresh_token,
  client_api_error_kind, as_ruma_api_error, RumaApiError, client_api, uiaa, other, reqwest,
  authentication_required, not_client_request, into_http, unable_to_clone_request, api,
}
use matrix_goose.Config.Request.{RequestConfig}
use matrix_goose.HttpClient.Send
use matrix_goose.HttpClient.Send.{Endpoint, HttpClient}

pub record SessionTokens : Type 0 where
  pub access_token : String
  pub refresh_token : Option String

-- What the client is built from and does not change.
pub record Settings (W : Type 0) : Type 1 where
  pub handle_refresh_tokens : Bool
  pub respect_login_well_known : Bool
  pub RefreshResponse : Type 0
  pub refresh_exchange : Endpoint W
  -- The endpoint takes the refresh token and answers with a `RefreshResponse`.
  pub refresh_request : String → refresh_exchange.Request
  pub refresh_response : refresh_exchange.Response → RefreshResponse
  -- `SessionTokens::update_with_refresh_response`
  pub update_with_refresh_response : SessionTokens → RefreshResponse → SessionTokens
  pub versions_exchange : Endpoint W
  pub versions_request : versions_exchange.Request
  -- `known_versions`
  pub known_versions : versions_exchange.Response → List String

pub record Client (W : Type 0) : Type 0 where
  pub homeserver : String
  pub http_client : HttpClient W
  pub server_versions : Option (List String)
  pub user_id : Option String
  pub tokens : Option SessionTokens
  -- What `refresh_token_lock` holds.
  pub last_refresh : Result RefreshTokenError (Unit {0})
  -- The values of `soft_logout` sent to `unknown_token_error_sender`.
  pub unknown_tokens : List Bool

abbrev pub v1_0 : String
v1_0 = "v1.0"

abbrev pub versions_or_default : List String → List String
versions_or_default vs = if is_empty vs then v1_0 ∷ [] else vs

-- `if let Some(ErrorKind::UnknownToken { soft_logout })`
abbrev pub soft_logout : Option ErrorKind → List Bool
soft_logout none = []
soft_logout (some (unknown_token soft)) = soft ∷ []
soft_logout (some (limit_exceeded t)) = []
soft_logout (some not_found) = []
soft_logout (some (other_kind k)) = []

abbrev pub broadcast : {A : Type 0} → HttpResult A → List Bool
broadcast (ok a) = []
broadcast (err e) = soft_logout (client_api_error_kind e)

-- What a failed request leaves in `refresh_token_lock`.
abbrev pub guard_of : Option RumaApiError → RefreshTokenError
guard_of none = unable_to_refresh_token
guard_of (some (client_api e)) = refused e
guard_of (some (uiaa i)) = unable_to_refresh_token
guard_of (some (other s)) = unable_to_refresh_token

abbrev pub is_unknown_token : Option ErrorKind → Bool
is_unknown_token none = false
is_unknown_token (some (unknown_token soft)) = true
is_unknown_token (some (limit_exceeded t)) = false
is_unknown_token (some not_found) = false
is_unknown_token (some (other_kind k)) = false

abbrev pub wants_refresh : {A : Type 0} → HttpResult A → Bool
wants_refresh (ok a) = false
wants_refresh (err e) = is_unknown_token (client_api_error_kind e)

-- The arms of `match &refresh_error`.
abbrev pub after_refusal : {A : Type 0} → HttpError → HttpResult A → HttpResult A
after_refusal (refresh_token refresh_token_required) res = res
after_refusal (refresh_token unable_to_refresh_token) res =
    err (refresh_token unable_to_refresh_token)
after_refusal (refresh_token (refused e)) res = err (refresh_token (refused e))
after_refusal reqwest res = err reqwest
after_refusal authentication_required res = err authentication_required
after_refusal not_client_request res = err not_client_request
after_refusal into_http res = err into_http
after_refusal unable_to_clone_request res = err unable_to_clone_request
after_refusal (api e) res = err (api e)

module _ {W : Type 0} (S : Settings W) where
  abbrev pub access_token : Client W → Option String
  access_token c = Option.map (λ t. t.access_token) c.tokens

  abbrev pub with_http : Client W → HttpClient W → Client W
  with_http c h = record c { http_client = h }

  -- `request_server_versions`
  unfoldable pub request_server_versions : Client W → HttpResult (List String) × Client W
  request_server_versions c =
      let (r, h) =
        Send.send S.versions_exchange S.versions_request none c.homeserver none none (v1_0 ∷ [])
          c.http_client in
      (
        elim r [ ok v ↦ ok (versions_or_default (S.known_versions v)) | err e ↦ err e ],
        with_http c h,
      )

  abbrev pub cached : HttpResult (List String) → Client W → Client W
  cached (ok vs) c = record c { server_versions = some vs }
  cached (err e) c = c

  -- `server_versions`: `get_or_try_init` keeps a value and does not keep an error.
  unfoldable pub server_versions : Client W → HttpResult (List String) × Client W
  server_versions c = elim c.server_versions [
    | some vs ↦ (ok vs, c)
    | none ↦ let (r, c') = request_server_versions c in (r, cached r c')
  ]

  -- The part of `send_inner` after the versions are known.
  unfoldable pub send_with_versions :
      (E : Endpoint W)
      → E.Request
      → Option RequestConfig
      → HttpResult (List String)
      → Client W
      → HttpResult E.Response × Client W
  send_with_versions E request config (err e) c = (err e, c)
  send_with_versions E request config (ok vs) c =
      let (r, h) =
        Send.send E request config c.homeserver (access_token c) c.user_id vs c.http_client in
      (r, record (with_http c h) { unknown_tokens = c.unknown_tokens ++ broadcast r })

  -- `send_inner` with no other homeserver
  unfoldable pub send_inner :
      (E : Endpoint W)
      → E.Request
      → Option RequestConfig
      → Client W
      → HttpResult E.Response × Client W
  unfolding send_with_versions
  send_inner E request config c =
      let (v, c') = server_versions c in send_with_versions E request config v c'

  unfoldable pub refreshed :
      SessionTokens
      → HttpResult S.refresh_exchange.Response
      → Client W
      → HttpResult (Option S.RefreshResponse) × Client W
  refreshed tokens (ok res) c =
      let r = S.refresh_response res in
      (
        ok (some r),
        record c { last_refresh = ok tt; tokens = some (S.update_with_refresh_response tokens r) },
      )
  refreshed tokens (err e) c =
      (err e, record c { last_refresh = err (guard_of (as_ruma_api_error e)) })

  -- From the versions on: `self.server_versions().await?` stands inside the call.
  unfoldable pub refresh_with :
      SessionTokens
      → String
      → HttpResult (List String)
      → Client W
      → HttpResult (Option S.RefreshResponse) × Client W
  refresh_with tokens token (err e) c = (err e, c)
  refresh_with tokens token (ok vs) c =
      let (r, h) =
        Send.send S.refresh_exchange (S.refresh_request token) none c.homeserver (access_token c)
          c.user_id vs c.http_client in
      refreshed tokens r (with_http c h)

  unfoldable pub refresh_by :
      SessionTokens → Option String → Client W → HttpResult (Option S.RefreshResponse) × Client W
  refresh_by tokens none c = (err (refresh_token refresh_token_required), c)
  refresh_by tokens (some token) c =
      let (v, c') = server_versions c in refresh_with tokens token v c'

  unfoldable pub refresh_session :
      Option SessionTokens → Client W → HttpResult (Option S.RefreshResponse) × Client W
  refresh_session none c = (
    err (refresh_token refresh_token_required),
    record c { last_refresh = err refresh_token_required },
  )
  refresh_session (some tokens) c = refresh_by tokens tokens.refresh_token c

  -- `refresh_access_token` where the lock is free
  unfoldable pub refresh_access_token : Client W → HttpResult (Option S.RefreshResponse) × Client W
  unfolding refresh_session refresh_by refresh_with refreshed
  refresh_access_token c = refresh_session c.tokens c

  -- `refresh_access_token` where another task holds the lock: what it answers once the lock is free
  unfoldable pub refresh_waiting : Client W → HttpResult (Option S.RefreshResponse)
  refresh_waiting c = elim c.last_refresh [
    | ok _ ↦ ok none
    | err e ↦ err (refresh_token unable_to_refresh_token)
  ]

  unfoldable pub after_refresh :
      (E : Endpoint W)
      → E.Request
      → Option RequestConfig
      → HttpResult E.Response
      → HttpResult (Option S.RefreshResponse)
      → Client W
      → HttpResult E.Response × Client W
  after_refresh E request config res (ok _) c = send_inner E request config c
  after_refresh E request config res (err e) c = (after_refusal e res, c)

  -- `send`
  unfoldable pub send :
      (E : Endpoint W)
      → E.Request
      → Option RequestConfig
      → Client W
      → HttpResult E.Response × Client W
  unfolding after_refresh
  send E request config c =
      let (res, c') = send_inner E request config c in
      let refresh = refresh_access_token c' in
      if S.handle_refresh_tokens
      then if wants_refresh res
        then after_refresh E request config res refresh.0 refresh.1
        else (res, c')
      else (res, c')
