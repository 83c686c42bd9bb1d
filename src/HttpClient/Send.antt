-- ===== src/HttpClient/Send.antt =====
-- `HttpClient` of src/matrix/http_client.rs: the count of requests, the credentials that a request
-- is given, and the sending. What `ruma` makes of a request and what the network answers is the
-- parameter `exchange` of an endpoint, over a world `W` that it may change.
use matrix_goose.Prelude.{
  ℕ, ◌+◌, ◌%◌, ◌^◌, Bool, true, false, Option, none, some, String, List, if◌then◌else◌,
}
use matrix_goose.Exec.{err}
use matrix_goose.Error.{not_client_request, HttpResult}
use matrix_goose.Config.Request.{RequestConfig}

-- `AuthScheme` of `ruma`: the two that clients use, and the rest.
pub data AuthScheme : Type 0 where
  access_token no_auth server_signatures query_only : AuthScheme

pub data SendAccessToken : Type 0 where
  always if_required : String → SendAccessToken
  no_token : SendAccessToken

-- With which of its two functions `ruma` builds the request.
pub data Credentials : Type 0 where
  with_user_id : SendAccessToken → String → Credentials
  plain : SendAccessToken → Credentials

abbrev send_access_token : Bool → Option String → SendAccessToken
send_access_token force_auth none = no_token
send_access_token force_auth (some t) = if force_auth then always t else if_required t

abbrev asserted : RequestConfig → String → Option String → Credentials
asserted cfg t none = plain (send_access_token cfg.force_auth (some t))
asserted cfg t (some user) = with_user_id (always t) user

-- The choice that `serialize_request` makes.
unfoldable pub credentials : RequestConfig → Option String → Option String → Credentials
credentials cfg none user = plain no_token
credentials cfg (some t) user =
    if cfg.assert_identity
    then asserted cfg t user
    else plain (send_access_token cfg.force_auth (some t))

pub record Endpoint (W : Type 0) : Type 1 where
  pub Request : Type 0
  pub Response : Type 0
  pub auth_scheme : AuthScheme
  -- The building of the request and `send_request`, with its retries.
  pub exchange :
      RequestConfig → Credentials → String → List String → Request → W → HttpResult Response × W

pub record HttpClient (W : Type 0) : Type 0 where
  pub request_config : RequestConfig
  pub next_request_id : ℕ
  pub world : W

-- `HttpClient::new`
unfoldable pub new_http_client : {W : Type 0} → RequestConfig → W → HttpClient W
new_http_client cfg w = record { request_config = cfg; next_request_id = 0; world = w }

-- `matches!(auth_scheme, AuthScheme::AccessToken | AuthScheme::None)`
abbrev pub for_clients : AuthScheme → Bool
for_clients access_token = true
for_clients no_auth = true
for_clients server_signatures = false
for_clients query_only = false

module _ {W : Type 0} (E : Endpoint W) where
  -- `HttpClient::send`
  unfoldable pub send :
      E.Request
      → Option RequestConfig
      → String
      → Option String
      → Option String
      → List String
      → HttpClient W
      → HttpResult E.Response × HttpClient W
  unfolding credentials
  send request config homeserver token user versions c =
      let numbered : HttpClient W = record c {
        next_request_id = (c.next_request_id + 1) % 2 ^ 64;
      } in
      let cfg : RequestConfig = elim config [ none ↦ c.request_config | some r ↦ r ] in
      let sent = E.exchange cfg (credentials cfg token user) homeserver versions request c.world in
      if for_clients E.auth_scheme
      then (sent.0, record numbered { world = sent.1 })
      else (err not_client_request, numbered)
