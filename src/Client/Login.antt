-- ===== src/Client/Login.antt =====
-- Logging in: src/matrix/login_builder.rs, and `login_username` to `login_token`,
-- `receive_login_response`, `restore_session` and `register` of src/matrix/mod.rs. Parameters: what
-- `ruma` makes of the ways to log in, the log-in endpoint, the parser of URLs and the base client. The
-- builder for single sign-on is not compiled.
pub mod Settling
use matrix_goose.Prelude.{Bool, true, false, Option, none, some, String, List, if◌then◌else◌}
use mathlib.Core.Option
use matrix_goose.Exec.{Result, ok, err}
use matrix_goose.Error.{Error, http, HttpResult}
use matrix_goose.Config.Request.{RequestConfig, short_retry, with_force_auth}
use matrix_goose.HttpClient.Send
use matrix_goose.HttpClient.Send.{Endpoint, Credentials}
use matrix_goose.Client.Session.{Client, Settings, SessionTokens}
use matrix_goose.Client.Session

-- The values of `ruma` that the log-in passes on: identifiers of users, JSON objects, and
-- `login::v3::LoginInfo` with its constructors; `none` is an error of `serde_json`.
pub record LoginTypes : Type 1 where
  pub UserIdentifier : Type 0
  pub user_id_or_localpart : String → UserIdentifier
  pub JsonObject : Type 0
  pub LoginInfo : Type 0
  pub password_info : UserIdentifier → String → LoginInfo
  pub token_info : String → LoginInfo
  pub custom_info : String → JsonObject → Option LoginInfo

pub data LoginMethod (T : LoginTypes) : Type 0 where
  user_password : T.UserIdentifier → String → LoginMethod T
  token : String → LoginMethod T
  custom : T.LoginInfo → LoginMethod T

-- `LoginBuilder`; its client is the state.
pub record LoginBuilder (T : LoginTypes) : Type 0 where
  pub login_method : LoginMethod T
  pub device_id : Option String
  pub initial_device_display_name : Option String
  pub request_refresh_token : Bool

-- `login::v3::Request`
pub record LoginRequest (T : LoginTypes) : Type 0 where
  pub login_info : T.LoginInfo
  pub device_id : Option String
  pub initial_device_display_name : Option String
  pub refresh_token : Bool

module _ (T : LoginTypes) where
  -- `LoginMethod::into_login_info`
  unfoldable pub into_login_info : LoginMethod T → T.LoginInfo
  into_login_info (user_password id p) = T.password_info id p
  into_login_info (token t) = T.token_info t
  into_login_info (custom i) = i

  -- `LoginBuilder::new`
  unfoldable pub new : LoginMethod T → LoginBuilder T
  new method = record {
    login_method = method;
    device_id = none;
    initial_device_display_name = none;
    request_refresh_token = false;
  }

  unfoldable pub login_identifier : T.UserIdentifier → String → LoginBuilder T
  unfolding new
  login_identifier id password = new (user_password id password)

  unfoldable pub login_username : String → String → LoginBuilder T
  unfolding login_identifier
  login_username id password = login_identifier (T.user_id_or_localpart id) password

  unfoldable pub login_token : String → LoginBuilder T
  unfolding new
  login_token t = new (token t)

  unfoldable pub login_custom : String → T.JsonObject → Option (LoginBuilder T)
  unfolding new
  login_custom kind value = Option.map (λ i. new (custom i)) (T.custom_info kind value)

  unfoldable pub with_device_id : String → LoginBuilder T → LoginBuilder T
  with_device_id id b = record b { device_id = some id }

  unfoldable pub with_display_name : String → LoginBuilder T → LoginBuilder T
  with_display_name name b = record b { initial_device_display_name = some name }

  unfoldable pub with_refresh_token : LoginBuilder T → LoginBuilder T
  with_refresh_token b = record b { request_refresh_token = true }

  -- `assign!(login::v3::Request::new(...), { ... })`
  unfoldable pub login_request : LoginBuilder T → LoginRequest T
  unfolding into_login_info
  login_request b = record {
    login_info = into_login_info b.login_method;
    device_id = b.device_id;
    initial_device_display_name = b.initial_device_display_name;
    refresh_token = b.request_refresh_token;
  }

-- The endpoint, and the base client of `matrix-sdk-base`.
pub record LoginParameters (W : Type 0) (T : LoginTypes) : Type 1 where
  pub Response : Type 0
  -- The URL that `well_known` has for the homeserver.
  pub well_known : Response → Option String
  pub exchange :
      RequestConfig
      → Credentials
      → String
      → List String
      → LoginRequest T
      → W
      → HttpResult Response × W
  pub parse_url : String → Option String
  pub receive : Response → Client W → Result Error (Unit {0}) × Client W
  -- A user and a device.
  pub SessionMeta : Type 0
  pub set_session_meta : SessionMeta → Client W → Result Error (Unit {0}) × Client W

module _ {W : Type 0} (S : Settings W) (T : LoginTypes) (P : LoginParameters W T) where
  abbrev pub login_endpoint : Endpoint W
  login_endpoint = record {
    Request = LoginRequest T;
    Response = P.Response;
    auth_scheme = Send.no_auth;
    exchange = P.exchange;
  }

  abbrev pub set_homeserver : String → Client W → Client W
  set_homeserver u c = record c { homeserver = u }

  -- `if let Ok(homeserver) = Url::parse(...)`
  abbrev pub told_homeserver : Option String → Client W → Client W
  told_homeserver none c = c
  told_homeserver (some u) c = set_homeserver u c

  -- `if let Some(well_known) = &response.well_known`
  abbrev pub told_well_known : Option String → Client W → Client W
  told_well_known none c = c
  told_well_known (some u) c = told_homeserver (P.parse_url u) c

  unfoldable pub receive_login_response : P.Response → Client W → Result Error (Unit {0}) × Client W
  receive_login_response r c =
      P.receive r (if S.respect_login_well_known then told_well_known (P.well_known r) c else c)

  abbrev pub answered :
      P.Response → Result Error (Unit {0}) × Client W → Result Error P.Response × Client W
  answered r (ok u, c) = (ok r, c)
  answered r (err e, c) = (err e, c)

  abbrev pub received : HttpResult P.Response × Client W → Result Error P.Response × Client W
  received (err e, c) = (err (http e), c)
  received (ok r, c) = answered r (receive_login_response r c)

  -- `LoginBuilder::send`
  unfoldable pub send : LoginBuilder T → Client W → Result Error P.Response × Client W
  unfolding receive_login_response
  send b c = received (Session.send S login_endpoint (login_request T b) (some short_retry) c)

  abbrev pub with_tokens : SessionTokens → Client W → Client W
  with_tokens t c = record c { tokens = some t }

  -- `restore_session`, of a session by its two parts
  unfoldable pub restore_session :
      P.SessionMeta → SessionTokens → Client W → Result Error (Unit {0}) × Client W
  restore_session meta t c = P.set_session_meta meta (with_tokens t c)

module _ {W : Type 0} (S : Settings W) (E : Endpoint W) where
  -- `register`, for the endpoint `E` of registrations
  unfoldable pub register : Bool → E.Request → Client W → HttpResult E.Response × Client W
  register appservice_mode request c =
      Session.send S E request
        (if appservice_mode then some (with_force_auth short_retry) else none) c
