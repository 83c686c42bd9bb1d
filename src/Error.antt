-- ===== src/Error.antt =====
-- The errors of requests: src/matrix/error.rs. Of the error kinds of the protocol, those that the
-- client tests have a constructor of their own.
use matrix_goose.Prelude.{ℕ, Bool, String, Option, none, some}
use mathlib.Core.Option
use matrix_goose.Exec.{Result, ok, err}

pub data ErrorKind : Type 0 where
  limit_exceeded : Option ℕ → ErrorKind
  unknown_token : Bool → ErrorKind
  not_found : ErrorKind
  other_kind : String → ErrorKind

pub data ErrorBody : Type 0 where
  standard : ErrorKind → ErrorBody
  not_standard : ErrorBody

-- `ruma::api::client::Error`
pub record ClientApiError : Type 0 where
  pub status_code : ℕ
  pub body : ErrorBody

pub data RumaApiError : Type 0 where
  client_api : ClientApiError → RumaApiError
  -- An answer of the interactive authentication, by its session.
  uiaa : Option String → RumaApiError
  -- A Matrix error of another API, by its status.
  other : ℕ → RumaApiError

pub data FromHttpResponseError : Type 0 where
  deserialization : FromHttpResponseError
  server : RumaApiError → FromHttpResponseError

pub data RefreshTokenError : Type 0 where
  refused : ClientApiError → RefreshTokenError
  refresh_token_required unable_to_refresh_token : RefreshTokenError

pub data HttpError : Type 0 where
  reqwest authentication_required not_client_request into_http : HttpError
  unable_to_clone_request : HttpError
  api : FromHttpResponseError → HttpError
  refresh_token : RefreshTokenError → HttpError

-- `RumaApiError::as_client_api_error`
unfoldable pub as_client_api : RumaApiError → Option ClientApiError
as_client_api (client_api e) = some e
as_client_api (uiaa i) = none
as_client_api (other s) = none

-- `HttpError::as_ruma_api_error`
unfoldable pub as_ruma_api_error : HttpError → Option RumaApiError
as_ruma_api_error (api (server e)) = some e
as_ruma_api_error (api deserialization) = none
as_ruma_api_error reqwest = none
as_ruma_api_error authentication_required = none
as_ruma_api_error not_client_request = none
as_ruma_api_error into_http = none
as_ruma_api_error unable_to_clone_request = none
as_ruma_api_error (refresh_token e) = none

unfoldable pub as_client_api_error : HttpError → Option ClientApiError
unfolding Option.bind as_ruma_api_error as_client_api
as_client_api_error e = Option.bind (as_ruma_api_error e) as_client_api

abbrev pub standard_kind : ErrorBody → Option ErrorKind
standard_kind (standard k) = some k
standard_kind not_standard = none

unfoldable pub client_api_error_kind : HttpError → Option ErrorKind
unfolding Option.bind as_client_api_error
client_api_error_kind e = Option.bind (as_client_api_error e) (λ c. standard_kind c.body)

uiaa_info : RumaApiError → Option (Option String)
uiaa_info (client_api e) = none
uiaa_info (uiaa i) = some i
uiaa_info (other s) = none

unfoldable pub as_uiaa_response : HttpError → Option (Option String)
unfolding Option.bind as_ruma_api_error uiaa_info
as_uiaa_response e = Option.bind (as_ruma_api_error e) uiaa_info

-- The status of an answer of the API.
abbrev pub api_status : RumaApiError → Option ℕ
api_status (client_api e) = some e.status_code
api_status (uiaa i) = none
api_status (other s) = some s

abbrev pub HttpResult : Type 0 → Type 0
HttpResult = Result HttpError

-- `Error`: the errors of a method that does more than one request. Those that the code below does
-- not tell apart are `other_error`.
pub data Error : Type 0 where
  http : HttpError → Error
  serde_json state_store inconsistent_state insufficient_data : Error
  other_error : String → Error

-- `Error::AuthenticationRequired`, by its text
abbrev pub login_required : Error
login_required =
    other_error "the queried endpoint requires authentication but was called before logging in"

-- `Error::client_api_error_kind`
unfoldable pub error_kind : Error → Option ErrorKind
error_kind (http e) = client_api_error_kind e
error_kind serde_json = none
error_kind state_store = none
error_kind inconsistent_state = none
error_kind insufficient_data = none
error_kind (other_error s) = none

-- `?` on the answer of a request, in a method whose error is `Error`.
abbrev pub or_http : {W A : Type 0} → HttpResult A × W → Result Error A × W
or_http (ok a, w) = (ok a, w)
or_http (err e, w) = (err (http e), w)
