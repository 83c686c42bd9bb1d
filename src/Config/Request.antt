-- ===== src/Config/Request.antt =====
-- src/matrix/config/request.rs
use matrix_goose.Prelude.{ℕ, Bool, true, false, Option, none, some}
use matrix_goose.Config.{Duration, from_secs}

-- `DEFAULT_REQUEST_TIMEOUT` of src/matrix/http_client.rs
abbrev pub default_request_timeout : Duration
default_request_timeout = from_secs 60

pub record RequestConfig : Type 0 where
  pub timeout : Duration
  pub retry_limit : Option ℕ
  pub retry_timeout : Option Duration
  pub force_auth : Bool
  pub assert_identity : Bool

abbrev pub new_request_config : RequestConfig
new_request_config = record {
  timeout = default_request_timeout;
  retry_limit = none;
  retry_timeout = none;
  force_auth = false;
  assert_identity = false;
}

unfoldable pub with_retry_limit : ℕ → RequestConfig → RequestConfig
with_retry_limit n c = record c { retry_limit = some n }

unfoldable pub short_retry : RequestConfig
unfolding with_retry_limit
short_retry = with_retry_limit 3 new_request_config

unfoldable pub disable_retry : RequestConfig → RequestConfig
disable_retry c = record c { retry_limit = some 0 }

unfoldable pub with_timeout : Duration → RequestConfig → RequestConfig
with_timeout t c = record c { timeout = t }

unfoldable pub with_retry_timeout : Duration → RequestConfig → RequestConfig
with_retry_timeout t c = record c { retry_timeout = some t }

unfoldable pub with_force_auth : RequestConfig → RequestConfig
with_force_auth c = record c { force_auth = true }
