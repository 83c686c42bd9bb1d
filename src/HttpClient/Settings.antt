-- ===== src/HttpClient/Settings.antt =====
-- `HttpSettings` of src/matrix/http_client.rs and the HTTP client that they make. `reqwest` is a
-- parameter: its builder, its proxies, and the client that it builds.
use matrix_goose.Prelude.{Bool, true, false, Option, none, some, String, if◌then◌else◌}
use matrix_goose.Exec.{err, ok_or}
use matrix_goose.Error.{HttpResult, reqwest}
use matrix_goose.Config.{Duration}
use matrix_goose.Config.Request.{default_request_timeout}

pub record HttpSettings : Type 0 where
  pub disable_ssl_verification : Bool
  pub proxy : Option String
  pub user_agent : Option String
  pub timeout : Duration

-- `HttpSettings::default`
unfoldable pub default_settings : HttpSettings
default_settings = record {
  disable_ssl_verification = false;
  proxy = none;
  user_agent = none;
  timeout = default_request_timeout;
}

-- `reqwest::ClientBuilder` and `reqwest::Proxy`; `none` is a `reqwest::Error`.
pub record Reqwest : Type 1 where
  pub Builder : Type 0
  pub Proxy : Type 0
  pub HttpSend : Type 0
  pub builder : Builder
  pub danger_accept_invalid_certs : Bool → Builder → Builder
  pub proxy_all : String → Option Proxy
  pub proxy : Proxy → Builder → Builder
  pub user_agent : String → Builder → Builder
  pub timeout : Duration → Builder → Builder
  pub build : Builder → Option HttpSend

abbrev user_agent_or : Option String → String
user_agent_or none = "matrix-rust-sdk"
user_agent_or (some a) = a

module _ (R : Reqwest) where
  abbrev with_verification : Bool → R.Builder → R.Builder
  with_verification disable b = if disable then R.danger_accept_invalid_certs true b else b

  abbrev with_proxy : Option String → R.Builder → Option R.Builder
  with_proxy none b = some b
  with_proxy (some p) b = elim (R.proxy_all p) [ none ↦ none | some x ↦ some (R.proxy x b) ]

  -- `HttpSettings::make_client`
  unfoldable pub make_client : HttpSettings → HttpResult R.HttpSend
  make_client s =
      elim (with_proxy s.proxy (with_verification s.disable_ssl_verification R.builder)) [
        | none ↦ err reqwest
        | some b ↦
            ok_or (R.build (R.timeout s.timeout (R.user_agent (user_agent_or s.user_agent) b)))
              reqwest
      ]
