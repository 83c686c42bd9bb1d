-- ===== src/Builder.antt =====
-- src/matrix/builder.rs: the client builder and its options. The store's configuration and the
-- HTTP client that a user brings are opaque (`Store` and `H`). No Cargo feature is declared, so
-- that the options behind `cfg(feature = ...)` are not compiled.
pub mod History
pub mod Build
use matrix_goose.Prelude.{ℕ, Bool, true, false, Option, none, some, String, List}
use matrix_goose.Config.Request.{RequestConfig, new_request_config}
use matrix_goose.HttpClient.Settings.{HttpSettings, default_settings}

pub data HomeserverConfig : Type 0 where
  url server_name : String → HomeserverConfig

pub data HttpConfig (H : Type 0) : Type 0 where
  settings : HttpSettings → HttpConfig H
  custom : H → HttpConfig H

-- `GooseClientBuilder`
pub record ClientBuilder (Store H : Type 0) : Type 0 where
  pub homeserver_cfg : Option HomeserverConfig
  pub http_cfg : Option (HttpConfig H)
  pub store_config : Store
  pub request_config : RequestConfig
  pub respect_login_well_known : Bool
  pub appservice_mode : Bool
  pub server_versions : Option (List String)
  pub handle_refresh_tokens : Bool
  pub goose_user_index : ℕ

module _ {H : Type 0} where
  -- `HttpConfig::settings`, which puts the default in place of a custom client.
  unfoldable pub settings_of : HttpConfig H → HttpSettings
  settings_of (settings s) = s
  settings_of (custom c) = default_settings

  -- `get_or_insert_with(Default::default).settings()`
  unfoldable pub http_settings : Option (HttpConfig H) → HttpSettings
  unfolding settings_of
  http_settings none = default_settings
  http_settings (some c) = settings_of c

module _ {Store H : Type 0} where
  -- `GooseClientBuilder::new`; `default` is `StoreConfig::default()`.
  unfoldable pub new : Store → ℕ → ClientBuilder Store H
  new default index = record {
    homeserver_cfg = none;
    http_cfg = none;
    store_config = default;
    request_config = new_request_config;
    respect_login_well_known = true;
    appservice_mode = false;
    server_versions = none;
    handle_refresh_tokens = false;
    goose_user_index = index;
  }

  abbrev with_settings :
      (HttpSettings → HttpSettings) → ClientBuilder Store H → ClientBuilder Store H
  with_settings f b = record b { http_cfg = some (settings (f (http_settings b.http_cfg))) }

-- The calls of a builder's methods.
pub data BuilderCall (Store H : Type 0) : Type 0 where
  homeserver_url with_server_name proxy user_agent : String → BuilderCall Store H
  store_config : Store → BuilderCall Store H
  respect_login_well_known : Bool → BuilderCall Store H
  request_config : RequestConfig → BuilderCall Store H
  disable_ssl_verification handle_refresh_tokens : BuilderCall Store H
  http_client : H → BuilderCall Store H
  server_versions : List String → BuilderCall Store H

module _ {Store H : Type 0} where
  unfoldable pub set : BuilderCall Store H → ClientBuilder Store H → ClientBuilder Store H
  unfolding http_settings
  set (homeserver_url u) b = record b { homeserver_cfg = some (url u) }
  set (with_server_name n) b = record b { homeserver_cfg = some (server_name n) }
  set (proxy p) b = with_settings (λ s. record s { proxy = some p }) b
  set (user_agent a) b = with_settings (λ s. record s { user_agent = some a }) b
  set (store_config c) b = record b { store_config = c }
  set (respect_login_well_known v) b = record b { respect_login_well_known = v }
  set (request_config c) b = record b { request_config = c }
  set disable_ssl_verification b =
      with_settings (λ s. record s { disable_ssl_verification = true }) b
  set handle_refresh_tokens b = record b { handle_refresh_tokens = true }
  set (http_client c) b = record b { http_cfg = some (custom c) }
  set (server_versions vs) b = record b { server_versions = some vs }
