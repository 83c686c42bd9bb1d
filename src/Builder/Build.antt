-- ===== src/Builder/Build.antt =====
-- `GooseClientBuilder::build` and `GooseMatrixClient::new` (src/matrix/builder.rs and
-- src/matrix/mod.rs). Parameters: `reqwest`, the base client, the discovery endpoint and the parser of
-- URLs. The state is the world `W` that the discovery may change.
pub mod Discovery
use matrix_goose.Prelude.{ℕ, Bool, true, false, Option, none, some, String, ◌<>◌, List, [], ◌∷◌}
use mathlib.Core.Option
use matrix_goose.Exec.{Result, ok, err, Exec, ◌>>=◌, lift, pure, raise, ok_or}
use matrix_goose.Error.{
  HttpError, HttpResult, FromHttpResponseError, api, reqwest, authentication_required,
  not_client_request, into_http, unable_to_clone_request, refresh_token,
}
use matrix_goose.Config.Request.{RequestConfig, short_retry}
use matrix_goose.HttpClient.Settings.{HttpSettings, Reqwest, make_client, default_settings}
use matrix_goose.HttpClient.Send
use matrix_goose.HttpClient.Send.{Endpoint, HttpClient, Credentials, new_http_client}
use matrix_goose.Client.Session.{Client, v1_0}
use matrix_goose.Builder.{
  HomeserverConfig, url, server_name, HttpConfig, settings, custom, ClientBuilder, new,
  homeserver_url, set,
}

pub data ClientBuildError : Type 0 where
  missing_homeserver : ClientBuildError
  auto_discovery : FromHttpResponseError → ClientBuildError
  url_error : ClientBuildError
  http : HttpError → ClientBuildError

-- What the discovery of a homeserver answers.
pub record WellKnown : Type 0 where
  pub base_url : String
  pub issuer : Option String

pub record BuildParameters (W : Type 0) : Type 1 where
  pub reqwest : Reqwest
  pub Store : Type 0
  pub default_store : Store
  pub BaseClient : Type 0
  pub with_store_config : Store → BaseClient
  -- `Url::parse`, with a URL as its text
  pub parse_url : String → Option String
  pub discover :
      reqwest.HttpSend
      → RequestConfig
      → Credentials
      → String
      → List String
      → W
      → HttpResult WellKnown × W

-- `ClientInner` of a client that was just built; its session has no user and no tokens yet.
pub record BuiltClient (W Base H : Type 0) : Type 0 where
  pub session : Client W
  pub inner_http_client : H
  pub base_client : Base
  pub authentication_issuer : Option String
  pub appservice_mode : Bool
  pub respect_login_well_known : Bool
  pub handle_refresh_tokens : Bool
  pub goose_user_index : ℕ

-- `.map_err(|e| match e { ... })` of the discovery
abbrev pub discovery_error : HttpError → ClientBuildError
discovery_error (api e) = auto_discovery e
discovery_error reqwest = http reqwest
discovery_error authentication_required = http authentication_required
discovery_error not_client_request = http not_client_request
discovery_error into_http = http into_http
discovery_error unable_to_clone_request = http unable_to_clone_request
discovery_error (refresh_token e) = http (refresh_token e)

-- `homeserver_from_name`
unfoldable pub homeserver_from_name : String → String
homeserver_from_name name = "https://" <> name

abbrev map_err : {E F A : Type 0} → (E → F) → Result E A → Result F A
map_err f (ok a) = ok a
map_err f (err e) = err (f e)

module _ {W : Type 0} (P : BuildParameters W) where
  abbrev pub Builder : Type 0
  Builder = ClientBuilder P.Store P.reqwest.HttpSend

  abbrev pub Built : Type 0
  Built = BuiltClient W P.BaseClient P.reqwest.HttpSend

  -- `match self.http_cfg.unwrap_or_default()`
  unfoldable pub inner_client :
      RequestConfig → Option (HttpConfig P.reqwest.HttpSend) → HttpResult P.reqwest.HttpSend
  inner_client cfg none = make_client P.reqwest (record default_settings { timeout = cfg.timeout })
  inner_client cfg (some (settings s)) = make_client P.reqwest (record s { timeout = cfg.timeout })
  inner_client cfg (some (custom c)) = ok c

  abbrev pub discovery : P.reqwest.HttpSend → Endpoint W
  discovery h = record {
    Request = Unit {0};
    Response = WellKnown;
    auth_scheme = Send.no_auth;
    exchange = λ cfg cred home versions r w. P.discover h cfg cred home versions w;
  }

  -- The homeserver's URL before it is parsed, and the issuer.
  unfoldable pub resolve :
      ClientBuilder P.Store P.reqwest.HttpSend
      → P.reqwest.HttpSend
      → HomeserverConfig
      → HttpClient W
      → Result ClientBuildError WellKnown × HttpClient W
  resolve b h (url u) c = (ok (record { base_url = u; issuer = none }), c)
  resolve b h (server_name name) c =
      let (r, c') =
        Send.send (discovery h) tt (some short_retry) (homeserver_from_name name) none none
          (v1_0 ∷ []) c in
      (map_err discovery_error r, c')

  unfoldable pub assemble :
      ClientBuilder P.Store P.reqwest.HttpSend
      → P.reqwest.HttpSend
      → Option String
      → HttpClient W
      → String
      → BuiltClient W P.BaseClient P.reqwest.HttpSend
  assemble b h issuer c home = record {
    session = record {
      homeserver = home;
      http_client = c;
      server_versions = b.server_versions;
      user_id = none;
      tokens = none;
      last_refresh = ok tt;
      unknown_tokens = [];
    };
    inner_http_client = h;
    base_client = P.with_store_config b.store_config;
    authentication_issuer = issuer;
    appservice_mode = b.appservice_mode;
    respect_login_well_known = b.respect_login_well_known;
    handle_refresh_tokens = b.handle_refresh_tokens;
    goose_user_index = b.goose_user_index;
  }

  -- `Url::parse(&homeserver)?` and the client
  unfoldable pub parsed :
      ClientBuilder P.Store P.reqwest.HttpSend
      → P.reqwest.HttpSend
      → Option String
      → HttpClient W
      → Option String
      → Result ClientBuildError (BuiltClient W P.BaseClient P.reqwest.HttpSend) × W
  unfolding assemble
  parsed b h issuer c none = (err url_error, c.world)
  parsed b h issuer c (some home) = (ok (assemble b h issuer c home), c.world)

  unfoldable pub finish :
      ClientBuilder P.Store P.reqwest.HttpSend
      → P.reqwest.HttpSend
      → Result ClientBuildError WellKnown × HttpClient W
      → Result ClientBuildError (BuiltClient W P.BaseClient P.reqwest.HttpSend) × W
  unfolding parsed
  finish b h (err e, c) = (err e, c.world)
  finish b h (ok k, c) = parsed b h k.issuer c (P.parse_url k.base_url)

  unfoldable pub build_with :
      ClientBuilder P.Store P.reqwest.HttpSend
      → HomeserverConfig
      → HttpResult P.reqwest.HttpSend
      → W
      → Result ClientBuildError (BuiltClient W P.BaseClient P.reqwest.HttpSend) × W
  unfolding finish resolve
  build_with b home (err e) w = (err (http e), w)
  build_with b home (ok h) w = finish b h (resolve b h home (new_http_client b.request_config w))

  -- `self.homeserver_cfg.ok_or(...)?` and what follows
  unfoldable pub build_at :
      ClientBuilder P.Store P.reqwest.HttpSend
      → Option HomeserverConfig
      → W
      → Result ClientBuildError (BuiltClient W P.BaseClient P.reqwest.HttpSend) × W
  unfolding build_with inner_client
  build_at b none w = (err missing_homeserver, w)
  build_at b (some home) w = build_with b home (inner_client b.request_config b.http_cfg) w

  -- `build`
  unfoldable pub build :
      ClientBuilder P.Store P.reqwest.HttpSend
      → W
      → Result ClientBuildError (BuiltClient W P.BaseClient P.reqwest.HttpSend) × W
  unfolding build_at
  build b w = build_at b b.homeserver_cfg w

  -- `ClientBuildError::assert_valid_builder_args`; `none` is the panic of `unreachable!`.
  abbrev pub assert_valid_builder_args : ClientBuildError → Option HttpError
  assert_valid_builder_args missing_homeserver = none
  assert_valid_builder_args (auto_discovery e) = none
  assert_valid_builder_args url_error = none
  assert_valid_builder_args (http e) = some e

  abbrev pub without_panic :
      Result ClientBuildError (BuiltClient W P.BaseClient P.reqwest.HttpSend)
      → Option (HttpResult (BuiltClient W P.BaseClient P.reqwest.HttpSend))
  without_panic (ok c) = some (ok c)
  without_panic (err e) = Option.map err (assert_valid_builder_args e)

  -- `GooseMatrixClient::new`
  unfoldable pub new_client :
      String → ℕ → W → Option (HttpResult (BuiltClient W P.BaseClient P.reqwest.HttpSend)) × W
  unfolding new set
  new_client u index w =
      let (r, w') = build (set (homeserver_url u) (new P.default_store index)) w in
      (without_panic r, w')
