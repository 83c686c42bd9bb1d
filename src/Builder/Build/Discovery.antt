-- ===== src/Builder/Build/Discovery.antt =====
-- Where a built client's homeserver comes from, and the causes of each error of `build`
-- (src/matrix/builder.rs); what `GooseMatrixClient::new` answers (src/matrix/mod.rs).
use matrix_goose.Prelude.{
  ℕ, false, sym, ◌≡◌, refl, ◌⊎◌, inl, inr, Option, none, some, String, ◌<>◌, [], ◌∷◌,
}
use matrix_goose.Exec.{Result, ok, err}
use matrix_goose.Error.{
  HttpError, HttpResult, api, reqwest, authentication_required, not_client_request, into_http,
  unable_to_clone_request, refresh_token,
}
use matrix_goose.Config.Request.{short_retry, new_request_config}
use matrix_goose.HttpClient.Settings.{make_client, default_settings}
use matrix_goose.HttpClient.Send
use matrix_goose.HttpClient.Send.{
  Credentials, credentials, plain, no_token, new_http_client, HttpClient,
}
use matrix_goose.Client.Session.{v1_0}
use matrix_goose.Builder.{
  HttpConfig, settings, custom, HomeserverConfig, url, server_name, new, set, homeserver_url,
}
use matrix_goose.Builder.Build.{
  ClientBuildError, missing_homeserver, auto_discovery, url_error, http, WellKnown, BuildParameters,
  Builder, Built, inner_client, resolve, assemble, parsed, finish, build_with, build_at, build,
  new_client, homeserver_from_name, discovery_error, without_panic,
}

module _ {W : Type 0} (P : BuildParameters W) where
  -- The one request that `build` may send: without a token, with three retries.
  abbrev pub asked : P.reqwest.HttpSend → String → W → HttpResult WellKnown × W
  asked h name w = P.discover h short_retry (plain no_token) ("https://" <> name) (v1_0 ∷ []) w

  -- The HTTP client of a configuration, or the error of making it: a custom client is taken, and another
  -- is made of its settings, or of the default ones, with the timeout of the requests.
  abbrev Makes : ℕ → Option (HttpConfig P.reqwest.HttpSend) → HttpResult P.reqwest.HttpSend → Type 0
  Makes timeout none q =
      q
      ≡ make_client P.reqwest (record {
        disable_ssl_verification = false;
        proxy = none;
        user_agent = none;
        timeout = timeout;
      })
  Makes timeout (some (settings s)) q =
      q
      ≡ make_client P.reqwest (record {
        disable_ssl_verification = s.disable_ssl_verification;
        proxy = s.proxy;
        user_agent = s.user_agent;
        timeout = timeout;
      })
  Makes timeout (some (custom h)) q = q ≡ ok h

  inner_client-Makes :
      (b : Builder P) (q : HttpResult P.reqwest.HttpSend)
      → inner_client P b.request_config b.http_cfg ≡ q
      → Makes b.request_config.timeout b.http_cfg q
  unfolding inner_client default_settings
  inner_client-Makes b q e = go b.http_cfg e
    where
      go :
          (o : Option (HttpConfig P.reqwest.HttpSend))
          → inner_client P b.request_config o ≡ q
          → Makes b.request_config.timeout o q
      go none e = sym e
      go (some (settings s)) e = sym e
      go (some (custom h)) e = sym e

  abbrev InnerClient : Builder P → P.reqwest.HttpSend → Type 0
  InnerClient b h = Makes b.request_config.timeout b.http_cfg (ok h)

  -- The URL as text and the issuer, found from a URL without a request or by the discovery.
  abbrev Found : Builder P → W → WellKnown → W → Type 0
  Found b w k w' =
      ((b.homeserver_cfg ≡ some (url k.base_url)) × (k.issuer ≡ none) × (w' ≡ w))
      ⊎ ((name : String) × (h : P.reqwest.HttpSend) × (b.homeserver_cfg ≡ some (server_name name))
          × InnerClient b h
          × (asked h name w ≡ (ok k, w')))

  abbrev Refused : Builder P → W → HttpError → W → Type 0
  Refused b w e w' =
      (name : String) × (h : P.reqwest.HttpSend) × (b.homeserver_cfg ≡ some (server_name name))
      × InnerClient b h
      × (asked h name w ≡ (err e, w'))

  abbrev pub Explained : Builder P → W → Result ClientBuildError (Built P) × W → Type 0
  Explained b w (ok c, w') =
      (k : WellKnown) × Found b w k w'
      × InnerClient b c.inner_http_client
      × (P.parse_url k.base_url ≡ some c.session.homeserver)
      × (c.authentication_issuer ≡ k.issuer)
      × (c.session.http_client.world ≡ w')
  Explained b w (err missing_homeserver, w') = (b.homeserver_cfg ≡ none) × (w' ≡ w)
  Explained b w (err (auto_discovery e), w') = Refused b w (api e) w'
  Explained b w (err url_error, w') =
      (k : WellKnown) × Found b w k w' × (P.parse_url k.base_url ≡ none)
  Explained b w (err (http e), w') =
      (Makes b.request_config.timeout b.http_cfg (err e) × (w' ≡ w)) ⊎ Refused b w e w'

  parsed-Explained :
      (b : Builder P) (h : P.reqwest.HttpSend) (w : W) (k : WellKnown) (c : HttpClient W)
      (home : Option String)
      → InnerClient b h
      → Found b w k c.world
      → P.parse_url k.base_url ≡ home
      → Explained b w (parsed P b h k.issuer c home)
  unfolding parsed assemble
  parsed-Explained b h w k c none made found e = (k, found, e)
  parsed-Explained b h w k c (some home) made found e = (k, found, made, e, refl, refl)

  finish-Explained :
      (b : Builder P) (h : P.reqwest.HttpSend) (w : W) (k : WellKnown) (c : HttpClient W)
      → InnerClient b h
      → Found b w k c.world
      → Explained b w (finish P b h (ok k, c))
  unfolding finish
  finish-Explained b h w k c made found =
      parsed-Explained b h w k c (P.parse_url k.base_url) made found refl

  failed-Explained :
      (b : Builder P) (w : W) (e : HttpError) (w' : W)
      → Refused b w e w'
      → Explained b w (err (discovery_error e), w')
  failed-Explained b w (api e) w' r = r
  failed-Explained b w reqwest w' r = inr r
  failed-Explained b w authentication_required w' r = inr r
  failed-Explained b w not_client_request w' r = inr r
  failed-Explained b w into_http w' r = inr r
  failed-Explained b w unable_to_clone_request w' r = inr r
  failed-Explained b w (refresh_token e) w' r = inr r

  resolved-Explained :
      (b : Builder P) (h : P.reqwest.HttpSend) (home : HomeserverConfig) (w : W)
      → b.homeserver_cfg ≡ some home
      → InnerClient b h
      → Explained b w (finish P b h (resolve P b h home (new_http_client b.request_config w)))
  unfolding resolve new_http_client Send.send credentials homeserver_from_name finish
  resolved-Explained b h (url u) w e made =
      finish-Explained b h w (record { base_url = u; issuer = none })
        (new_http_client b.request_config w) made (inl (e, refl, refl))
  resolved-Explained b h (server_name name) w e made = go (asked h name w) refl
    where
      go :
          (q : HttpResult WellKnown × W)
          → asked h name w ≡ q
          → Explained b w
              (finish P b h (resolve P b h (server_name name) (new_http_client b.request_config w)))
      go (ok k, w') a = rw a (finish-Explained b h w k _ made (inr (name, h, e, made, a)))
      go (err x, w') a = rw a (failed-Explained b w x w' (name, h, e, made, a))

  build_with-Explained :
      (b : Builder P) (home : HomeserverConfig) (w : W) (q : HttpResult P.reqwest.HttpSend)
      → b.homeserver_cfg ≡ some home
      → inner_client P b.request_config b.http_cfg ≡ q
      → Explained b w (build_with P b home q w)
  unfolding build_with
  build_with-Explained b home w (err x) e made = inl (inner_client-Makes b (err x) made, refl)
  build_with-Explained b home w (ok h) e made =
      resolved-Explained b h home w e (inner_client-Makes b (ok h) made)

  build_at-Explained :
      (b : Builder P) (home : Option HomeserverConfig) (w : W)
      → b.homeserver_cfg ≡ home
      → Explained b w (build_at P b home w)
  unfolding build_at
  build_at-Explained b none w e = (e, refl)
  build_at-Explained b (some home) w e =
      build_with-Explained b home w (inner_client P b.request_config b.http_cfg) e refl

  pub build-Explained : (b : Builder P) (w : W) → Explained b w (build P b w)
  unfolding build
  build-Explained b w = build_at-Explained b b.homeserver_cfg w refl

  -- A client for a URL, its HTTP client being given.
  abbrev pub opened : ℕ → W → String → HttpResult P.reqwest.HttpSend → HttpResult (Built P)
  opened index w home (err e) = err e
  opened index w home (ok h) =
      ok (assemble P (new P.default_store index) h none (new_http_client new_request_config w) home)

  -- `GooseMatrixClient::new`, for a URL that has a parsed form, never reaches the `unreachable!` of
  -- `assert_valid_builder_args`, sends no request, and answers with a client of the parsed URL with
  -- the default settings, or with the error of building the HTTP client.
  pub new_client-opened :
      (u home : String) (index : ℕ) (w : W)
      → P.parse_url u ≡ some home
      → new_client P u index w
        ≡ (some (opened index w home (make_client P.reqwest default_settings)), w)
  unfolding new_client build build_at build_with resolve finish parsed assemble new_http_client
      inner_client new set default_settings
  new_client-opened u home index w e = go (make_client P.reqwest default_settings)
    where
      b : Builder P
      b = set (homeserver_url u) (new P.default_store index)

      go :
          (q : HttpResult P.reqwest.HttpSend)
          → ◌≡◌ {A = Option (HttpResult (Built P)) × W}
              (without_panic P (build_with P b (url u) q w).0, (build_with P b (url u) q w).1)
              (some (opened index w home q), w)
      go (err x) = refl
      go (ok h) = rw (e, finish) refl
