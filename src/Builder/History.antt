-- ===== src/Builder/History.antt =====
-- What a chain of calls of the builder leaves in it (src/matrix/builder.rs). Chains are written with
-- the latest call first.
use matrix_goose.Prelude.{
  ℕ, ◌≡◌, refl, Bool, true, false, Option, none, some, String, List, [], ◌∷◌, any, if◌then◌else◌,
}
use matrix_goose.HttpClient.Settings.{HttpSettings, default_settings}
use matrix_goose.Builder.{
  HomeserverConfig, url, server_name, HttpConfig, settings, custom, ClientBuilder, new, BuilderCall,
  homeserver_url, with_server_name, proxy, user_agent, store_config, respect_login_well_known,
  request_config, disable_ssl_verification, handle_refresh_tokens, http_client, server_versions,
  set, http_settings, settings_of,
}

module _ {Store H : Type 0} where
  -- The builder after the calls.
  unfoldable pub built : Store → ℕ → List (BuilderCall Store H) → ClientBuilder Store H
  built default index [] = new default index
  built default index (c ∷ earlier) = set c (built default index earlier)

  -- The client that a call brings.
  abbrev custom_of : BuilderCall Store H → Option H
  custom_of (http_client c) = some c
  custom_of _ = none

  abbrev proxy_of : BuilderCall Store H → Option String
  proxy_of (proxy p) = some p
  proxy_of _ = none

  abbrev user_agent_of : BuilderCall Store H → Option String
  user_agent_of (user_agent a) = some a
  user_agent_of _ = none

  abbrev disables : BuilderCall Store H → Bool
  disables disable_ssl_verification = true
  disables _ = false

  abbrev is_setting : BuilderCall Store H → Bool
  is_setting (proxy p) = true
  is_setting (user_agent a) = true
  is_setting disable_ssl_verification = true
  is_setting _ = false

  abbrev pub server_of : BuilderCall Store H → Option HomeserverConfig
  server_of (homeserver_url u) = some (url u)
  server_of (with_server_name n) = some (server_name n)
  server_of _ = none

abbrev custom_client : {H : Type 0} → Option H → Option (HttpConfig H)
custom_client none = none
custom_client (some c) = some (custom c)

-- The latest call of a kind.
module _ {A B : Type 0} (f : A → Option B) where
  abbrev first_some : Option B → Option B → Option B
  first_some (some b) o = some b
  first_some none o = o

  abbrev pub latest : List A → Option B
  latest [] = none
  latest (x ∷ xs) = first_some (f x) (latest xs)

module _ {Store H : Type 0} where
  -- The calls since the latest `http_client`.
  abbrev pub since_custom : List (BuilderCall Store H) → List (BuilderCall Store H)
  since_custom [] = []
  since_custom (c ∷ earlier) = elim (custom_of c) [ some h ↦ [] | none ↦ c ∷ since_custom earlier ]

  abbrev pub settings_since : List (BuilderCall Store H) → HttpSettings
  settings_since recent = record {
    disable_ssl_verification = any disables recent;
    proxy = latest proxy_of recent;
    user_agent = latest user_agent_of recent;
    timeout = default_settings.timeout;
  }

  -- The HTTP configuration that a chain of calls asks for.
  abbrev pub wanted : List (BuilderCall Store H) → Option (HttpConfig H)
  wanted calls =
      if any is_setting (since_custom calls)
      then some (settings (settings_since (since_custom calls)))
      else custom_client (latest custom_of calls)

  -- The settings that a setter changes next.
  settings-built :
      (default : Store) (index : ℕ) (calls : List (BuilderCall Store H))
      → http_settings (built default index calls).http_cfg ≡ settings_since (since_custom calls)
  unfolding http_settings settings_of built new set default_settings
  settings-built default index [] = refl
  settings-built default index (homeserver_url u ∷ cs) = settings-built default index cs
  settings-built default index (with_server_name u ∷ cs) = settings-built default index cs
  settings-built default index (proxy u ∷ cs) = rw (settings-built default index cs)
  settings-built default index (user_agent u ∷ cs) = rw (settings-built default index cs)
  settings-built default index (store_config u ∷ cs) = settings-built default index cs
  settings-built default index (respect_login_well_known u ∷ cs) = settings-built default index cs
  settings-built default index (request_config u ∷ cs) = settings-built default index cs
  settings-built default index (disable_ssl_verification ∷ cs) =
      rw (settings-built default index cs)
  settings-built default index (handle_refresh_tokens ∷ cs) = settings-built default index cs
  settings-built default index (http_client u ∷ cs) = refl
  settings-built default index (server_versions u ∷ cs) = settings-built default index cs

  http_cfg-built :
      (default : Store) (index : ℕ) (calls : List (BuilderCall Store H))
      → (built default index calls).http_cfg ≡ wanted calls
  unfolding built new set
  http_cfg-built default index [] = refl
  http_cfg-built default index (homeserver_url u ∷ cs) = http_cfg-built default index cs
  http_cfg-built default index (with_server_name u ∷ cs) = http_cfg-built default index cs
  http_cfg-built default index (proxy u ∷ cs) = rw (settings-built default index cs)
  http_cfg-built default index (user_agent u ∷ cs) = rw (settings-built default index cs)
  http_cfg-built default index (store_config u ∷ cs) = http_cfg-built default index cs
  http_cfg-built default index (respect_login_well_known u ∷ cs) = http_cfg-built default index cs
  http_cfg-built default index (request_config u ∷ cs) = http_cfg-built default index cs
  http_cfg-built default index (disable_ssl_verification ∷ cs) =
      rw (settings-built default index cs)
  http_cfg-built default index (handle_refresh_tokens ∷ cs) = http_cfg-built default index cs
  http_cfg-built default index (http_client u ∷ cs) = refl
  http_cfg-built default index (server_versions u ∷ cs) = http_cfg-built default index cs

  homeserver_cfg-built :
      (default : Store) (index : ℕ) (calls : List (BuilderCall Store H))
      → (built default index calls).homeserver_cfg ≡ latest server_of calls
  unfolding built new set
  homeserver_cfg-built default index [] = refl
  homeserver_cfg-built default index (homeserver_url u ∷ cs) = refl
  homeserver_cfg-built default index (with_server_name u ∷ cs) = refl
  homeserver_cfg-built default index (proxy u ∷ cs) = homeserver_cfg-built default index cs
  homeserver_cfg-built default index (user_agent u ∷ cs) = homeserver_cfg-built default index cs
  homeserver_cfg-built default index (store_config u ∷ cs) = homeserver_cfg-built default index cs
  homeserver_cfg-built default index (respect_login_well_known u ∷ cs) =
      homeserver_cfg-built default index cs
  homeserver_cfg-built default index (request_config u ∷ cs) = homeserver_cfg-built default index cs
  homeserver_cfg-built default index (disable_ssl_verification ∷ cs) =
      homeserver_cfg-built default index cs
  homeserver_cfg-built default index (handle_refresh_tokens ∷ cs) =
      homeserver_cfg-built default index cs
  homeserver_cfg-built default index (http_client u ∷ cs) = homeserver_cfg-built default index cs
  homeserver_cfg-built default index (server_versions u ∷ cs) =
      homeserver_cfg-built default index cs

  -- A chain of calls of the builder, the latest first, leaves the homeserver that the latest
  -- `homeserver_url` or `server_name` names; and, if a setting of the HTTP client was called since the
  -- latest `http_client`, HTTP settings that consist of the latest proxy and user agent and the
  -- disabled verification of those calls, over the defaults; and otherwise the client of the latest
  -- `http_client`, or nothing if there was none.
  pub built-Wanted :
      (default : Store) (index : ℕ) (calls : List (BuilderCall Store H))
      → ((built default index calls).homeserver_cfg ≡ latest server_of calls)
        × ((built default index calls).http_cfg ≡ wanted calls)
  built-Wanted default index calls =
      (homeserver_cfg-built default index calls, http_cfg-built default index calls)
