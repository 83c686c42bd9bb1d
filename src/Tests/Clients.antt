-- ===== src/Tests/Clients.antt =====
-- The builder of clients and the log-in of src/matrix/builder.rs and src/matrix/login_builder.rs.
use matrix_goose.Prelude.{ℕ, ◌+◌, ◌≡◌, refl, true, false, none, some, String, List, [], ◌∷◌}
use matrix_goose.Exec.{ok}
use matrix_goose.Config.Request.{new_request_config, short_retry, with_retry_limit}
use matrix_goose.HttpClient.Settings.{Reqwest}
use matrix_goose.HttpClient.Send
use matrix_goose.HttpClient.Send.{Endpoint, Credentials, plain, if_required}
use matrix_goose.Client.Session.{Client, Settings, SessionTokens, send_inner}
use matrix_goose.Client.Session
use matrix_goose.Client.Login.{LoginTypes, LoginParameters, LoginBuilder, login_token}
use matrix_goose.Client.Login
use matrix_goose.Client.Login.Settling.{LoginLaws, Settled, send-Settled, send_inner-send}
use matrix_goose.Builder.{
  BuilderCall, http_client, proxy, user_agent, homeserver_url, with_server_name, new, set,
}
use matrix_goose.Builder.History.{built, latest, server_of, wanted, built-Wanted}
use matrix_goose.Builder.Build.{BuildParameters, build}
use matrix_goose.Builder.Build.Discovery.{Explained, build-Explained}

-- A user agent, a client of one's own, and a proxy after it.
abbrev calls : List (BuilderCall ℕ ℕ)
calls = proxy "http://p" ∷ http_client 7 ∷ user_agent "a" ∷ homeserver_url "https://h" ∷ []

built-Wanted_example :
    ((built 0 1 calls).homeserver_cfg ≡ latest server_of calls)
    × ((built 0 1 calls).http_cfg ≡ wanted calls)
built-Wanted_example = built-Wanted 0 1 calls

-- A builder of HTTP clients that counts its options, and knows one proxy.
abbrev counting : Reqwest
counting = record {
  Builder = ℕ;
  Proxy = Unit;
  HttpSend = ℕ;
  builder = 0;
  danger_accept_invalid_certs = λ b n. n + 1;
  proxy_all = λ p. some tt;
  proxy = λ p n. n + 1;
  user_agent = λ a n. n + 1;
  timeout = λ t n. n + 1;
  build = λ n. some n;
}

-- The world counts the requests.
abbrev parameters : BuildParameters ℕ
parameters = record {
  reqwest = counting;
  Store = Unit;
  default_store = tt;
  BaseClient = Unit;
  with_store_config = λ s. tt;
  parse_url = λ u. some u;
  discover = λ h cfg cred home vs w. (ok (record { base_url = home; issuer = some "i" }), w + 1);
}

build-Explained_example :
    Explained parameters
      (set (with_server_name "example.org") (new tt 0))
      0
      (build parameters (set (with_server_name "example.org") (new tt 0)) 0)
build-Explained_example =
    build-Explained parameters (set (with_server_name "example.org") (new tt 0)) 0

abbrev types : LoginTypes
types = record {
  UserIdentifier = String;
  user_id_or_localpart = λ u. u;
  JsonObject = Unit;
  LoginInfo = String;
  password_info = λ u p. u;
  token_info = λ t. t;
  custom_info = λ k v. none;
}

-- The answer is the URL that its `well_known` has; the base client takes every answer.
abbrev login : LoginParameters ℕ types
login = record {
  Response = String;
  well_known = λ r. some r;
  exchange = λ cfg cred home vs r w. (ok "https://new.org", w + 1);
  parse_url = λ u. some u;
  receive = λ r c. (
    ok tt,
    record c {
      user_id = some "@u";
      tokens = some (record { access_token = "new"; refresh_token = none });
    },
  );
  SessionMeta = String;
  set_session_meta = λ m c. (ok tt, record c { user_id = some m });
}

abbrev login_laws : LoginLaws login
login_laws = record {
  user_of = λ r. "@u";
  tokens_of = λ r. record { access_token = "new"; refresh_token = none };
  receive-homeserver = λ r c. refl;
  receive-user = λ r c h. refl;
  receive-tokens = λ r c h. refl;
}

-- An endpoint that answers the credentials and the homeserver that it was given.
abbrev echo : Endpoint ℕ
echo = record {
  Request = Unit;
  Response = Credentials × String;
  auth_scheme = Send.access_token;
  exchange = λ cfg cred home vs r w. (ok (cred, home), w + 1);
}

abbrev settings : Settings ℕ
settings = record {
  handle_refresh_tokens = false;
  respect_login_well_known = true;
  RefreshResponse = Credentials × String;
  refresh_exchange = echo;
  refresh_request = λ t. tt;
  refresh_response = λ r. r;
  update_with_refresh_response = λ t r. t;
  versions_exchange = echo;
  versions_request = tt;
  known_versions = λ r. [];
}

abbrev fresh : Client ℕ
fresh = record {
  homeserver = "https://old.org";
  http_client = record { request_config = new_request_config; next_request_id = 0; world = 0 };
  server_versions = some ("v1.5" ∷ []);
  user_id = none;
  tokens = none;
  last_refresh = ok tt;
  unknown_tokens = [];
}

send-Settled_example :
    Settled settings types login login_laws fresh
      (Login.send settings types login (login_token types "t") fresh)
send-Settled_example = send-Settled settings types login login_laws (login_token types "t") fresh

abbrev after_login : Client ℕ
after_login = record fresh {
  homeserver = "https://new.org";
  http_client = record { request_config = new_request_config; next_request_id = 1; world = 1 };
  user_id = some "@u";
  tokens = some (record { access_token = "new"; refresh_token = none });
}

send_inner-send_example :
    (send_inner settings echo tt (some short_retry) after_login).0
    ≡ ok (plain (if_required "new"), "https://new.org")
unfolding Login.send Login.receive_login_response Session.send Session.send_inner
    Session.server_versions Session.send_with_versions Send.send short_retry with_retry_limit
send_inner-send_example =
    send_inner-send settings types login login_laws (login_token types "t") echo tt short_retry
      "https://new.org" ("v1.5" ∷ []) fresh after_login refl refl refl refl
