-- ===== src/Tests/Requests.antt =====
-- The requests of src/matrix/http_client.rs and the session of src/matrix/mod.rs.
use matrix_goose.Prelude.{
  ℕ, ◌≡◌, refl, ◌≤◌, max, true, Option, none, some, String, List, [], ◌∷◌, ◌++◌, length, arith,
}
use matrix_goose.Exec.{Result, ok, err}
use matrix_goose.Error.{
  HttpError, api, server, client_api, standard, limit_exceeded, as_ruma_api_error,
}
use matrix_goose.Config.Request.{new_request_config, short_retry}
use matrix_goose.HttpClient.Names.{bytes, endpoint_name}
use matrix_goose.HttpClient.Names.Grouping.{path, text_of, endpoint_name-room}
use matrix_goose.HttpClient.Retry.{error_type, attempts, attempt, is_last, next_count}
use matrix_goose.HttpClient.Retry.Limits.{attempts-le-limit}
use matrix_goose.HttpClient.Send.{Endpoint, HttpClient}
use matrix_goose.HttpClient.Send
use matrix_goose.Client.Session.{Settings, Client, refresh_access_token, send}
use matrix_goose.Client.Session.Continuity.{Continues}
use matrix_goose.Client.Session.Sending.{send-Continues}
use matrix_goose.Client.Session.Tokens.{Settled, refresh_access_token-Settled}

endpoint_name-room_example :
    endpoint_name (bytes "/rooms/" ++ 33 ∷ (bytes "ab:c" ++ text_of (path (bytes "join"))))
    ≡ endpoint_name (bytes "/rooms/" ++ 33 ∷ (bytes "d:c" ++ text_of (path (bytes "join"))))
endpoint_name-room_example =
    endpoint_name-room (bytes "/rooms/") (bytes "ab:c") (bytes "d:c") (path (bytes "join"))
      (ground arith) (ground arith) (ground arith, ground arith) (ground arith, ground arith)

-- Too many requests.
abbrev refused : HttpError
refused =
    api (
      server (client_api (record { status_code = 429; body = standard (limit_exceeded (some 5)) })))

abbrev failures : List (Result HttpError ℕ)
failures = err refused ∷ err refused ∷ ok 7 ∷ []

attempts-le-limit_example : length failures ≤ max 1 3
unfolding attempts attempt error_type is_last next_count as_ruma_api_error short_retry
attempts-le-limit_example =
    attempts-le-limit short_retry 3 refl failures (omega arith) (tt, (tt, tt))

-- An endpoint of a world that fails for as long as it holds units.
abbrev flaky : Endpoint ℕ
flaky = record {
  Request = String;
  Response = String;
  auth_scheme = Send.access_token;
  exchange = λ cfg cred home versions r w. (ok r, w);
}

abbrev settings : Settings ℕ
settings = record {
  handle_refresh_tokens = true;
  respect_login_well_known = true;
  RefreshResponse = String;
  refresh_exchange = flaky;
  refresh_request = λ t. t;
  refresh_response = λ r. r;
  update_with_refresh_response = λ t r. record t { access_token = r };
  versions_exchange = flaky;
  versions_request = "";
  known_versions = λ r. [];
}

abbrev session : Option String → Client ℕ
session refresh = record {
  homeserver = "https://example.org";
  http_client = record { request_config = new_request_config; next_request_id = 0; world = 0 };
  server_versions = none;
  user_id = some "@u";
  tokens = some (record { access_token = "a"; refresh_token = refresh });
  last_refresh = ok tt;
  unknown_tokens = [];
}

refresh_access_token-Settled_example :
    Settled settings
      (session (some "r"))
      (refresh_access_token settings (session (some "r"))).0
      (refresh_access_token settings (session (some "r"))).1
refresh_access_token-Settled_example = refresh_access_token-Settled settings (session (some "r"))

send-Continues_example :
    Continues 2 (session (some "r")) (send settings flaky "whoami" none (session (some "r"))).1
send-Continues_example = send-Continues settings flaky "whoami" none (session (some "r"))
