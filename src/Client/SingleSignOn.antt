-- ===== src/Client/SingleSignOn.antt =====
-- The URL of a log-in by single sign-on: `get_sso_login_url` of src/matrix/mod.rs. Parameter: what
-- `ruma` makes of the two requests for it.
use matrix_goose.Prelude.{Option, none, some, String, List}
use matrix_goose.Exec.{Result, ok, err}
use matrix_goose.Error.{Error, HttpResult, http, into_http}
use matrix_goose.Client.Session.{Client, Settings, server_versions}

-- `try_into_http_request`, up to the URI of the request, for a homeserver and its versions.
pub record SsoRequests : Type 0 where
  pub sso_login : String → String → List String → Option String
  pub sso_login_with_provider : String → String → String → List String → Option String

module _ {W : Type 0} (S : Settings W) (R : SsoRequests) where
  abbrev sso_uri : String → Option String → String → List String → Option String
  sso_uri redirect_url none homeserver versions = R.sso_login redirect_url homeserver versions
  sso_uri redirect_url (some idp_id) homeserver versions =
      R.sso_login_with_provider idp_id redirect_url homeserver versions

  abbrev uri_or_error : Option String → Result Error String
  uri_or_error none = err (http into_http)
  uri_or_error (some uri) = ok uri

  abbrev with_versions :
      String → Option String → HttpResult (List String) × Client W → Result Error String × Client W
  with_versions redirect_url idp_id (err e, c) = (err (http e), c)
  with_versions redirect_url idp_id (ok versions, c) =
      (uri_or_error (sso_uri redirect_url idp_id c.homeserver versions), c)

  unfoldable get_sso_login_url : String → Option String → Client W → Result Error String × Client W
  get_sso_login_url redirect_url idp_id c = with_versions redirect_url idp_id (server_versions S c)
