-- ===== src/Client/Login/Settling.antt =====
-- What a log-in leaves in the client, and what the next request presents (src/matrix/login_builder.rs
-- and src/matrix/mod.rs), given what the base client documents of a log-in.
use matrix_goose.Prelude.{
  ◌≡◌, refl, sym, ◌∙◌, ap, subst, ◌⊎◌, inl, inr, Bool, true, false, Option, none, some, String,
  List, if◌then◌else◌,
}
use mathlib.Core.Option
use matrix_goose.Exec.{Result, ok, err}
use matrix_goose.Error.{Error, http, HttpError, HttpResult}
use matrix_goose.Config.Request.{RequestConfig, short_retry}
use matrix_goose.HttpClient.Send.{
  plain, always, if_required, Endpoint, HttpClient, credentials, for_clients,
}
use matrix_goose.HttpClient.Send
use matrix_goose.Client.Session.{
  Client, Settings, SessionTokens, send_inner, server_versions, send_with_versions,
}
use matrix_goose.Client.Session.Continuity.{Continues}
use matrix_goose.Client.Session.Sending.{send-Continues}
use matrix_goose.Client.Login.{
  LoginTypes, LoginBuilder, LoginParameters, login_endpoint, login_request, told_homeserver,
  told_well_known, receive_login_response, answered, received, send,
}

-- `BaseClient::receive_login_response` sets the user and the tokens of the answer, where it succeeds,
-- and leaves alone what is not the base client's.
pub record LoginLaws {W : Type 0} {T : LoginTypes} (P : LoginParameters W T) : Type 0 where
  pub user_of : P.Response → String
  pub tokens_of : P.Response → SessionTokens
  pub receive-homeserver :
      (r : P.Response) (c : Client W) → (P.receive r c).1.homeserver ≡ c.homeserver
  pub receive-user :
      (r : P.Response) (c : Client W)
      → (P.receive r c).0 ≡ ok tt
      → (P.receive r c).1.user_id ≡ some (user_of r)
  pub receive-tokens :
      (r : P.Response) (c : Client W)
      → (P.receive r c).0 ≡ ok tt
      → (P.receive r c).1.tokens ≡ some (tokens_of r)

module _ {W : Type 0} (S : Settings W) (T : LoginTypes) (P : LoginParameters W T)
    (L : LoginLaws P) where
  abbrev parsed : Option String → Option String
  parsed none = none
  parsed (some u) = P.parse_url u

  -- The homeserver that an answer asks for, or the present one.
  abbrev pub home_after : P.Response → String → String
  home_after r home =
      if S.respect_login_well_known then Option.get_or (parsed (P.well_known r)) home else home

  -- The user of the answer is logged in, with its tokens.
  abbrev pub LoggedIn : P.Response → Client W → Type 0
  LoggedIn r c = (c.user_id ≡ some (L.user_of r)) × (c.tokens ≡ some (L.tokens_of r))

  abbrev pub Settled : Client W → Result Error P.Response × Client W → Type 0
  Settled c (r, c') =
      ((e : HttpError) × (r ≡ err (http e)) × Continues 2 c c')
      ⊎ ((a : P.Response) × (c'.homeserver ≡ home_after a c.homeserver)
          × (((r ≡ ok a) × LoggedIn a c') ⊎ ((e : Error) × (r ≡ err e))))

  told_homeserver-home :
      (o : Option String) (c : Client W)
      → (told_homeserver S T P o c).homeserver ≡ Option.get_or o c.homeserver
  told_homeserver-home none c = refl
  told_homeserver-home (some u) c = refl

  told_well_known-home :
      (o : Option String) (c : Client W)
      → (told_well_known S T P o c).homeserver ≡ Option.get_or (parsed o) c.homeserver
  told_well_known-home none c = refl
  told_well_known-home (some u) c = told_homeserver-home (P.parse_url u) c

  receive-home :
      (a : P.Response) (c : Client W)
      → (receive_login_response S T P a c).1.homeserver ≡ home_after a c.homeserver
  unfolding receive_login_response
  receive-home a c = go S.respect_login_well_known
    where
      go :
          (b : Bool)
          → (P.receive a (if b then told_well_known S T P (P.well_known a) c else c)).1.homeserver
            ≡ (if b then Option.get_or (parsed (P.well_known a)) c.homeserver else c.homeserver)
      go true = L.receive-homeserver a _ ∙ told_well_known-home (P.well_known a) c
      go false = L.receive-homeserver a c

  receive-LoggedIn :
      (a : P.Response) (c : Client W)
      → (receive_login_response S T P a c).0 ≡ ok tt
      → LoggedIn a (receive_login_response S T P a c).1
  unfolding receive_login_response
  receive-LoggedIn a c h = (L.receive-user a _ h, L.receive-tokens a _ h)

  answered-Settled :
      (a : P.Response) (c c1 : Client W) (q : Result Error (Unit {0}) × Client W)
      → c1.homeserver ≡ c.homeserver
      → receive_login_response S T P a c1 ≡ q
      → Settled c (answered S T P a q)
  answered-Settled a c c1 (ok u, c') h e = inr (
    a,
    sym (ap (λ q. q.1.homeserver) e) ∙ receive-home a c1 ∙ ap (home_after a) h,
    inl (refl, subst (λ q. LoggedIn a q.1) e (receive-LoggedIn a c1 (ap (λ q. q.0) e))),
  )
  answered-Settled a c c1 (err x, c') h e =
      inr (
        a,
        sym (ap (λ q. q.1.homeserver) e) ∙ receive-home a c1 ∙ ap (home_after a) h,
        inr (x, refl),
      )

  received-Settled :
      (c : Client W) (q : HttpResult P.Response × Client W)
      → Continues 2 c q.1
      → Settled c (received S T P q)
  received-Settled c (err e, c') h = inl (e, refl, h)
  received-Settled c (ok a, c') h = answered-Settled a c c' _ h.homeserver refl

  -- After `LoginBuilder::send`, either the request failed, and the client kept its homeserver, its
  -- user and whether it is logged in; or it was answered, and the homeserver is the parsed form of the
  -- URL of the answer's `well_known`, if the client respects it, it is there and it has a parsed form,
  -- and the previous one otherwise, whether the base client took the answer or not; and if it did, the
  -- user and the tokens are those of the answer.
  pub send-Settled : (b : LoginBuilder T) (c : Client W) → Settled c (send S T P b c)
  unfolding send
  send-Settled b c =
      received-Settled c _
        (send-Continues S (login_endpoint S T P) (login_request T b) (some short_retry) c)

  -- A log-in that answered.
  Settled-ok :
      (a : P.Response) (c c' : Client W)
      → Settled c (ok a, c')
      → (c'.homeserver ≡ home_after a c.homeserver) × LoggedIn a c'
  Settled-ok a c c' (inl (e, r, h)) = cc
  Settled-ok a c c' (inr (a', h, inl (r, l))) = (cc, (cc, cc))
  Settled-ok a c c' (inr (a', h, inr (e, r))) = cc

  presents :
      (E : Endpoint W) (request : E.Request) (cfg : RequestConfig) (a : P.Response)
      (vs : List String) (home : String) (c' : Client W)
      → c'.homeserver ≡ home
      → LoggedIn a c'
      → c'.server_versions ≡ some vs
      → for_clients E.auth_scheme ≡ true
      → cfg.assert_identity ≡ false
      → (send_inner S E request (some cfg) c').0
        ≡ (E.exchange cfg
            (plain (
              if cfg.force_auth
              then always (L.tokens_of a).access_token
              else if_required (L.tokens_of a).access_token))
            home
            vs
            request
            c'.http_client.world).0
  unfolding send_inner server_versions send_with_versions Send.send credentials
  presents E request cfg a vs home c' h (u, t) v f i = rw (v, f, h, u, t, i) refl

  -- The first request after a successful log-in is given the new token, for every request if the
  -- configuration forces it and for one that requires it otherwise, and goes to the homeserver that the
  -- log-in left, for an endpoint of clients, a client that knows the versions of the server, and a
  -- configuration that does not assert the user's identity.
  pub send_inner-send :
      (b : LoginBuilder T) (E : Endpoint W) (request : E.Request) (cfg : RequestConfig)
      (a : P.Response) (vs : List String) (c c' : Client W)
      → send S T P b c ≡ (ok a, c')
      → c'.server_versions ≡ some vs
      → for_clients E.auth_scheme ≡ true
      → cfg.assert_identity ≡ false
      → (send_inner S E request (some cfg) c').0
        ≡ (E.exchange cfg
            (plain (
              if cfg.force_auth
              then always (L.tokens_of a).access_token
              else if_required (L.tokens_of a).access_token))
            (home_after a c.homeserver)
            vs
            request
            c'.http_client.world).0
  send_inner-send b E request cfg a vs c c' h v f i =
      let (home, logged) = Settled-ok a c c' (subst (Settled c) h (send-Settled b c)) in
      presents E request cfg a vs (home_after a c.homeserver) c' home logged v f i
