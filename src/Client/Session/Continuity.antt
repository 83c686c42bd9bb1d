-- ===== src/Client/Session/Continuity.antt =====
-- What requests never change in a client (src/matrix/mod.rs, `send`, `send_inner`,
-- `server_versions` and `refresh_access_token`).
use matrix_goose.Prelude.{
  ℕ, ◌+◌, ◌≤◌, ◌≡◌, refl, sym, ◌∙◌, ap, Bool, true, false, Option, none, some, List, [], ◌++◌,
  append_assoc, append-nil, length, length-append, arith,
}
use matrix_goose.Exec.{Result, ok, err}
use matrix_goose.Error.{
  HttpResult, ErrorKind, RefreshTokenError, unknown_token, limit_exceeded, not_found, other_kind,
  client_api_error_kind,
}
use matrix_goose.HttpClient.Send.{HttpClient}
use matrix_goose.Client.Session.{Client, soft_logout, broadcast}

abbrev pub is_some {ℓ} : {A : Type ℓ} → Option A → Bool
is_some none = false
is_some (some a) = true

-- What is known stays known.
abbrev pub Kept {ℓ} : {A : Type ℓ} → Option A → Option A → Type ℓ
Kept none o = Unit
Kept (some a) o = o ≡ some a

pub Kept-refl {ℓ} : {A : Type ℓ} (o : Option A) → Kept o o
Kept-refl none = tt
Kept-refl (some a) = refl

pub Kept-trans {ℓ} : {A : Type ℓ} (o p q : Option A) → Kept o p → Kept p q → Kept o q
Kept-trans none p q h k = tt
Kept-trans (some a) none q h k = cc
Kept-trans (some a) (some b) q h k = k ∙ h

module _ {W : Type 0} where
  -- From `c` to `c'` the client kept its homeserver, its user, whether it is logged in and the
  -- versions of the server that it knew, and told its subscribers of unknown tokens at most `n`
  -- times.
  pub record Continues (n : ℕ) (c c' : Client W) : Type 0 where
    pub homeserver : c'.homeserver ≡ c.homeserver
    pub user_id : c'.user_id ≡ c.user_id
    pub logged_in : is_some c'.tokens ≡ is_some c.tokens
    pub versions : Kept c.server_versions c'.server_versions
    pub told :
        (soft : List Bool) × ((c'.unknown_tokens ≡ c.unknown_tokens ++ soft) × (length soft ≤ n))

  pub Continues-refl : (n : ℕ) (c : Client W) → Continues n c c
  Continues-refl n c = record {
    homeserver = refl;
    user_id = refl;
    logged_in = refl;
    versions = Kept-refl c.server_versions;
    told = ([], (sym (append-nil c.unknown_tokens), omega arith));
  }

  -- A change of the HTTP client and of the note on the last refresh alone.
  pub Continues-noted :
      (c : Client W) (h : HttpClient W) (r : Result RefreshTokenError (Unit {0}))
      → Continues 0 c (record c { http_client = h; last_refresh = r })
  Continues-noted c h r = record {
    homeserver = refl;
    user_id = refl;
    logged_in = refl;
    versions = Kept-refl c.server_versions;
    told = ([], (sym (append-nil c.unknown_tokens), omega arith));
  }

  pub Continues-trans :
      (m n : ℕ) (a b c : Client W) → Continues m a b → Continues n b c → Continues (m + n) a c
  Continues-trans m n a b c p q = record {
    homeserver = q.homeserver ∙ p.homeserver;
    user_id = q.user_id ∙ p.user_id;
    logged_in = q.logged_in ∙ p.logged_in;
    versions =
        Kept-trans a.server_versions b.server_versions c.server_versions p.versions q.versions;
    told =
        let (x, (e, l)) = p.told in
        let (y, (f, k)) = q.told in
        (
          x ++ y,
          (
            f ∙ ap (λ z. z ++ y) e ∙ append_assoc a.unknown_tokens x y,
            omega (arith, length-append x y),
          ),
        );
  }

  pub Continues-le : (m n : ℕ) (a b : Client W) → m ≤ n → Continues m a b → Continues n a b
  Continues-le m n a b h p = record {
    homeserver = p.homeserver;
    user_id = p.user_id;
    logged_in = p.logged_in;
    versions = p.versions;
    told = let (x, (e, l)) = p.told in (x, (e, omega arith));
  }

pub soft_logout-le : (o : Option ErrorKind) → length (soft_logout o) ≤ 1
soft_logout-le none = omega arith
soft_logout-le (some (unknown_token soft)) = omega arith
soft_logout-le (some (limit_exceeded t)) = omega arith
soft_logout-le (some not_found) = omega arith
soft_logout-le (some (other_kind k)) = omega arith

pub broadcast-le : {A : Type 0} (r : HttpResult A) → length (broadcast r) ≤ 1
broadcast-le (ok a) = omega arith
broadcast-le (err e) = soft_logout-le (client_api_error_kind e)
