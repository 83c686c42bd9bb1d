-- ===== src/HttpClient/Retry.antt =====
-- The retries of `HttpClient::send_request`, src/matrix/http_client.rs. The crate `backoff` makes
-- the attempts: it documents that it calls the closure again only after a transient error. The
-- closure is modelled, and the crate is the list of the responses that it gets to see.
pub mod Limits
use matrix_goose.Prelude.{
  ℕ, zero, suc, ◌+◌, ◌≤◌, ◌<◌, ◌%◌, ◌^◌, max, ◌≡◌, refl, ◌↔◌, Bool, true, false, ◌&&◌, Option, none,
  some, List, [], ◌∷◌, arith, leb, ltb, if◌then◌else◌, length, Bool-cases, inl, inr,
}
use matrix_goose.Exec.{Result, ok, err}
use matrix_goose.Error.{
  HttpError, ErrorKind, ErrorBody, RumaApiError, ClientApiError, limit_exceeded, unknown_token,
  not_found, other_kind, standard, not_standard, client_api, uiaa, other, as_ruma_api_error, api,
  server,
}
use matrix_goose.Config.Request.{RequestConfig}

-- `backoff::Error`
pub data RetryError : Type 0 where
  permanent : HttpError → RetryError
  transient : HttpError → Option ℕ → RetryError

-- `StatusCode::is_server_error`: 500 to 599
abbrev is_server_error : ℕ → Bool
is_server_error status = leb 500 status && ltb status 600

abbrev by_status : HttpError → ℕ → RetryError
by_status e status = if is_server_error status then transient e none else permanent e

abbrev by_body : HttpError → ℕ → ErrorBody → RetryError
by_body e status (standard (limit_exceeded retry_after)) = transient e retry_after
by_body e status (standard (unknown_token soft)) = by_status e status
by_body e status (standard not_found) = by_status e status
by_body e status (standard (other_kind k)) = by_status e status
by_body e status not_standard = by_status e status

abbrev by_api_error : HttpError → Option RumaApiError → RetryError
by_api_error e none = permanent e
by_api_error e (some (client_api c)) = by_body e c.status_code c.body
by_api_error e (some (uiaa i)) = permanent e
by_api_error e (some (other status)) = by_status e status

-- `error_type`
unfoldable pub error_type : Bool → HttpError → RetryError
error_type stop e = if stop then permanent e else by_api_error e (as_ruma_api_error e)

-- `stop`, from the limit and the count of attempts.
unfoldable pub is_last : RequestConfig → ℕ → Bool
is_last cfg count = elim cfg.retry_limit [ none ↦ false | some limit ↦ leb limit count ]

-- The count wraps as an `AtomicU64` does, and is left alone without a limit.
unfoldable pub next_count : RequestConfig → ℕ → ℕ
next_count cfg count = elim cfg.retry_limit [ none ↦ count | some _ ↦ (count + 1) % 2 ^ 64 ]

-- The closure `send_request` on one response: of the client, or of the decoding of the body.
unfoldable pub attempt : {A : Type 0} → RequestConfig → ℕ → Result HttpError A → Result RetryError A
attempt cfg count (ok a) = ok a
attempt cfg count (err e) = err (error_type (is_last cfg count) e)

unfoldable pub attempts :
    {A : Type 0} → RequestConfig → ℕ → List (Result HttpError A) → List (Result RetryError A)
attempts cfg count [] = []
attempts cfg count (r ∷ rs) = attempt cfg count r ∷ attempts cfg (next_count cfg count) rs

abbrev pub IsTransient : {A : Type 0} → Result RetryError A → Type 0
IsTransient (ok a) = ⊥
IsTransient (err (permanent e)) = ⊥
IsTransient (err (transient e after)) = Unit

-- What `backoff` documents of a sequence of calls: each but the last failed with a transient error.
abbrev pub IsRetried : {A : Type 0} → List (Result RetryError A) → Type 0
IsRetried [] = Unit
IsRetried (o ∷ []) = Unit
IsRetried (o ∷ o' ∷ os) = IsTransient o × IsRetried (o' ∷ os)
