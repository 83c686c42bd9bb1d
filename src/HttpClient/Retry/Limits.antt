-- ===== src/HttpClient/Retry/Limits.antt =====
-- How often src/matrix/http_client.rs lets a request be made, and after which errors again.
use mathlib.Core.Option
use matrix_goose.Prelude.{
  ℕ, ◌+◌, ◌-◌, ◌≤◌, ◌<◌, ◌^◌, max, ◌≡◌, refl, ◌⊎◌, inl, inr, Bool, true, false, Option, none, some,
  List, [], ◌∷◌, arith, length,
}
use matrix_goose.Exec.{Result, ok, err}
use matrix_goose.Error.{
  HttpError, limit_exceeded, client_api_error_kind, as_ruma_api_error, client_api, other,
  RumaApiError, uiaa, api_status, standard_kind, ErrorBody, ClientApiError, standard, not_standard,
  unknown_token, not_found, other_kind,
}
use matrix_goose.Config.Request.{RequestConfig}
use matrix_goose.HttpClient.Retry.{
  transient, error_type, is_last, next_count, attempt, attempts, IsTransient, IsRetried, by_status,
  by_body, by_api_error,
}

module _ (cfg : RequestConfig) (limit : ℕ) (limited : cfg.retry_limit ≡ some limit) where
  more_allowed :
      {A : Type 0} (count : ℕ) (r : Result HttpError A)
      → IsTransient (attempt cfg count r)
      → count < limit
  unfolding attempt error_type is_last
  more_allowed count (ok a) h = elim h [ ]
  more_allowed count (err e) h = ground arith

  next_count_lem : (count : ℕ) → count + 1 < 2 ^ 64 → next_count cfg count ≡ count + 1
  unfolding next_count
  next_count_lem count h = ground arith

  attempts-le :
      {A : Type 0} (count : ℕ) (rs : List (Result HttpError A))
      → limit < 2 ^ 64
      → IsRetried (attempts cfg count rs)
      → length rs ≤ max 1 (limit + 1 - count)
  unfolding attempts
  attempts-le count [] room h = omega arith
  attempts-le count (r ∷ []) room h = omega arith
  attempts-le count (r ∷ r' ∷ rs) room h =
      let more = more_allowed count r h.0 in
      omega (arith, next_count_lem count, attempts-le (next_count cfg count) (r' ∷ rs) room h.1)

  -- With a retry limit, below the wrap-around of the counter, a request is made at most that often,
  -- or at most once if the limit is nought. This is so for whatever responses, if the crate that
  -- makes the attempts only repeats them after a transient error.
  pub attempts-le-limit :
      {A : Type 0} (rs : List (Result HttpError A))
      → limit < 2 ^ 64
      → IsRetried (attempts cfg 1 rs)
      → length rs ≤ max 1 limit
  attempts-le-limit rs room h = omega (arith, attempts-le 1 rs room h)

by_status_lem :
    (e e' : HttpError) (status : ℕ) (after : Option ℕ)
    → by_status e status ≡ transient e' after
    → (e ≡ e') × (after ≡ none) × (500 ≤ status) × (status < 600)
by_status_lem e e' status after h = ground arith

-- An error that may be tried again: a rate limit, or a server error of an answer of the API.
abbrev pub IsRetryable : HttpError → Option ℕ → Type 0
IsRetryable e after =
    (client_api_error_kind e ≡ some (limit_exceeded after))
    ⊎ ((after ≡ none)
        × ((status : ℕ) × (Option.bind (as_ruma_api_error e) api_status ≡ some status)
            × (500 ≤ status)
            × (status < 600)))

module _ (e e' : HttpError) (after : Option ℕ) where
  of_status :
      (x : RumaApiError) (status : ℕ)
      → as_ruma_api_error e ≡ some x
      → api_status x ≡ some status
      → by_status e status ≡ transient e' after
      → (e ≡ e') × IsRetryable e after
  unfolding Option.bind
  of_status x status p q h =
      let (same, no_wait, lo, hi) = by_status_lem e e' status after h in
      (same, inr (no_wait, (status, rw p q, lo, hi)))

  of_body :
      (c : ClientApiError) (b : ErrorBody)
      → as_ruma_api_error e ≡ some (client_api c)
      → c.body ≡ b
      → by_body e c.status_code b ≡ transient e' after
      → (e ≡ e') × IsRetryable e after
  unfolding client_api_error_kind
  of_body c (standard (limit_exceeded r)) p q h =
      (ground arith, inl (rw p (rw (q, standard_kind) (ground arith))))
  of_body c (standard (unknown_token s)) p q h = of_status (client_api c) c.status_code p refl h
  of_body c (standard not_found) p q h = of_status (client_api c) c.status_code p refl h
  of_body c (standard (other_kind k)) p q h = of_status (client_api c) c.status_code p refl h
  of_body c not_standard p q h = of_status (client_api c) c.status_code p refl h

  of_api_error :
      (o : Option RumaApiError)
      → as_ruma_api_error e ≡ o
      → by_api_error e o ≡ transient e' after
      → (e ≡ e') × IsRetryable e after
  of_api_error none p h = cc
  of_api_error (some (client_api c)) p h = of_body c c.body p refl h
  of_api_error (some (uiaa i)) p h = cc
  of_api_error (some (other s)) p h = of_status (other s) s p refl h

-- The error that is tried again is a rate limit, with the wait that the server asks for, or an
-- answer of the API with a status from 500 to 599, with no wait. It is passed on unchanged, and it
-- is not that of the last attempt.
pub error_type-transient :
    (stop : Bool) (e e' : HttpError) (after : Option ℕ)
    → error_type stop e ≡ transient e' after
    → (stop ≡ false) × (e ≡ e') × IsRetryable e after
unfolding error_type
error_type-transient true e e' after h = cc
error_type-transient false e e' after h =
    let (same, retry) = of_api_error e e' after (as_ruma_api_error e) refl h in (refl, same, retry)
