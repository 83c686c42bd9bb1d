-- ===== src/LoadTest/Attempts/Retries.antt =====
-- How often the users of the load tests try (src/bin/register.rs, src/bin/join.rs,
-- src/bin/create_room.rs).
use matrix_goose.Prelude.{ℕ, zero, suc, ◌<◌, ◌≡◌, refl, ap, Option, none, some, arith}
use matrix_goose.Exec.{Result, ok, err}
use matrix_goose.Error.{Error}
use matrix_goose.LoadTest.Attempts.{retry}

module _ {W A : Type 0} (request : W → Result Error A × W) where
  -- From `w`, that many attempts in a row fail and leave `v`.
  unfoldable pub Fails : ℕ → W → W → Type 0
  Fails zero w v = v ≡ w
  Fails (suc n) w v = ((e : Error) × ((request w).0 ≡ err e)) × Fails n (request w).1 v

  -- What `n` attempts from `w` come to.
  unfoldable pub Tried : ℕ → W → Option A × W → Type 0
  Tried n w (none, v) = Fails n w v
  Tried n w (some a, v) = (k : ℕ) × ((u : W) × ((k < n) × (Fails k w u × (request u ≡ (ok a, v)))))

  Tried-suc :
      (n : ℕ) (w : W) (e : Error) (q : Option A × W)
      → (request w).0 ≡ err e
      → Tried n (request w).1 q
      → Tried (suc n) w q
  unfolding Tried Fails
  Tried-suc n w e (none, v) h t = ((e, h), t)
  Tried-suc n w e (some a, v) h (k, (u, (l, (f, g)))) =
      (suc k, (u, (omega arith, (((e, h), f), g))))

  -- The request is made until it succeeds, and at most as often as given: either one attempt
  -- succeeds after fewer failures than that, and its answer is the outcome, or all attempts
  -- fail.
  pub retry-Tried : (n : ℕ) (w : W) → Tried n w (retry request n w)
  unfolding retry Tried Fails
  retry-Tried zero w = refl
  retry-Tried (suc n) w = go (request w).0 refl (retry-Tried n (request w).1)
    where
      go :
          (r : Result Error A)
          → (request w).0 ≡ r
          → Tried n (request w).1 (retry request n (request w).1)
          → Tried
              (suc n)
              w
              (elim r [ ok a ↦ (some a, (request w).1) | err e ↦ retry request n (request w).1 ])
      go (ok a) h t = (zero, (w, (omega arith, (refl, ap (λ r. (r, (request w).1)) h))))
      go (err e) h t = Tried-suc n w e (retry request n (request w).1) h t
