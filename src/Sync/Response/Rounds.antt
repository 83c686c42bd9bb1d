-- ===== src/Sync/Response/Rounds.antt =====
-- The rounds of handlers that an answer of a sync leads to (src/matrix/sync.rs,
-- `handle_sync_response`).
use mathlib.Core.List.{foldl-append}
use mathlib.Core.Path.{fun_ext}
use matrix_goose.Prelude.{◌≡◌, refl, sym, ◌∙◌, ap, subst, List, [], ◌∷◌, ◌++◌}
use matrix_goose.Exec.{Result, ok, err, Exec, modify, for_each, continue, ◌>>◌}
use matrix_goose.Error.{Error}
use matrix_goose.EventHandler.Dispatch.{Env, Round, Dispatch, Handlers}
use matrix_goose.EventHandler.Dispatch.Plan.{flat_map, run_rounds}
use matrix_goose.Sync.Response.{Synced, converted, dispatched}

module _ (V : Env) (run_calls : Handlers V) where
  -- If the call succeeds, it changes the dispatch by `g`.
  unfoldable pub Does :
      (Dispatch V → Dispatch V) → Synced V → Result Error (Unit {0}) × Synced V → Type 0
  Does g s (ok _, t) = t.dispatch ≡ g s.dispatch
  Does g s (err e, t) = Unit

  abbrev pub Doing : (Dispatch V → Dispatch V) → Exec Error (Synced V) (Unit {0}) → Type 0
  Doing g m = (s : Synced V) → Does g s (m s)

  -- If the call succeeds, it runs these rounds.
  abbrev pub Running : List (Round V) → Exec Error (Synced V) (Unit {0}) → Type 0
  Running qs m = Doing (run_rounds V run_calls qs) m

  pub Doing-then :
      (f g : Dispatch V → Dispatch V) (m n : Exec Error (Synced V) (Unit {0}))
      → Doing f m
      → Doing g n
      → Doing (λ d. g (f d)) (m >> n)
  unfolding Does
  Doing-then f g m n h k s = go (m s) (h s) (λ t. k t)
    where
      after :
          (t : Synced V)
          → t.dispatch ≡ f s.dispatch
          → (p : Result Error (Unit {0}) × Synced V) → Does g t p
          → Does (λ d. g (f d)) s p
      after t e (ok v, x) d = d ∙ ap g e
      after t e (err v, x) d = tt

      go :
          (q : Result Error (Unit {0}) × Synced V)
          → Does f s q
          → ((t : Synced V) → Does g t (n t))
          → Does (λ d. g (f d)) s (continue q.0 (λ _. n) q.1)
      go (ok u, t) e l = after t e (n t) (l t)
      go (err e, t) f' l = tt

  pub Running-then :
      (a b : List (Round V)) (m n : Exec Error (Synced V) (Unit {0}))
      → Running a m
      → Running b n
      → Running (a ++ b) (m >> n)
  Running-then a b m n h k =
      subst (λ g. Doing g (m >> n)) (fun_ext (λ d. sym (foldl-append _ d a b)))
        (Doing-then (run_rounds V run_calls a) (run_rounds V run_calls b) m n h k)

  -- Rounds before a call that makes rounds and then does `g`.
  pub Running-first :
      (a b : List (Round V)) (g : Dispatch V → Dispatch V) (m n : Exec Error (Synced V) (Unit {0}))
      → Running a m
      → Doing (λ d. g (run_rounds V run_calls b d)) n
      → Doing (λ d. g (run_rounds V run_calls (a ++ b) d)) (m >> n)
  Running-first a b g m n h k =
      subst (λ f. Doing f (m >> n)) (fun_ext (λ d. ap g (sym (foldl-append _ d a b))))
        (Doing-then (run_rounds V run_calls a) (λ d. g (run_rounds V run_calls b d)) m n h k)

  pub Running-dispatched :
      (qs : List (Round V)) (o : Dispatch V → Result V.JsonError (Unit {0}))
      (m : Exec V.JsonError (Dispatch V) (Unit {0}))
      → ((d : Dispatch V) → m d ≡ (o d, run_rounds V run_calls qs d))
      → Running qs (dispatched V m)
  unfolding Does
  Running-dispatched qs o m h s = go (converted V (m s.dispatch).0) (ap (λ p. p.1) (h s.dispatch))
    where
      go :
          (r : Result Error (Unit {0}))
          → (m s.dispatch).1 ≡ run_rounds V run_calls qs s.dispatch
          → Does (run_rounds V run_calls qs) s (r, record s { dispatch = (m s.dispatch).1 })
      go (ok u) e = e
      go (err x) e = tt

  pub Running-for_each :
      {A : Type 0} (qs : A → List (Round V)) (body : A → Exec Error (Synced V) (Unit {0}))
      → ((x : A) → Running (qs x) (body x))
      → (xs : List A) → Running (flat_map qs xs) (for_each body xs)
  unfolding Does
  Running-for_each qs body h [] s = refl
  Running-for_each qs body h (x ∷ xs) s =
      Running-then (qs x) (flat_map qs xs) (body x) (for_each body xs) (h x)
        (Running-for_each qs body h xs) s

  pub Running-modify :
      (f : Synced V → Synced V)
      → ((s : Synced V) → (f s).dispatch ≡ s.dispatch)
      → Running [] (modify f)
  unfolding Does
  Running-modify f h s = h s
