-- ===== src/Sync/Loop/Ends.antt =====
-- How the sync loop ends (src/matrix/mod.rs, `sync_with_result_callback` and
-- `sync_with_callback`).
use matrix_goose.Prelude.{
  ◌≡◌, refl, subst, ℕ, zero, suc, ◌+◌, ◌<◌, Option, none, some, List, [], ◌∷◌, length, arith,
}
use matrix_goose.Exec.{Result, ok, err}
use matrix_goose.Error.{Error}
use matrix_goose.Config.Sync.{SyncSettings}
use matrix_goose.Sync.Loop.{
  LoopCtrl, continue_sync, break_sync, SyncClient, SyncResponse, Callback, sync_once, with_result,
  sync_loop_helper, Looping, Round, again, done, next_round, sync_round, sync_loop, checked,
  started, sync_with_callback, sync_with_result_callback,
}
use matrix_goose.Sync.Loop.Tokens.{Reached, here, next, sync_result}

module _ {W Filter : Type 0} (C : SyncClient W Filter) where
  abbrev Results : Type 0
  Results = List (Result Error (SyncResponse C.Processed))

  -- The loop, with fuel for `n` syncs more after `k`, began with `l0` and came to the outcome.
  unfoldable pub Ends : Callback C → Looping C → ℕ → Option (Result Error (Unit {0}) × W) → Type 0
  Ends callback l0 n none =
      (rs : Results) × ((l : Looping C) × (Reached C callback l0 rs l × (length rs ≡ n)))
  Ends callback l0 n (some (r, w)) =
      (rs : Results) × ((l : Looping C) × (Reached C callback l0 rs l
          × ((sync_round C callback l ≡ done r w) × (length rs < n))))

  sync_loop-Ends_from :
      (callback : Callback C) (l0 : Looping C) (n k : ℕ) (rs : Results) (l : Looping C)
      → Reached C callback l0 rs l
      → length rs ≡ k
      → Ends callback l0 (k + n) (sync_loop C n callback l)
  unfolding Ends sync_loop
  sync_loop-Ends_from callback l0 zero k rs l R e = (rs, (l, (R, omega arith)))
  sync_loop-Ends_from callback l0 (suc n) k rs l R e = go (sync_round C callback l) refl (λ l' h.
      sync_loop-Ends_from callback l0 n (k + 1) (sync_result C l ∷ rs) l' (next R h) (omega arith))
    where
      go :
          (q : Round C)
          → sync_round C callback l ≡ q
          → ((l' : Looping C)
              → sync_round C callback l ≡ again l'
              → Ends callback l0 ((k + 1) + n) (sync_loop C n callback l'))
          → Ends callback l0
              (k + suc n)
              (elim q [ again l' ↦ sync_loop C n callback l' | done r w ↦ some (r, w) ])
      go (again l') h rec =
          subst (λ m. Ends callback l0 m (sync_loop C n callback l')) (omega arith) (rec l' h)
      go (done r w) h rec = (rs, (l, (R, (h, omega arith))))

  sync_loop-Ends :
      (callback : Callback C) (l0 : Looping C) (n : ℕ)
      → Ends callback l0 n (sync_loop C n callback l0)
  sync_loop-Ends callback l0 n =
      subst (λ m. Ends callback l0 m (sync_loop C n callback l0)) (omega arith)
        (sync_loop-Ends_from callback l0 n 0 [] l0 here refl)

  -- Every sync of the list succeeded.
  abbrev pub AllOk : Results → Type 0
  AllOk [] = Unit
  AllOk (ok r ∷ rs) = AllOk rs
  AllOk (err e ∷ rs) = ⊥

  -- How a round with the callback of `sync_with_callback` ends, by the result of its sync.
  abbrev Checked : Result Error (SyncResponse C.Processed) → Round C → Type 0
  Checked r (again l) = AllOk (r ∷ [])
  Checked (ok r) (done o w) = o ≡ ok tt
  Checked (err e) (done o w) = o ≡ err e

  sync_round-Checked :
      (callback : SyncResponse C.Processed → W → LoopCtrl × W) (l : Looping C)
      → Checked (sync_result C l) (sync_round C (checked C callback) l)
  unfolding sync_round sync_loop_helper checked
  sync_round-Checked callback l = go (sync_once C l.settings l.world).0
    where
      stop :
          (p : LoopCtrl × W) (s : SyncSettings Filter) (r : SyncResponse C.Processed)
          → Checked (ok r) (next_round C s l.last_sync_time (ok p.0, p.1))
      stop (continue_sync, w) s r = tt
      stop (break_sync, w) s r = refl

      go :
          (r : Result Error (SyncResponse C.Processed))
          → Checked r (
              next_round C
                (with_result C r l.settings)
                l.last_sync_time
                (checked C callback r (sync_once C l.settings l.world).1))
      go (ok r) = stop (callback r (sync_once C l.settings l.world).1) _ r
      go (err e) = refl

  AllOk-cons :
      (r : Result Error (SyncResponse C.Processed)) (rs : Results)
      → AllOk (r ∷ [])
      → AllOk rs
      → AllOk (r ∷ rs)
  AllOk-cons (ok r) rs h k = k
  AllOk-cons (err e) rs h k = h

  Reached-AllOk :
      (callback : SyncResponse C.Processed → W → LoopCtrl × W) {l0 l : Looping C} {rs : Results}
      → Reached C (checked C callback) l0 rs l
      → AllOk rs
  Reached-AllOk callback here = tt
  Reached-AllOk callback (next {rs} {l} {l'} R h) =
      AllOk-cons (sync_result C l) rs
        (subst (Checked (sync_result C l)) h (sync_round-Checked callback l))
        (Reached-AllOk callback R)

  -- What the method answers when the last sync answered `r`.
  abbrev pub Answers : Result Error (SyncResponse C.Processed) → Result Error (Unit {0}) → Type 0
  Answers (ok r) o = o ≡ ok tt
  Answers (err e) o = o ≡ err e

  Answers-done :
      (r : Result Error (SyncResponse C.Processed)) (o : Result Error (Unit {0})) (w : W)
      → Checked r (done o w)
      → Answers r o
  Answers-done (ok r) o w h = h
  Answers-done (err e) o w h = h

  pub sync_with_callback-Answers :
      (n : ℕ) (s : SyncSettings Filter) (callback : SyncResponse C.Processed → W → LoopCtrl × W)
      (w w' : W) (o : Result Error (Unit {0}))
      → sync_with_callback C n s callback w ≡ some (o, w')
      → (rs : Results) × ((l : Looping C) × (Reached C (checked C callback) (started C s w) rs l
            × ((sync_round C (checked C callback) l ≡ done o w')
                × (AllOk rs × Answers (sync_result C l) o))))
  unfolding sync_with_callback sync_with_result_callback Ends
  sync_with_callback-Answers n s callback w w' o h =
      let (rs, (l, (R, (d, short)))) =
        subst (Ends (checked C callback) (started C s w) n) h
          (sync_loop-Ends (checked C callback) (started C s w) n) in
      (
        rs,
        (
          l,
          (
            R,
            (
              d,
              (
                Reached-AllOk callback R,
                Answers-done (sync_result C l) o w'
                    (subst (Checked (sync_result C l)) d (sync_round-Checked callback l)),
              ),
            ),
          ),
        ),
      )
