-- ===== src/Sync/Loop/Stops.antt =====
-- When the sync loop stops (src/matrix/mod.rs, `sync_with_result_callback`).
use matrix_goose.Prelude.{◌≡◌, refl, ℕ, zero, suc, ◌<◌, Option, none, some, arith}
use matrix_goose.Exec.{Result, ok, err}
use matrix_goose.Error.{Error}
use matrix_goose.Config.Sync.{SyncSettings}
use matrix_goose.Sync.Loop.{
  LoopCtrl, continue_sync, break_sync, SyncClient, Callback, sync_once, with_result, delay_sync,
  sync_loop_helper, Looping, again, done, next_round, sync_round, sync_loop,
}

module _ {W Filter : Type 0} (C : SyncClient W Filter) (callback : Callback C) where
  -- What the callback answers to the next sync, and the world that it leaves.
  abbrev pub answer_at : Looping C → Result Error LoopCtrl × W
  answer_at l = let (r, w) = sync_once C l.settings l.world in callback r w

  -- The state for the sync after one whose callback left the world `w`.
  abbrev pub after_sync : Looping C → W → Looping C
  after_sync l w =
      let (t, w') = delay_sync C l.last_sync_time w in
      record {
        settings = with_result C (sync_once C l.settings l.world).0 l.settings;
        last_sync_time = t;
        world = w';
      }

  -- After `k` syncs, each of which the callback answered with `Continue`, the state is `l'`.
  abbrev pub Continues : ℕ → Looping C → Looping C → Type 0
  Continues zero l l' = l ≡ l'
  Continues (suc k) l l' =
      (w : W) × (answer_at l ≡ (ok continue_sync, w)) × Continues k (after_sync l w) l'

  -- The callback answered `Break`, and the loop succeeded, or it answered this error.
  abbrev pub Stopped : Looping C → Result Error (Unit {0}) → W → Type 0
  Stopped l (ok u) w = answer_at l ≡ (ok break_sync, w)
  Stopped l (err e) w = answer_at l ≡ (err e, w)

  abbrev pub Stops : ℕ → Looping C → Option (Result Error (Unit {0}) × W) → Type 0
  Stops n l none = (l' : Looping C) × Continues n l l'
  Stops n l (some (r, w)) = (k : ℕ) × (l' : Looping C) × (k < n) × Continues k l l' × Stopped l' r w

  once_more :
      (n : ℕ) (l : Looping C) (w : W) (o : Option (Result Error (Unit {0}) × W))
      → answer_at l ≡ (ok continue_sync, w)
      → Stops n (after_sync l w) o
      → Stops (suc n) l o
  once_more n l w none e (l', h) = (l', (w, e, h))
  once_more n l w (some (r, v)) e (k, l', s, h, d) = (suc k, l', omega arith, (w, e, h), d)

  -- The loop stops after the first sync to which the callback does not answer `Continue`: with success
  -- and the world that the callback left if it answered `Break`, with its error if it failed. That is
  -- after fewer syncs than there was fuel for; the loop runs out of fuel only if the callback answered
  -- `Continue` to as many syncs as that.
  pub sync_loop-Stops : (n : ℕ) (l : Looping C) → Stops n l (sync_loop C n callback l)
  unfolding sync_loop sync_round sync_loop_helper
  sync_loop-Stops zero l = (l, refl)
  sync_loop-Stops (suc n) l = go (answer_at l) refl (λ w. sync_loop-Stops n (after_sync l w))
    where
      settings : SyncSettings Filter
      settings = with_result C (sync_once C l.settings l.world).0 l.settings

      go :
          (q : Result Error LoopCtrl × W)
          → answer_at l ≡ q
          → ((w : W) → Stops n (after_sync l w) (sync_loop C n callback (after_sync l w)))
          → Stops (suc n) l (elim (next_round C settings l.last_sync_time q) [
            | again l' ↦ sync_loop C n callback l'
            | done r w ↦ some (r, w)
          ])
      go (err x, w) e rest = (0, l, omega arith, refl, e)
      go (ok break_sync, w) e rest = (0, l, omega arith, refl, e)
      go (ok continue_sync, w) e rest =
          once_more n l w (sync_loop C n callback (after_sync l w)) e (rest w)
