-- ===== src/Sync/Loop/Endless.antt =====
-- The syncs that do not end of themselves: `sync` and `sync_stream` of src/matrix/mod.rs.
use matrix_goose.Prelude.{ℕ, zero, suc, ◌≡◌, refl, Option, none, some, List, [], ◌∷◌}
use matrix_goose.Exec.{Result, ok, err}
use matrix_goose.Error.{Error}
use matrix_goose.Config.Sync.{SyncSettings}
use matrix_goose.Sync.Loop.{
  SyncClient, SyncResponse, LoopCtrl, continue_sync, Looping, again, done, sync_once, with_result,
  sync_loop_helper, delay_sync, next_round, sync_round, sync_loop, started,
  sync_with_result_callback, checked, sync_with_callback,
}

module _ {W Filter : Type 0} (C : SyncClient W Filter) where
  -- `|_| async { LoopCtrl::Continue }`
  abbrev go_on : SyncResponse C.Processed → W → LoopCtrl × W
  go_on r w = (continue_sync, w)

  unfoldable pub sync : ℕ → SyncSettings Filter → W → Option (Result Error (Unit {0}) × W)
  sync fuel s w = sync_with_callback C fuel s go_on w

  -- The next item of `sync_stream`, and the stream after it: the wait belongs to the next item, and is
  -- made before it is asked for here.
  unfoldable pub stream_next : Looping C → Result Error (SyncResponse C.Processed) × Looping C
  stream_next l =
      let (r, (s, w)) = sync_loop_helper C l.settings l.world in
      let (t, w') = delay_sync C l.last_sync_time w in
      (r, record { settings = s; last_sync_time = t; world = w' })

  -- `sync_stream`
  unfoldable pub sync_stream : SyncSettings Filter → W → Looping C
  sync_stream s w = started C s w

  -- The first items of a stream.
  abbrev pub items : ℕ → Looping C → List (Result Error (SyncResponse C.Processed))
  items zero l = []
  items (suc n) l = (stream_next l).0 ∷ items n (stream_next l).1

  -- The first error among some items.
  abbrev pub first_error :
      List (Result Error (SyncResponse C.Processed)) → Option (Result Error (Unit {0}))
  first_error [] = none
  first_error (err e ∷ rs) = some (err e)
  first_error (ok a ∷ rs) = first_error rs

  abbrev pub result_of : Option (Result Error (Unit {0}) × W) → Option (Result Error (Unit {0}))
  result_of none = none
  result_of (some (r, w)) = some r

  sync_loop-first_error :
      (fuel : ℕ) (l : Looping C)
      → result_of (sync_loop C fuel (checked C go_on) l) ≡ first_error (items fuel l)
  unfolding sync_loop sync_round sync_loop_helper checked stream_next
  sync_loop-first_error zero l = refl
  sync_loop-first_error (suc fuel) l =
      go (sync_once C l.settings l.world).0 (sync_once C l.settings l.world).1
        (sync_loop-first_error fuel)
    where
      streamed : Result Error (SyncResponse C.Processed) → W → Looping C
      streamed r w =
          let (t, w') = delay_sync C l.last_sync_time w in
          record { settings = with_result C r l.settings; last_sync_time = t; world = w' }

      go :
          (r : Result Error (SyncResponse C.Processed)) (w : W)
          → ((l' : Looping C)
              → result_of (sync_loop C fuel (checked C go_on) l') ≡ first_error (items fuel l'))
          → result_of
              (elim (next_round C
                (with_result C r l.settings)
                l.last_sync_time
                (checked C go_on r w)) [
                  | again l' ↦ sync_loop C fuel (checked C go_on) l'
                  | done x v ↦ some (x, v)
                ])
            ≡ first_error (r ∷ items fuel (streamed r w))
      go (err x) w rest = refl
      go (ok a) w rest = rest (streamed (ok a) w)

  -- `sync` ends exactly with the first error that `sync_stream` yields: on any fuel, it has not ended
  -- if so many items of the stream are all answers, and otherwise it returned the first error among
  -- them.
  pub sync-sync_stream :
      (fuel : ℕ) (s : SyncSettings Filter) (w : W)
      → result_of (sync fuel s w) ≡ first_error (items fuel (sync_stream s w))
  unfolding sync sync_with_callback sync_with_result_callback sync_stream
  sync-sync_stream fuel s w = sync_loop-first_error fuel (started C s w)
