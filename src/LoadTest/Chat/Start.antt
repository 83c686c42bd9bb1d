-- ===== src/LoadTest/Chat/Start.antt =====
-- How a user of src/bin/chat.rs starts and stops: `on_start` with its task that syncs, and `on_stop`.
-- The loops have fuel, one unit for each round.
use mathlib.Core.Option
use matrix_goose.Prelude.{
  ℕ, zero, suc, ◌≡◌, refl, ◌∙◌, ap, Bool, true, false, Option, none, some, String, if◌then◌else◌,
}
use matrix_goose.Exec.{Result, ok, err}
use matrix_goose.Error.{Error}
use matrix_goose.Config.Sync.{SyncSettings, with_token}
use matrix_goose.LoadTest.Chat.{Ended, finished, panicked}
use matrix_goose.LoadTest.Attempts.{User, retry, max_retries}
use matrix_goose.Sync.Loop.{
  SyncClient, SyncResponse, LoopCtrl, continue_sync, break_sync, Looping, again, done, sync_once,
  with_result, sync_loop_helper, delay_sync, next_round, sync_round, sync_loop,
}

module _ {W Filter : Type 0} (C : SyncClient W Filter) (is_canceled : W → Bool) where
  abbrev pub with_answer :
      Result Error (SyncResponse C.Processed) → SyncSettings Filter → SyncSettings Filter
  with_answer (ok r) s = with_token r.next_batch s
  with_answer (err e) s = s

  -- The loop of the task that `on_start` spawns.
  unfoldable pub sync_forever : ℕ → SyncSettings Filter → Option ℕ → W → Option W
  unfolding with_token
  sync_forever zero s t w = none
  sync_forever (suc fuel) s t w =
      let rest = sync_forever fuel in
      let (r, w') = sync_once C s w in
      let (t', w'') = delay_sync C t w' in
      if is_canceled w' then some w' else rest (with_answer r s) t' w''

  -- A callback that goes on after any answer until the tests are canceled.
  abbrev pub until_canceled :
      Result Error (SyncResponse C.Processed) → W → Result Error LoopCtrl × W
  until_canceled r w = (ok (if is_canceled w then break_sync else continue_sync), w)

  abbrev looping : SyncSettings Filter → Option ℕ → W → Looping C
  looping s t w = record { settings = s; last_sync_time = t; world = w }

  abbrev world_of : Option (Result Error (Unit {0}) × W) → Option W
  world_of o = Option.map (λ q. q.1) o

  same_answer :
      (r : Result Error (SyncResponse C.Processed)) (s : SyncSettings Filter)
      → with_answer r s ≡ with_result C r s
  unfolding with_token
  same_answer (ok r) s = refl
  same_answer (err e) s = refl

  -- The task of a chatting user syncs exactly as the client's own loop does with a callback that goes
  -- on after any answer, an error too, until the tests are canceled: round by round, with the same
  -- settings, waits and effects, and to the same end.
  pub sync_forever-sync_loop :
      (fuel : ℕ) (s : SyncSettings Filter) (t : Option ℕ) (w : W)
      → sync_forever fuel s t w ≡ world_of (sync_loop C fuel until_canceled (looping s t w))
  unfolding sync_forever sync_loop sync_round sync_loop_helper
  sync_forever-sync_loop zero s t w = refl
  sync_forever-sync_loop (suc fuel) s t w =
      go (is_canceled w') (same_answer r s)
        (sync_forever-sync_loop fuel (with_answer r s) (delay_sync C t w').0 (delay_sync C t w').1)
    where
      r : Result Error (SyncResponse C.Processed)
      r = (sync_once C s w).0

      w' : W
      w' = (sync_once C s w).1

      next : Option W
      next = sync_forever fuel (with_answer r s) (delay_sync C t w').0 (delay_sync C t w').1

      go :
          (b : Bool)
          → with_answer r s ≡ with_result C r s
          → next
            ≡ world_of (
                sync_loop C fuel until_canceled
                  (looping (with_answer r s) (delay_sync C t w').0 (delay_sync C t w').1))
          → (if b then some w' else next)
            ≡ world_of
                (elim (next_round C
                  (with_result C r s)
                  t
                  (ok (if b then break_sync else continue_sync), w')) [
                    | again l' ↦ sync_loop C fuel until_canceled l'
                    | done q v ↦ some (q, v)
                  ])
      go true same rest = refl
      go false same rest =
          rest
          ∙ ap
              (λ x. world_of (
                sync_loop C fuel until_canceled
                  (looping x (delay_sync C t w').0 (delay_sync C t w').1)))
              same

-- What a user does when it starts and stops.
pub record Starting (W : Type 0) : Type 0 where
  -- `GooseMatrixClient::new`
  pub new_client : W → Result Error (Unit {0}) × W
  -- The user's row of `users.csv`.
  pub csv_user : W → Option User
  pub login_username : String → String → W → Result Error (Unit {0}) × W
  pub add_event_handler : W → W
  -- `tokio::spawn`, and the session data with its handle.
  pub spawn : W → W
  pub set_canceled : W → W
  pub has_session : W → Bool
  -- `sync_forever_handle.is_finished()`
  pub is_finished : W → Bool
  -- `task_sleep(1.0, false)`; `none` is its panic.
  pub pause : W → Option W

module _ {W : Type 0} (T : Starting W) where
  abbrev pub logged_in : Option (Unit {0}) × W → W
  logged_in (none, w) = w
  logged_in (some u, w) = T.spawn (T.add_event_handler w)

  abbrev pub start_as : Option User → W → Option W
  start_as none w = none
  start_as (some u) w =
      some (logged_in (retry (T.login_username u.username u.password) max_retries w))

  abbrev pub started : Result Error (Unit {0}) × W → Option W
  started (err e, w) = none
  started (ok u, w) = start_as (T.csv_user w) w

  -- `on_start`; `none` is a panic.
  unfoldable pub on_start : W → Option W
  on_start w = started (T.new_client w)

  abbrev pub waited_on : (W → Option (Ended W)) → Option W → Option (Ended W)
  waited_on rest none = some panicked
  waited_on rest (some w) = rest w

  -- The loop of `on_stop` that waits for the task; `none` is a loop that still waits.
  unfoldable pub wait_finished : ℕ → W → Option (Ended W)
  wait_finished zero w = none
  wait_finished (suc fuel) w =
      let rest = wait_finished fuel in
      if T.is_finished w then some (finished w) else waited_on rest (T.pause w)

  unfoldable pub on_stop : ℕ → W → Option (Ended W)
  unfolding wait_finished
  on_stop fuel w =
      let waiting = wait_finished fuel (T.set_canceled w) in
      if T.has_session w then waiting else some (finished w)
