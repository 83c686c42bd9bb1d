-- ===== src/Sync/Loop/Tokens.antt =====
-- Which settings each sync of the loop is made with, and how the loop ends (src/matrix/mod.rs,
-- `sync_with_result_callback` and `sync_with_callback`).
use matrix_goose.Prelude.{◌≡◌, refl, sym, ◌∙◌, ap, ℕ, Option, some, String, List, [], ◌∷◌}
use matrix_goose.Exec.{Result, ok, err}
use matrix_goose.Error.{Error}
use matrix_goose.Config.Sync.{SyncSettings}
use matrix_goose.Sync.Loop.{
  LoopCtrl, continue_sync, break_sync, SyncClient, SyncResponse, Callback, sync_once, with_result,
  sync_loop_helper, Looping, Round, again, done, next_round, sync_round,
}

module _ {W Filter : Type 0} (C : SyncClient W Filter) where
  -- The result of the sync that a round begins with.
  abbrev pub sync_result : Looping C → Result Error (SyncResponse C.Processed)
  sync_result l = (sync_once C l.settings l.world).0

  -- The loop with `callback` comes from `l0` to a state, after syncs with the results listed, the
  -- last one first.
  pub data Reached (callback : Callback C) (l0 : Looping C)
      : List (Result Error (SyncResponse C.Processed)) → Looping C → Type 0 where
    here : Reached callback l0 [] l0
    next :
        {rs : List (Result Error (SyncResponse C.Processed))} {l l' : Looping C}
        → Reached callback l0 rs l
        → sync_round C callback l ≡ again l'
        → Reached callback l0 (sync_result l ∷ rs) l'

  -- The token of the last sync that succeeded.
  abbrev pub last_batch :
      Option String → List (Result Error (SyncResponse C.Processed)) → Option String
  last_batch token [] = token
  last_batch token (ok r ∷ rs) = some r.next_batch
  last_batch token (err e ∷ rs) = last_batch token rs

  abbrev settings_or : SyncSettings Filter → Round C → SyncSettings Filter
  settings_or s (again l) = l.settings
  settings_or s (done r w) = s

  next_round-settings :
      (s : SyncSettings Filter) (t : Option ℕ) (q : Result Error LoopCtrl × W) (l' : Looping C)
      → next_round C s t q ≡ again l'
      → l'.settings ≡ s
  next_round-settings s t (err e, w) l' h = cc
  next_round-settings s t (ok break_sync, w) l' h = cc
  next_round-settings s t (ok continue_sync, w) l' h = sym (ap (settings_or s) h)

  sync_round-settings :
      (callback : Callback C) (l l' : Looping C)
      → sync_round C callback l ≡ again l'
      → l'.settings ≡ with_result C (sync_result l) l.settings
  unfolding sync_round sync_loop_helper
  sync_round-settings callback l l' h = next_round-settings _ _ _ l' h

  with_result-token :
      (r : Result Error (SyncResponse C.Processed))
      (rs : List (Result Error (SyncResponse C.Processed))) (s s0 : SyncSettings Filter)
      → s ≡ record s0 { token = last_batch s0.token rs }
      → with_result C r s ≡ record s0 { token = last_batch s0.token (r ∷ rs) }
  with_result-token (ok r) rs s s0 h = rw h refl
  with_result-token (err e) rs s s0 h = h

  -- Each sync of the loop is made with the settings that the loop began with, but for the token,
  -- which is the one of the last sync that succeeded, if any.
  pub Reached-settings :
      {callback : Callback C} {l0 l : Looping C}
      {rs : List (Result Error (SyncResponse C.Processed))}
      → Reached callback l0 rs l
      → l.settings ≡ record (l0.settings) { token = last_batch l0.settings.token rs }
  Reached-settings here = refl
  Reached-settings {callback} {l0} (next {rs} {l} {l'} R h) =
      sync_round-settings callback l l' h
      ∙ with_result-token (sync_result l) rs l.settings l0.settings (Reached-settings R)
