-- ===== src/Sync/Loop.antt =====
-- The sync loop: `sync_once`, `sync_with_result_callback` and `sync_with_callback` of
-- src/matrix/mod.rs, `sync_loop_helper` and `delay_sync` of src/matrix/sync.rs.
-- The clock is in nanoseconds. Parameters: the request for a sync, what is done with its answer, the
-- clock and the callback, over a world `W`. The loop has fuel, one unit for each sync.
pub mod Tokens
pub mod Stops
pub mod Ends
pub mod Endless
use matrix_goose.Prelude.{
  ℕ, zero, suc, ◌+◌, ◌-◌, Bool, true, false, Option, none, some, String, if◌then◌else◌, leb,
}
use matrix_goose.Exec.{Result, ok, err}
use matrix_goose.Error.{Error, HttpResult, http}
use matrix_goose.Config.{Duration, from_secs}
use matrix_goose.Config.Request.{RequestConfig}
use matrix_goose.Config.Sync.{SyncSettings, PresenceState}

pub data LoopCtrl : Type 0 where
  continue_sync break_sync : LoopCtrl

-- `sync_events::v3::Request`
pub record SyncRequest (Filter : Type 0) : Type 0 where
  pub filter : Option Filter
  pub since : Option String
  pub full_state : Bool
  pub set_presence : PresenceState
  pub timeout : Option Duration

pub record SyncResponse (Processed : Type 0) : Type 0 where
  pub next_batch : String
  pub processed : Processed

-- What the loop uses of the client.
pub record SyncClient (W Filter : Type 0) : Type 1 where
  pub Answer : Type 0
  pub next_batch : Answer → String
  -- What `process_sync` answers.
  pub Processed : Type 0
  pub request_config : W → RequestConfig
  pub send : SyncRequest Filter → RequestConfig → W → HttpResult Answer × W
  pub process_sync : Answer → W → Result Error Processed × W
  -- `self.inner.sync_beat.notify(usize::MAX)`
  pub notify_beat : W → W
  -- `Instant::now()`
  pub now : W → ℕ
  -- One second of sleep.
  pub sleep : W → W
  -- `self.sync_token()`
  pub sync_token : W → Option String

module _ {W Filter : Type 0} (C : SyncClient W Filter) where
  abbrev pub Callback : Type 0
  Callback = Result Error (SyncResponse C.Processed) → W → Result Error LoopCtrl × W

  abbrev pub request_of : SyncSettings Filter → SyncRequest Filter
  request_of s = record {
    filter = s.filter;
    since = s.token;
    full_state = s.full_state;
    set_presence = s.set_presence;
    timeout = s.timeout;
  }

  abbrev pub longer : Option Duration → RequestConfig → RequestConfig
  longer none c = c
  longer (some t) c = record c { timeout = c.timeout + t }

  abbrev processed_as :
      String → Result Error C.Processed × W → Result Error (SyncResponse C.Processed) × W
  processed_as next (err e, w) = (err e, w)
  processed_as next (ok p, w) = (ok (record { next_batch = next; processed = p }), C.notify_beat w)

  abbrev answered : HttpResult C.Answer × W → Result Error (SyncResponse C.Processed) × W
  answered (err e, w) = (err (http e), w)
  answered (ok a, w) = processed_as (C.next_batch a) (C.process_sync a w)

  unfoldable pub sync_once : SyncSettings Filter → W → Result Error (SyncResponse C.Processed) × W
  sync_once s w = answered (C.send (request_of s) (longer s.timeout (C.request_config w)) w)

  -- `sync_settings.token = Some(r.next_batch.clone())`
  abbrev pub with_result :
      Result Error (SyncResponse C.Processed) → SyncSettings Filter → SyncSettings Filter
  with_result (ok r) s = record s { token = some r.next_batch }
  with_result (err e) s = s

  unfoldable pub sync_loop_helper :
      SyncSettings Filter → W → Result Error (SyncResponse C.Processed) × (SyncSettings Filter × W)
  sync_loop_helper s w = let (r, w') = sync_once s w in (r, (with_result r s, w'))

  abbrev since_last : Option ℕ → ℕ → Bool
  since_last none now = false
  since_last (some t) now = leb (now - t) (from_secs 1)

  unfoldable pub delay_sync : Option ℕ → W → Option ℕ × W
  delay_sync last_sync_time w =
      (some (C.now w), if since_last last_sync_time (C.now w) then C.sleep w else w)

  -- The state of the loop between two syncs.
  pub record Looping : Type 0 where
    pub settings : SyncSettings Filter
    pub last_sync_time : Option ℕ
    pub world : W

  -- How a round of the loop ends: with another round, or with the answer of the method.
  pub data Round : Type 0 where
    again : Looping → Round
    done : Result Error (Unit {0}) → W → Round

  abbrev pub next_round : SyncSettings Filter → Option ℕ → Result Error LoopCtrl × W → Round
  next_round s t (err e, w) = done (err e) w
  next_round s t (ok break_sync, w) = done (ok tt) w
  next_round s t (ok continue_sync, w) =
      let (t', w') = delay_sync t w in
      again (record { settings = s; last_sync_time = t'; world = w' })

  -- The body of the loop.
  unfoldable pub sync_round : Callback → Looping → Round
  sync_round callback l =
      let (r, (s, w)) = sync_loop_helper l.settings l.world in
      next_round s l.last_sync_time (callback r w)

  -- The loop, for at most as many rounds as there is fuel.
  unfoldable pub sync_loop : ℕ → Callback → Looping → Option (Result Error (Unit {0}) × W)
  sync_loop zero callback l = none
  sync_loop (suc fuel) callback l =
      let rest = sync_loop fuel callback in
      elim (sync_round callback l) [ again l' ↦ rest l' | done r w ↦ some (r, w) ]

  abbrev pub started : SyncSettings Filter → W → Looping
  started s w = record {
    settings = elim s.token [ none ↦ record s { token = C.sync_token w } | some t ↦ s ];
    last_sync_time = none;
    world = w;
  }

  unfoldable pub sync_with_result_callback :
      ℕ → SyncSettings Filter → Callback → W → Option (Result Error (Unit {0}) × W)
  sync_with_result_callback fuel s callback w = sync_loop fuel callback (started s w)

  -- The callback that `sync_with_callback` makes: an error of a sync ends the loop.
  unfoldable pub checked : (SyncResponse C.Processed → W → LoopCtrl × W) → Callback
  checked callback (err e) w = (err e, w)
  checked callback (ok r) w = let (c, w') = callback r w in (ok c, w')

  unfoldable pub sync_with_callback :
      ℕ
      → SyncSettings Filter
      → (SyncResponse C.Processed → W → LoopCtrl × W)
      → W
      → Option (Result Error (Unit {0}) × W)
  sync_with_callback fuel s callback = sync_with_result_callback fuel s (checked callback)
