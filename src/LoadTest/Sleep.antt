-- ===== src/LoadTest/Sleep.antt =====
-- `task_sleep` of src/lib.rs. Parameters: the clock, in nanoseconds, the flag that cancels the tests,
-- and a wait, which Ctrl-C may end early. The loop has fuel, one unit for each wait.
use matrix_goose.Prelude.{
  ℕ, zero, suc, ◌+◌, ◌-◌, ◌*◌, ◌≤◌, ◌<◌, min, ◌≡◌, refl, Bool, true, false, Option, none, some, ltb,
  if◌then◌else◌, arith,
}
use matrix_goose.Config.{Duration, from_secs}

pub record Clock (W : Type 0) : Type 0 where
  -- `Instant::now()`: reading the clock takes time.
  pub now : W → ℕ × W
  -- `*CANCELED.read().await`
  pub is_canceled : W → Bool × W
  -- `select!` of a sleep and Ctrl-C
  pub wait : Duration → W → W

pub data Slept (W : Type 0) : Type 0 where
  done : W → Slept W
  -- A duration is subtracted from a shorter one.
  panicked : Slept W

module _ {W : Type 0} (C : Clock W) where
  -- Whether the loop is left because the tests are canceled, and the state after looking.
  abbrev pub canceled : Bool → W → Bool × W
  canceled true w = C.is_canceled w
  canceled false w = (false, w)

  -- The loop of `task_sleep`, begun at the time `start`.
  unfoldable pub sleep_loop : ℕ → Duration → Bool → ℕ → W → Option (Slept W)
  sleep_loop zero delay allow_cancel start w = none
  sleep_loop (suc fuel) delay allow_cancel start w =
      let rest = sleep_loop fuel delay allow_cancel start in
      let (t, w1) = C.now w in
      let (stop, w2) = canceled allow_cancel w1 in
      let (u, w3) = C.now w2 in
      if ltb (t - start) delay
      then if stop
        then some (done w2)
        else (if ltb delay (u - start)
            then some panicked
            else rest (C.wait (min (from_secs 1) (delay - (u - start))) w3))
      else some (done w1)

  unfoldable pub task_sleep : ℕ → Duration → Bool → W → Option (Slept W)
  task_sleep fuel delay allow_cancel w = sleep_loop fuel delay allow_cancel (C.now w).0 (C.now w).1

  sleep_loop-elapsed :
      (fuel : ℕ) (delay : Duration) (start : ℕ) (w v : W)
      → sleep_loop fuel delay false start w ≡ some (done v)
      → (u : W) × (((C.now u).1 ≡ v) × (delay ≤ (C.now u).0 - start))
  unfolding sleep_loop
  sleep_loop-elapsed zero delay start w v h = cc
  sleep_loop-elapsed (suc fuel) delay start w v h =
      go (ltb ((C.now w).0 - start) delay) (ltb delay ((C.now (C.now w).1).0 - start)) refl
        (λ x. sleep_loop-elapsed fuel delay start x v) h
    where
      waited : W
      waited =
          let (u, w3) = C.now (C.now w).1 in C.wait (min (from_secs 1) (delay - (u - start))) w3

      go :
          (a b : Bool)
          → ltb ((C.now w).0 - start) delay ≡ a
          → ((x : W)
              → sleep_loop fuel delay false start x ≡ some (done v)
              → (u : W) × (((C.now u).1 ≡ v) × (delay ≤ (C.now u).0 - start)))
          → (if a
              then if false
                then some (done (C.now w).1)
                else (if b then some panicked else sleep_loop fuel delay false start waited)
              else some (done (C.now w).1))
            ≡ some (done v)
          → (u : W) × (((C.now u).1 ≡ v) × (delay ≤ (C.now u).0 - start))
      go true true e rec k = cc
      go true false e rec k = rec waited k
      go false b e rec k = (w, (cc, ground (arith, e)))

  -- A sleep that may not be canceled returns only after a reading of the clock at which the whole
  -- delay has elapsed since the start, however often it was interrupted.
  pub task_sleep-elapsed :
      (fuel : ℕ) (delay : Duration) (w v : W)
      → task_sleep fuel delay false w ≡ some (done v)
      → (u : W) × (((C.now u).1 ≡ v) × (delay ≤ (C.now u).0 - (C.now w).0))
  unfolding task_sleep
  task_sleep-elapsed fuel delay w v h = sleep_loop-elapsed fuel delay (C.now w).0 (C.now w).1 v h

  -- A clock that does not run backwards, and waits that last as long as they are asked to, as they do
  -- without a Ctrl-C.
  pub record ClockLaws : Type 0 where
    pub now-now : (w : W) → (C.now w).0 ≤ (C.now (C.now w).1).0
    pub now-is_canceled : (w : W) → (C.now w).0 ≤ (C.now (C.is_canceled w).1).0
    pub now-wait : (d : Duration) (w : W) → (C.now w).0 + d ≤ (C.now (C.wait d (C.now w).1)).0

  -- One wait of a second, or of what is left of the delay `d`.
  less :
      (d n t u v s : ℕ)
      → s ≤ t
      → t ≤ u
      → u + min (from_secs 1) (d - (u - s)) ≤ v
      → d ≤ suc n * from_secs 1 + (t - s)
      → d ≤ n * from_secs 1 + (v - s)
  less d n t u v s a b c h = omega arith

  -- A sleep panics only after a reading of the clock before the end of the delay whose next reading is
  -- beyond it.
  abbrev pub Overshot : Duration → Bool → ℕ → Slept W → Type 0
  Overshot delay allow_cancel start (done v) = Unit
  Overshot delay allow_cancel start panicked =
      (w : W) × ((C.now w).0 - start < delay)
      × (delay < (C.now (canceled allow_cancel (C.now w).1).1).0 - start)

  abbrev pub Ends : Duration → Bool → ℕ → Option (Slept W) → Type 0
  Ends delay allow_cancel start o =
      (r : Slept W) × (o ≡ some r) × Overshot delay allow_cancel start r

  module _ (L : ClockLaws) where
    now-canceled :
        (allow_cancel : Bool) (w : W) → (C.now w).0 ≤ (C.now (canceled allow_cancel w).1).0
    now-canceled true w = L.now-is_canceled w
    now-canceled false w = omega arith

    sleep_loop-Ends :
        (n : ℕ) (delay : Duration) (allow_cancel : Bool) (start : ℕ) (w : W)
        → start ≤ (C.now w).0
        → delay ≤ n * from_secs 1 + ((C.now w).0 - start)
        → Ends delay allow_cancel start (sleep_loop (suc n) delay allow_cancel start w)
    unfolding sleep_loop
    sleep_loop-Ends zero delay allow_cancel start w l h =
        rw (at_end, sleep_loop) (done (C.now w).1, refl, tt)
      where
        at_end : ltb ((C.now w).0 - start) delay ≡ false
        at_end = ground arith
    sleep_loop-Ends (suc n) delay allow_cancel start w l h =
        go (ltb ((C.now w).0 - start) delay) (canceled allow_cancel (C.now w).1).0
          (ltb delay ((C.now after).0 - start)) refl refl
          (λ e.
            sleep_loop-Ends n delay allow_cancel start waited (omega (arith, later, waits))
              (less delay n (C.now w).0 (C.now after).0 (C.now waited).0 start l later waits h))
      where
        after : W
        after = (canceled allow_cancel (C.now w).1).1

        rest : Duration
        rest = min (from_secs 1) (delay - ((C.now after).0 - start))

        waited : W
        waited = C.wait rest (C.now after).1

        later : (C.now w).0 ≤ (C.now after).0
        later = omega (arith, L.now-now w, now-canceled allow_cancel (C.now w).1)

        waits : (C.now after).0 + rest ≤ (C.now waited).0
        waits = L.now-wait rest after

        go :
            (a b c : Bool)
            → ltb ((C.now w).0 - start) delay ≡ a
            → ltb delay ((C.now after).0 - start) ≡ c
            → (c ≡ false
                → Ends delay allow_cancel start
                    (sleep_loop (suc n) delay allow_cancel start waited))
            → Ends delay allow_cancel start (
                if a
                then if b
                  then some (done after)
                  else (if c
                      then some panicked
                      else sleep_loop (suc n) delay allow_cancel start waited)
                else some (done (C.now w).1))
        go false b c d e rec = (done (C.now w).1, refl, tt)
        go true true c d e rec = (done after, refl, tt)
        go true false true d e rec = (panicked, refl, (w, ground (arith, d), ground (arith, e)))
        go true false false d e rec = rec refl

    -- Without a Ctrl-C a sleep comes to an end within one round for each second of the delay begun, and
    -- one. It returns, or it panics, and it panics only if the clock was before the end of the delay
    -- at a reading and beyond it at the next, in the same round.
    pub task_sleep-Ends :
        (n : ℕ) (delay : Duration) (allow_cancel : Bool) (w : W)
        → delay ≤ n * from_secs 1
        → Ends delay allow_cancel (C.now w).0 (task_sleep (suc n) delay allow_cancel w)
    unfolding task_sleep
    task_sleep-Ends n delay allow_cancel w h =
        sleep_loop-Ends n delay allow_cancel (C.now w).0 (C.now w).1 (L.now-now w) (omega arith)
