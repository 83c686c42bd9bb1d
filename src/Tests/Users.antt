-- ===== src/Tests/Users.antt =====
-- The users of the load tests of src/bin and src/lib.rs.
use matrix_goose.Prelude.{
  ℕ, ◌+◌, ◌≤◌, ◌-◌, ◌≡◌, refl, Bool, true, false, some, List, [], ◌∷◌, text_eq, arith,
}
use matrix_goose.Exec.{Result, ok, err}
use matrix_goose.Error.{Error, serde_json}
use matrix_goose.LoadTest.Attempts.{retry}
use matrix_goose.LoadTest.Attempts.Retries.{Tried, retry-Tried}
use matrix_goose.Config.{from_secs}
use matrix_goose.LoadTest.Sleep.{
  Clock, ClockLaws, Ends, task_sleep, task_sleep-elapsed, task_sleep-Ends, sleep_loop,
}

-- A server that answers from a list of outcomes.
abbrev request : List Bool → Result Error ℕ × List Bool
request [] = (err serde_json, [])
request (true ∷ w) = (ok 7, w)
request (false ∷ w) = (err serde_json, w)

retry-Tried_example : Tried request 3 (false ∷ true ∷ []) (retry request 3 (false ∷ true ∷ []))
retry-Tried_example = retry-Tried request 3 (false ∷ true ∷ [])

retried : retry request 3 (false ∷ true ∷ []) ≡ (some 7, [])
unfolding retry
retried = refl

-- Reading the clock takes one nanosecond.
abbrev clock : Clock ℕ
clock = record { now = λ w. (w, w + 1); is_canceled = λ w. (false, w); wait = λ d w. w + d }

task_sleep-elapsed_example :
    (u : ℕ) × (((clock.now u).1 ≡ 1007) × (1000 ≤ (clock.now u).0 - (clock.now 5).0))
unfolding task_sleep sleep_loop
task_sleep-elapsed_example = task_sleep-elapsed clock 4 1000 5 1007 refl

abbrev clock_laws : ClockLaws clock
clock_laws = record {
  now-now = λ w. omega arith;
  now-is_canceled = λ w. omega arith;
  now-wait = λ d w. omega arith;
}

task_sleep-Ends_example : Ends clock (from_secs 2) true 0 (task_sleep clock 3 (from_secs 2) true 0)
task_sleep-Ends_example = task_sleep-Ends clock clock_laws 2 (from_secs 2) true 0 (omega arith)
