-- ===== src/Config.antt =====
-- The settings of requests and of the sync: src/matrix/config. Durations are in nanoseconds.
pub mod Request
pub mod Sync
use matrix_goose.Prelude.{ℕ, ◌*◌}

abbrev pub Duration : Type 0
Duration = ℕ

abbrev pub from_secs : ℕ → Duration
from_secs n = n * 1000000000
