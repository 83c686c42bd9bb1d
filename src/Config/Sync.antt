-- ===== src/Config/Sync.antt =====
-- src/matrix/config/sync.rs. Filters are a parameter.
use matrix_goose.Prelude.{Bool, false, Option, none, some, String}
use matrix_goose.Config.{Duration, from_secs}

-- `DEFAULT_SYNC_TIMEOUT`
abbrev pub default_sync_timeout : Duration
default_sync_timeout = from_secs 30

pub data PresenceState : Type 0 where
  offline online unavailable : PresenceState

pub record SyncSettings (Filter : Type 0) : Type 0 where
  pub filter : Option Filter
  pub timeout : Option Duration
  pub token : Option String
  pub full_state : Bool
  pub set_presence : PresenceState

abbrev pub new_sync_settings : {Filter : Type 0} → SyncSettings Filter
new_sync_settings = record {
  filter = none;
  timeout = some default_sync_timeout;
  token = none;
  full_state = false;
  set_presence = online;
}

module _ {Filter : Type 0} where
  unfoldable pub with_token : String → SyncSettings Filter → SyncSettings Filter
  with_token v c = record c { token = some v }

  unfoldable pub with_timeout : Duration → SyncSettings Filter → SyncSettings Filter
  with_timeout v c = record c { timeout = some v }

  unfoldable pub with_filter : Filter → SyncSettings Filter → SyncSettings Filter
  with_filter v c = record c { filter = some v }

  unfoldable pub with_full_state : Bool → SyncSettings Filter → SyncSettings Filter
  with_full_state v c = record c { full_state = v }

  unfoldable pub with_presence : PresenceState → SyncSettings Filter → SyncSettings Filter
  with_presence v c = record c { set_presence = v }
