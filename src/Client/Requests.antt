-- ===== src/Client/Requests.antt =====
-- The methods of the client in src/matrix/mod.rs that make one request and send it. Parameters: the
-- answers, and `send`, over a world `W`.
use matrix_goose.Prelude.{ℕ, ◌^◌, ltb, Option, none, some, String, List, if◌then◌else◌}
use matrix_goose.Exec.{Result}
use matrix_goose.Error.{Error, HttpResult, or_http}
use matrix_goose.Config.Request.{RequestConfig, short_retry}

-- The requests. `Auth` is the data of the user-interactive authentication, `Query` the request for a
-- search of rooms, `Pusher` a pusher.
pub data ClientRequest (Auth Query Pusher : Type 0) : Type 0 where
  -- The limit is the endpoint's own where there is none.
  search_users_request : String → Option ℕ → ClientRequest Auth Query Pusher
  get_alias_request : String → ClientRequest Auth Query Pusher
  get_login_types_request : ClientRequest Auth Query Pusher
  get_public_rooms_request :
      Option ℕ → Option String → Option String → ClientRequest Auth Query Pusher
  get_public_rooms_filtered_request : Query → ClientRequest Auth Query Pusher
  get_devices_request : ClientRequest Auth Query Pusher
  delete_devices_request : List String → Option Auth → ClientRequest Auth Query Pusher
  update_device_request : String → Option String → ClientRequest Auth Query Pusher
  whoami_request : ClientRequest Auth Query Pusher
  logout_request : ClientRequest Auth Query Pusher
  set_pusher_request : Pusher → ClientRequest Auth Query Pusher
  get_profile_request : String → ClientRequest Auth Query Pusher

pub record Requests (W Auth Query Pusher : Type 0) : Type 1 where
  pub Answer : ClientRequest Auth Query Pusher → Type 0
  pub send :
      (request : ClientRequest Auth Query Pusher)
      → Option RequestConfig
      → W
      → HttpResult (Answer request) × W

module _ {W Auth Query Pusher : Type 0} (C : Requests W Auth Query Pusher) where
  -- `UInt::new(limit)`
  abbrev uint : ℕ → Option ℕ
  uint n = if ltb n (2 ^ 53) then some n else none

  unfoldable search_users :
      (term : String) (limit : ℕ)
      → W
      → HttpResult (C.Answer (search_users_request term (uint limit))) × W
  search_users term limit = C.send (search_users_request term (uint limit)) none

  unfoldable resolve_room_alias :
      (room_alias : String) → W → HttpResult (C.Answer (get_alias_request room_alias)) × W
  resolve_room_alias room_alias = C.send (get_alias_request room_alias) none

  unfoldable get_login_types : W → HttpResult (C.Answer get_login_types_request) × W
  get_login_types = C.send get_login_types_request none

  unfoldable public_rooms :
      (limit : Option ℕ) (since server : Option String)
      → W
      → HttpResult (C.Answer (get_public_rooms_request limit since server)) × W
  public_rooms limit since server = C.send (get_public_rooms_request limit since server) none

  unfoldable public_rooms_filtered :
      (request : Query) → W → HttpResult (C.Answer (get_public_rooms_filtered_request request)) × W
  public_rooms_filtered request = C.send (get_public_rooms_filtered_request request) none

  unfoldable devices : W → HttpResult (C.Answer get_devices_request) × W
  devices = C.send get_devices_request none

  unfoldable delete_devices :
      (devices : List String) (auth_data : Option Auth)
      → W
      → HttpResult (C.Answer (delete_devices_request devices auth_data)) × W
  delete_devices devices auth_data = C.send (delete_devices_request devices auth_data) none

  unfoldable rename_device :
      (device_id display_name : String)
      → W
      → HttpResult (C.Answer (update_device_request device_id (some display_name))) × W
  rename_device device_id display_name =
      C.send (update_device_request device_id (some display_name)) none

  unfoldable whoami : W → HttpResult (C.Answer whoami_request) × W
  whoami = C.send whoami_request none

  unfoldable logout : W → HttpResult (C.Answer logout_request) × W
  logout = C.send logout_request none

  unfoldable set_pusher :
      (pusher : Pusher) → W → HttpResult (C.Answer (set_pusher_request pusher)) × W
  set_pusher pusher = C.send (set_pusher_request pusher) none

  -- `get_profile`, which is tried again for a short time only
  unfoldable get_profile :
      (user_id : String) → W → Result Error (C.Answer (get_profile_request user_id)) × W
  get_profile user_id w = or_http (C.send (get_profile_request user_id) (some short_retry) w)
