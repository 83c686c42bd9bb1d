-- ===== src/Media.antt =====
-- Media content and its cache: src/matrix/media.rs. Parameters: the store of media and the requests
-- for content, over a world `W`.
pub mod Cache
use matrix_goose.Prelude.{
  ℕ, ◌/◌, max, Bool, true, false, Option, none, some, String, List, length, ◌≡◌, ◌≢◌,
}
use matrix_goose.Exec.{Result, ok, err}
use matrix_goose.Error.{Error}
use matrix_goose.Config.{Duration, from_secs}
use matrix_goose.Config.Request.{RequestConfig, with_timeout}

abbrev pub Uri : Type 0
Uri = String

pub data MediaSource : Type 0 where
  encrypted plain : Uri → MediaSource

pub data ThumbnailMethod : Type 0 where
  crop scale : ThumbnailMethod

pub record MediaThumbnailSize : Type 0 where
  pub method : ThumbnailMethod
  pub width : ℕ
  pub height : ℕ

pub data MediaFormat : Type 0 where
  file : MediaFormat
  thumbnail : MediaThumbnailSize → MediaFormat

pub record MediaRequest : Type 0 where
  pub source : MediaSource
  pub format : MediaFormat

-- `MediaEventContent`
pub record MediaEventContent : Type 0 where
  pub source : Option MediaSource
  pub thumbnail_source : Option MediaSource

abbrev pub Content : Type 0
Content = List ℕ

-- The store and the homeserver. A request for a URL that is no media URL fails.
pub record MediaClient (W : Type 0) : Type 0 where
  pub get_media_content : MediaRequest → W → Result Error (Option Content) × W
  pub add_media_content : MediaRequest → Content → W → Result Error (Unit {0}) × W
  pub remove_media_content : MediaRequest → W → Result Error (Unit {0}) × W
  pub send_content : Uri → W → Result Error Content × W
  pub send_thumbnail : Uri → MediaThumbnailSize → W → Result Error Content × W

-- The documented behaviour of the store.
pub record MediaLaws {W : Type 0} (M : MediaClient W) : Type 0 where
  -- Looking up changes nothing that is looked up.
  pub get-get :
      (r : MediaRequest) (c : Content) (w w' : W)
      → M.get_media_content r w ≡ (ok (some c), w')
      → M.get_media_content r w' ≡ (ok (some c), w')
  pub get-add :
      (r : MediaRequest) (c : Content) (w w' : W)
      → M.add_media_content r c w ≡ (ok tt, w')
      → M.get_media_content r w' ≡ (ok (some c), w')
  pub get-remove :
      (r : MediaRequest) (w w' : W)
      → M.remove_media_content r w ≡ (ok tt, w')
      → M.get_media_content r w' ≡ (ok none, w')
  pub get-remove_other :
      (r r' : MediaRequest) (c : Content) (w w' : W)
      → r ≢ r'
      → M.remove_media_content r w ≡ (ok tt, w')
      → M.get_media_content r' w ≡ (ok (some c), w)
      → M.get_media_content r' w' ≡ (ok (some c), w')

-- `DEFAULT_UPLOAD_SPEED`, in bytes for a second
abbrev pub default_upload_speed : ℕ
default_upload_speed = 125000

-- `MIN_UPLOAD_REQUEST_TIMEOUT`
abbrev pub min_upload_request_timeout : Duration
min_upload_request_timeout = from_secs 300

-- The settings that `upload` sends its request with.
unfoldable pub upload_config : Content → RequestConfig → RequestConfig
upload_config content config =
    with_timeout
      (max (from_secs (length content / default_upload_speed)) min_upload_request_timeout) config

module _ {W : Type 0} (M : MediaClient W) where
  -- What is sent to the homeserver.
  unfoldable pub fetch : MediaSource → MediaFormat → W → Result Error Content × W
  fetch (encrypted url) format w = M.send_content url w
  fetch (plain uri) (thumbnail size) w = M.send_thumbnail uri size w
  fetch (plain uri) file w = M.send_content uri w

  abbrev pub stored : Content → Result Error (Unit {0}) × W → Result Error Content × W
  stored c (ok _, w) = (ok c, w)
  stored c (err e, w) = (err e, w)

  abbrev pub fetched : MediaRequest → Bool → Result Error Content × W → Result Error Content × W
  fetched r use_cache (err e, w) = (err e, w)
  fetched r true (ok c, w) = stored c (M.add_media_content r c w)
  fetched r false (ok c, w) = (ok c, w)

  abbrev pub looked_up :
      MediaRequest → Bool → Result Error (Option Content) × W → Result Error Content × W
  looked_up r use_cache (err e, w) = (err e, w)
  looked_up r use_cache (ok (some c), w) = (ok c, w)
  looked_up r use_cache (ok none, w) = fetched r use_cache (fetch r.source r.format w)

  unfoldable pub get_media_content : MediaRequest → Bool → W → Result Error Content × W
  get_media_content r true w = looked_up r true (M.get_media_content r w)
  get_media_content r false w = looked_up r false (ok none, w)

  abbrev pub some_content : Result Error Content × W → Result Error (Option Content) × W
  some_content (ok c, w) = (ok (some c), w)
  some_content (err e, w) = (err e, w)

  abbrev pub get_source :
      Option MediaSource → MediaFormat → Bool → W → Result Error (Option Content) × W
  get_source none format use_cache w = (ok none, w)
  get_source (some s) format use_cache w =
      some_content (get_media_content (record { source = s; format = format }) use_cache w)

  abbrev pub remove_source : Option MediaSource → MediaFormat → W → Result Error (Unit {0}) × W
  remove_source none format w = (ok tt, w)
  remove_source (some s) format w =
      M.remove_media_content (record { source = s; format = format }) w

  unfoldable pub get_file : MediaEventContent → Bool → W → Result Error (Option Content) × W
  get_file content use_cache w = get_source content.source file use_cache w

  unfoldable pub remove_file : MediaEventContent → W → Result Error (Unit {0}) × W
  remove_file content w = remove_source content.source file w

  unfoldable pub get_thumbnail :
      MediaEventContent → MediaThumbnailSize → Bool → W → Result Error (Option Content) × W
  get_thumbnail content size use_cache w =
      get_source content.thumbnail_source (thumbnail size) use_cache w

  unfoldable pub remove_thumbnail :
      MediaEventContent → MediaThumbnailSize → W → Result Error (Unit {0}) × W
  remove_thumbnail content size w = remove_source content.source (thumbnail size) w
