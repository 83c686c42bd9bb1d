-- ===== src/Attachment.antt =====
-- Attachments: src/matrix/attachment.rs, and `upload` and `prepare_attachment_message` of
-- src/matrix/media.rs. Parameter: the request that uploads content. The types of `ruma` are records
-- with the fields that are set here. The generation of thumbnails is not compiled.
pub mod Prepared
use matrix_goose.Prelude.{
  ℕ, Bool, true, false, Option, none, some, String, ◌==◌, text_eq, if◌then◌else◌,
}
use mathlib.Core.Option
use matrix_goose.Exec.{Result, ok, err}
use matrix_goose.Error.{Error, http, HttpResult}
use matrix_goose.Config.{Duration}
use matrix_goose.Config.Request.{RequestConfig}
use matrix_goose.Media.{Uri, Content, MediaSource, plain, upload_config}

-- `mime::Mime`: its major type, its type without parameters, and its text.
pub record Mime : Type 0 where
  pub major : String
  pub essence : String
  pub text : String

pub record BaseImageInfo : Type 0 where
  pub height : Option ℕ
  pub width : Option ℕ
  pub size : Option ℕ
  pub blurhash : Option String

pub record BaseVideoInfo : Type 0 where
  pub duration : Option Duration
  pub height : Option ℕ
  pub width : Option ℕ
  pub size : Option ℕ
  pub blurhash : Option String

pub record BaseAudioInfo : Type 0 where
  pub duration : Option Duration
  pub size : Option ℕ

pub record BaseFileInfo : Type 0 where
  pub size : Option ℕ

pub data AttachmentInfo : Type 0 where
  image : BaseImageInfo → AttachmentInfo
  video : BaseVideoInfo → AttachmentInfo
  audio : BaseAudioInfo → AttachmentInfo
  file : BaseFileInfo → AttachmentInfo

pub record BaseThumbnailInfo : Type 0 where
  pub height : Option ℕ
  pub width : Option ℕ
  pub size : Option ℕ

-- `ruma`'s `ThumbnailInfo`
pub record ThumbnailInfo : Type 0 where
  pub height : Option ℕ
  pub width : Option ℕ
  pub size : Option ℕ
  pub mimetype : Option String

pub record Thumbnail : Type 0 where
  pub content : Content
  pub content_type : Mime
  pub info : Option BaseThumbnailInfo

pub record AttachmentConfig : Type 0 where
  pub txn_id : Option String
  pub info : Option AttachmentInfo
  pub thumbnail : Option Thumbnail

-- `ruma`'s `ImageInfo`, `VideoInfo`, `AudioInfo` and `FileInfo`: the fields that are common to them,
-- each with what only some have.
pub record MessageInfo : Type 0 where
  pub height : Option ℕ
  pub width : Option ℕ
  pub duration : Option Duration
  pub size : Option ℕ
  pub blurhash : Option String
  pub mimetype : Option String
  pub thumbnail_source : Option MediaSource
  pub thumbnail_info : Option ThumbnailInfo

abbrev pub new_info : MessageInfo
new_info = record {
  height = none;
  width = none;
  duration = none;
  size = none;
  blurhash = none;
  mimetype = none;
  thumbnail_source = none;
  thumbnail_info = none;
}

-- `From<AttachmentInfo> for ImageInfo`
unfoldable pub image_info : AttachmentInfo → MessageInfo
image_info (image i) = record new_info {
  height = i.height;
  width = i.width;
  size = i.size;
  blurhash = i.blurhash;
}
image_info (video i) = new_info
image_info (audio i) = new_info
image_info (file i) = new_info

-- `From<AttachmentInfo> for VideoInfo`
unfoldable pub video_info : AttachmentInfo → MessageInfo
video_info (video i) = record new_info {
  duration = i.duration;
  height = i.height;
  width = i.width;
  size = i.size;
  blurhash = i.blurhash;
}
video_info (image i) = new_info
video_info (audio i) = new_info
video_info (file i) = new_info

-- `From<AttachmentInfo> for AudioInfo`
unfoldable pub audio_info : AttachmentInfo → MessageInfo
audio_info (audio i) = record new_info { duration = i.duration; size = i.size }
audio_info (image i) = new_info
audio_info (video i) = new_info
audio_info (file i) = new_info

-- `From<AttachmentInfo> for FileInfo`
unfoldable pub file_info : AttachmentInfo → MessageInfo
file_info (file i) = record new_info { size = i.size }
file_info (image i) = new_info
file_info (video i) = new_info
file_info (audio i) = new_info

abbrev pub new_thumbnail_info : ThumbnailInfo
new_thumbnail_info = record { height = none; width = none; size = none; mimetype = none }

-- `From<BaseThumbnailInfo> for ThumbnailInfo`
unfoldable pub from_base : BaseThumbnailInfo → ThumbnailInfo
from_base i = record new_thumbnail_info { height = i.height; width = i.width; size = i.size }

-- `AttachmentConfig::new`
unfoldable pub new_config : AttachmentConfig
new_config = record { txn_id = none; info = none; thumbnail = none }

unfoldable pub with_thumbnail : Thumbnail → AttachmentConfig
with_thumbnail t = record { txn_id = none; info = none; thumbnail = some t }

unfoldable pub with_txn_id : String → AttachmentConfig → AttachmentConfig
with_txn_id id c = record c { txn_id = some id }

unfoldable pub with_info : AttachmentInfo → AttachmentConfig → AttachmentConfig
with_info i c = record c { info = some i }

-- `ruma`'s `MessageType`, of the kinds that attachments have.
pub data MessageType : Type 0 where
  image_message audio_message video_message file_message : String → Uri → MessageInfo → MessageType

-- `create_content::v3::Response`
pub record Uploaded : Type 0 where
  pub content_uri : Uri
  pub blurhash : Option String

pub record UploadClient (W : Type 0) : Type 0 where
  pub request_config : RequestConfig
  -- By the content type without parameters.
  pub create_content : RequestConfig → String → Content → W → HttpResult Uploaded × W

-- `.map(From::from).unwrap_or_default()`
abbrev pub converted : (AttachmentInfo → MessageInfo) → Option AttachmentInfo → MessageInfo
converted from none = new_info
converted from (some i) = from i

-- The source and the details of a thumbnail that was uploaded.
abbrev pub ThumbnailParts : Type 0
ThumbnailParts = Option MediaSource × Option ThumbnailInfo

abbrev pub with_parts : Mime → ThumbnailParts → MessageInfo → MessageInfo
with_parts mime t i = record i {
  mimetype = some mime.text;
  thumbnail_source = t.0;
  thumbnail_info = t.1;
}

-- `match content_type.type_()`
unfoldable pub message_of :
    String → Mime → Option AttachmentInfo → ThumbnailParts → Uri → MessageType
unfolding image_info audio_info video_info file_info
message_of body mime info t url =
    if mime.major == "image"
    then image_message body url (with_parts mime t (converted image_info info))
    else if mime.major == "audio"
    then audio_message body url (record (converted audio_info info) { mimetype = some mime.text })
    else if mime.major == "video"
    then video_message body url (with_parts mime t (converted video_info info))
    else file_message body url (with_parts mime t (converted file_info info))

abbrev pub thumbnail_info : Thumbnail → ThumbnailInfo
thumbnail_info t = record (elim t.info [ none ↦ new_thumbnail_info | some i ↦ from_base i ]) {
  mimetype = some t.content_type.text;
}

module _ {W : Type 0} (U : UploadClient W) where
  abbrev as_error : HttpResult Uploaded × W → Result Error Uploaded × W
  as_error (ok a, w) = (ok a, w)
  as_error (err e, w) = (err (http e), w)

  unfoldable pub upload : Mime → Content → W → Result Error Uploaded × W
  upload mime content w =
      as_error (U.create_content (upload_config content U.request_config) mime.essence content w)

  abbrev pub thumbnail_sent :
      Thumbnail → Result Error Uploaded × W → Result Error ThumbnailParts × W
  thumbnail_sent t (err e, w) = (err e, w)
  thumbnail_sent t (ok a, w) = (ok (some (plain a.content_uri), some (thumbnail_info t)), w)

  unfoldable pub send_thumbnail : Option Thumbnail → W → Result Error ThumbnailParts × W
  send_thumbnail none w = (ok (none, none), w)
  send_thumbnail (some t) w = thumbnail_sent t (upload t.content_type t.content w)

  abbrev pub content_sent :
      String
      → Mime
      → Option AttachmentInfo
      → ThumbnailParts
      → Result Error Uploaded × W
      → Result Error MessageType × W
  content_sent body mime info t (err e, w) = (err e, w)
  content_sent body mime info t (ok a, w) = (ok (message_of body mime info t a.content_uri), w)

  abbrev pub send_content :
      String
      → Mime
      → Content
      → Option AttachmentInfo
      → Result Error ThumbnailParts × W
      → Result Error MessageType × W
  send_content body mime content info (err e, w) = (err e, w)
  send_content body mime content info (ok t, w) =
      content_sent body mime info t (upload mime content w)

  unfoldable pub prepare_attachment_message :
      String
      → Mime
      → Content
      → Option AttachmentInfo
      → Option Thumbnail
      → W
      → Result Error MessageType × W
  unfolding send_thumbnail
  prepare_attachment_message body mime content info thumbnail w =
      send_content body mime content info (send_thumbnail thumbnail w)
