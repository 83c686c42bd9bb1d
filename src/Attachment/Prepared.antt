-- ===== src/Attachment/Prepared.antt =====
-- What the message of an attachment says, and which uploads it took (src/matrix/media.rs,
-- `prepare_attachment_message`).
use matrix_goose.Prelude.{
  ℕ, ◌≡◌, refl, ◌⊎◌, inl, inr, Bool, true, false, Option, none, some, String, ◌==◌, text_eq,
  if◌then◌else◌,
}
use matrix_goose.Exec.{Result, ok, err}
use matrix_goose.Error.{Error}
use matrix_goose.Media.{Uri, Content, MediaSource, plain}
use matrix_goose.Attachment.{
  Mime, AttachmentInfo, image, video, audio, file, MessageInfo, Thumbnail, MessageType,
  image_message, audio_message, video_message, file_message, Uploaded, UploadClient, ThumbnailParts,
  thumbnail_info, converted, with_parts, image_info, audio_info, video_info, file_info, message_of,
  upload, send_thumbnail, thumbnail_sent, content_sent, send_content, prepare_attachment_message,
}

pub data Kind : Type 0 where
  picture sound film document : Kind

abbrev kind_of : MessageType → Kind
kind_of (image_message b u i) = picture
kind_of (audio_message b u i) = sound
kind_of (video_message b u i) = film
kind_of (file_message b u i) = document

abbrev body_of : MessageType → String
body_of (image_message b u i) = b
body_of (audio_message b u i) = b
body_of (video_message b u i) = b
body_of (file_message b u i) = b

abbrev url_of : MessageType → Uri
url_of (image_message b u i) = u
url_of (audio_message b u i) = u
url_of (video_message b u i) = u
url_of (file_message b u i) = u

abbrev info_of : MessageType → MessageInfo
info_of (image_message b u i) = i
info_of (audio_message b u i) = i
info_of (video_message b u i) = i
info_of (file_message b u i) = i

-- The kind that a major type stands for.
abbrev kind_for : String → Kind
kind_for major =
    if major == "image"
    then picture
    else if major == "audio"
    then sound
    else if major == "video"
    then film
    else document

-- The size that the information has for a kind.
abbrev size_for : Kind → Option AttachmentInfo → Option ℕ
size_for picture (some (image i)) = i.size
size_for sound (some (audio i)) = i.size
size_for film (some (video i)) = i.size
size_for document (some (file i)) = i.size
size_for _ _ = none

abbrev source_for : Kind → Option MediaSource → Option MediaSource
source_for sound s = none
source_for picture s = s
source_for film s = s
source_for document s = s

-- A message that has the body, the URL, the type and the thumbnail that it should have, and the
-- size of the information if that is of its kind.
abbrev pub Says :
    String → Mime → Option AttachmentInfo → ThumbnailParts → Uri → MessageType → Type 0
Says body mime info t url m =
    (kind_of m ≡ kind_for mime.major)
    × (body_of m ≡ body)
    × (url_of m ≡ url)
    × ((info_of m).mimetype ≡ some mime.text)
    × ((info_of m).thumbnail_source ≡ source_for (kind_for mime.major) t.0)
    × ((info_of m).size ≡ size_for (kind_for mime.major) info)

image_size : (o : Option AttachmentInfo) → (converted image_info o).size ≡ size_for picture o
unfolding image_info
image_size none = refl
image_size (some (image i)) = refl
image_size (some (video i)) = refl
image_size (some (audio i)) = refl
image_size (some (file i)) = refl

audio_size : (o : Option AttachmentInfo) → (converted audio_info o).size ≡ size_for sound o
unfolding audio_info
audio_size none = refl
audio_size (some (image i)) = refl
audio_size (some (video i)) = refl
audio_size (some (audio i)) = refl
audio_size (some (file i)) = refl

audio_source : (o : Option AttachmentInfo) → (converted audio_info o).thumbnail_source ≡ none
unfolding audio_info
audio_source none = refl
audio_source (some (image i)) = refl
audio_source (some (video i)) = refl
audio_source (some (audio i)) = refl
audio_source (some (file i)) = refl

video_size : (o : Option AttachmentInfo) → (converted video_info o).size ≡ size_for film o
unfolding video_info
video_size none = refl
video_size (some (image i)) = refl
video_size (some (video i)) = refl
video_size (some (audio i)) = refl
video_size (some (file i)) = refl

file_size : (o : Option AttachmentInfo) → (converted file_info o).size ≡ size_for document o
unfolding file_info
file_size none = refl
file_size (some (image i)) = refl
file_size (some (video i)) = refl
file_size (some (audio i)) = refl
file_size (some (file i)) = refl

message_of-Says :
    (body : String) (mime : Mime) (info : Option AttachmentInfo) (t : ThumbnailParts) (url : Uri)
    → Says body mime info t url (message_of body mime info t url)
unfolding message_of
message_of-Says body mime info t url =
    go (mime.major == "image") (mime.major == "audio") (mime.major == "video")
  where
    Shown : Kind → MessageType → Type 0
    Shown k m =
        (kind_of m ≡ k)
        × (body_of m ≡ body)
        × (url_of m ≡ url)
        × ((info_of m).mimetype ≡ some mime.text)
        × ((info_of m).thumbnail_source ≡ source_for k t.0)
        × ((info_of m).size ≡ size_for k info)

    go :
        (i a v : Bool)
        → Shown (if i then picture else if a then sound else if v then film else document) (
            if i
            then image_message body url (with_parts mime t (converted image_info info))
            else if a
            then audio_message body url
                (record (converted audio_info info) { mimetype = some mime.text })
            else if v
            then video_message body url (with_parts mime t (converted video_info info))
            else file_message body url (with_parts mime t (converted file_info info)))
    go true a v = (refl, refl, refl, refl, refl, image_size info)
    go false true v = (refl, refl, refl, refl, audio_source info, audio_size info)
    go false false true = (refl, refl, refl, refl, refl, video_size info)
    go false false false = (refl, refl, refl, refl, refl, file_size info)

module _ {W : Type 0} (U : UploadClient W) where
  -- The thumbnail was uploaded, if there is one.
  abbrev ThumbnailSent : Option Thumbnail → W → ThumbnailParts → W → Type 0
  ThumbnailSent none w t w' = (◌≡◌ {A = ThumbnailParts} t (none, none)) × (w' ≡ w)
  ThumbnailSent (some n) w t w' =
      (a : Uploaded) × (upload U n.content_type n.content w ≡ (ok a, w'))
      × (◌≡◌ {A = ThumbnailParts} t (some (plain a.content_uri), some (thumbnail_info n)))

  abbrev pub Prepared :
      String
      → Mime
      → Content
      → Option AttachmentInfo
      → Option Thumbnail
      → W
      → Result Error MessageType × W
      → Type 0
  Prepared body mime content info thumbnail w (ok m, w') =
      (t : ThumbnailParts) × (v : W) × (a : Uploaded) × ThumbnailSent thumbnail w t v
      × (upload U mime content v ≡ (ok a, w'))
      × Says body mime info t a.content_uri m
  Prepared body mime content info thumbnail w (err e, w') =
      ((n : Thumbnail) × (thumbnail ≡ some n) × (upload U n.content_type n.content w ≡ (err e, w')))
      ⊎ ((t : ThumbnailParts) × (v : W) × ThumbnailSent thumbnail w t v
          × (upload U mime content v ≡ (err e, w')))

  content_sent-Prepared :
      (body : String) (mime : Mime) (content : Content) (info : Option AttachmentInfo)
      (thumbnail : Option Thumbnail) (w : W) (t : ThumbnailParts) (v : W)
      (q : Result Error Uploaded × W)
      → ThumbnailSent thumbnail w t v
      → upload U mime content v ≡ q
      → Prepared body mime content info thumbnail w (content_sent U body mime info t q)
  content_sent-Prepared body mime content info thumbnail w t v (ok a, w') s e =
      (t, v, a, s, e, message_of-Says body mime info t a.content_uri)
  content_sent-Prepared body mime content info thumbnail w t v (err x, w') s e = inr (t, v, s, e)

  thumbnail_sent-Prepared :
      (body : String) (mime : Mime) (content : Content) (info : Option AttachmentInfo)
      (n : Thumbnail) (w : W) (q : Result Error Uploaded × W)
      → upload U n.content_type n.content w ≡ q
      → Prepared body mime content info
          (some n)
          w
          (send_content U body mime content info (thumbnail_sent U n q))
  thumbnail_sent-Prepared body mime content info n w (ok a, v) e =
      content_sent-Prepared body mime content info (some n) w _ v _ (a, e, refl) refl
  thumbnail_sent-Prepared body mime content info n w (err x, v) e = inl (n, refl, e)

  -- A message for an attachment is prepared after the thumbnail, if there is one, and then the content
  -- were uploaded. It is of the kind of the content's major type, a file if that is none of image,
  -- audio and video, and has the body, the URL of the uploaded content, the content type, the URL of
  -- the uploaded thumbnail unless it is audio, and the size of the given information, if that is of
  -- the message's kind, and none otherwise. It fails exactly with the error of an upload, and after a
  -- thumbnail that failed the content is not uploaded.
  pub prepare_attachment_message-Prepared :
      (body : String) (mime : Mime) (content : Content) (info : Option AttachmentInfo)
      (thumbnail : Option Thumbnail) (w : W)
      → Prepared body mime content info thumbnail w
          (prepare_attachment_message U body mime content info thumbnail w)
  unfolding prepare_attachment_message send_thumbnail
  prepare_attachment_message-Prepared body mime content info none w =
      content_sent-Prepared body mime content info none w (none, none) w _ (refl, refl) refl
  prepare_attachment_message-Prepared body mime content info (some n) w =
      thumbnail_sent-Prepared body mime content info n w _ refl
