-- ===== src/Account/Profile.antt =====
-- The profile of the user: src/matrix/account.rs from `get_display_name` to `get_profile`.
-- Parameters: the requests, and the values that the state store keeps under a key.
use matrix_goose.Prelude.{◌≡◌, sym, ◌∙◌, ap, true, Option, none, some, String}
use matrix_goose.Exec.{Result, ok, err}
use matrix_goose.Error.{Error, HttpResult, http, or_http, login_required}
use matrix_goose.Config.Request.{RequestConfig, new_request_config, with_force_auth}
use matrix_goose.Media.{Uri, Content, MediaClient, MediaFormat, plain, get_media_content}
use matrix_goose.Attachment.{Mime, UploadClient, Uploaded, upload}
use matrix_goose.Account.{UserId}

-- `get_profile::v3::Response`
pub record ProfileAnswer : Type 0 where
  pub displayname : Option String
  pub avatar_url : Option Uri

pub record ProfileClient (W : Type 0) : Type 0 where
  pub user_id : W → Option UserId
  pub request_config : W → RequestConfig
  pub send_get_display_name : UserId → RequestConfig → W → HttpResult (Option String) × W
  pub send_set_display_name : UserId → Option String → W → HttpResult (Unit {0}) × W
  pub send_get_avatar_url : UserId → RequestConfig → W → HttpResult (Option Uri) × W
  pub send_set_avatar_url : UserId → Option Uri → W → HttpResult (Unit {0}) × W
  pub send_get_profile : UserId → RequestConfig → W → HttpResult ProfileAnswer × W
  -- The store, under the key `UserAvatarUrl` of a user.
  pub get_kv_data : UserId → W → Result Error (Option Uri) × W
  pub set_kv_data : UserId → Uri → W → Result Error (Unit {0}) × W
  pub remove_kv_data : UserId → W → Result Error (Unit {0}) × W

module _ {W : Type 0} (C : ProfileClient W) where
  -- `self.client.user_id().ok_or(Error::AuthenticationRequired)?`
  abbrev pub authenticated :
      {A : Type 0} → Option UserId → (UserId → W → Result Error A × W) → W → Result Error A × W
  authenticated none f w = (err login_required, w)
  authenticated (some user) f w = f user w

  unfoldable pub get_display_name : W → Result Error (Option String) × W
  get_display_name w =
      authenticated (C.user_id w)
        (λ user v. or_http (C.send_get_display_name user (with_force_auth (C.request_config v)) v))
        w

  unfoldable pub set_display_name : Option String → W → Result Error (Unit {0}) × W
  set_display_name name w =
      authenticated (C.user_id w) (λ user v. or_http (C.send_set_display_name user name v)) w

  -- The answer is kept, or what was kept is removed; whether the store does it is not looked at.
  abbrev pub remembered : UserId → HttpResult (Option Uri) × W → Result Error (Option Uri) × W
  remembered user (err e, w) = (err (http e), w)
  remembered user (ok (some url), w) = (ok (some url), (C.set_kv_data user url w).1)
  remembered user (ok none, w) = (ok none, (C.remove_kv_data user w).1)

  abbrev pub asked_avatar : UserId → W → Result Error (Option Uri) × W
  asked_avatar user w =
      remembered user (C.send_get_avatar_url user (with_force_auth new_request_config) w)

  unfoldable pub get_avatar_url : W → Result Error (Option Uri) × W
  get_avatar_url w = authenticated (C.user_id w) asked_avatar w

  unfoldable pub get_cached_avatar_url : W → Result Error (Option Uri) × W
  get_cached_avatar_url w = authenticated (C.user_id w) C.get_kv_data w

  unfoldable pub set_avatar_url : Option Uri → W → Result Error (Unit {0}) × W
  set_avatar_url url w =
      authenticated (C.user_id w) (λ user v. or_http (C.send_set_avatar_url user url v)) w

  unfoldable pub get_profile : W → Result Error ProfileAnswer × W
  get_profile w =
      authenticated (C.user_id w)
        (λ user v. or_http (C.send_get_profile user (with_force_auth (C.request_config v)) v)) w

  module _ (M : MediaClient W) where
    abbrev pub content_of : Result Error Content × W → Result Error (Option Content) × W
    content_of (err e, w) = (err e, w)
    content_of (ok c, w) = (ok (some c), w)

    abbrev pub avatar_at :
        MediaFormat → Result Error (Option Uri) × W → Result Error (Option Content) × W
    avatar_at format (err e, w) = (err e, w)
    avatar_at format (ok none, w) = (ok none, w)
    avatar_at format (ok (some url), w) =
        content_of (get_media_content M (record { source = plain url; format = format }) true w)

    unfoldable pub get_avatar : MediaFormat → W → Result Error (Option Content) × W
    get_avatar format w = avatar_at format (get_avatar_url w)

  module _ (U : UploadClient W) where
    abbrev pub avatar_set : Uri → Result Error (Unit {0}) × W → Result Error Uri × W
    avatar_set url (err e, w) = (err e, w)
    avatar_set url (ok u, w) = (ok url, w)

    abbrev pub avatar_uploaded : Result Error Uploaded × W → Result Error Uri × W
    avatar_uploaded (err e, w) = (err e, w)
    avatar_uploaded (ok a, w) = avatar_set a.content_uri (set_avatar_url (some a.content_uri) w)

    unfoldable pub upload_avatar : Mime → Content → W → Result Error Uri × W
    unfolding set_avatar_url
    upload_avatar mime content w = avatar_uploaded (upload U mime content w)

-- What the store documents: it hands out the value that was set, or none once it was removed, where it
-- does so without an error; and it does not log the user out.
pub record ProfileLaws {W : Type 0} (C : ProfileClient W) : Type 0 where
  pub get-set :
      (user : UserId) (url : Uri) (w w' : W)
      → C.set_kv_data user url w ≡ (ok tt, w')
      → C.get_kv_data user w' ≡ (ok (some url), w')
  pub get-remove :
      (user : UserId) (w w' : W)
      → C.remove_kv_data user w ≡ (ok tt, w')
      → C.get_kv_data user w' ≡ (ok none, w')
  pub set-works : (user : UserId) (url : Uri) (w : W) → (C.set_kv_data user url w).0 ≡ ok tt
  pub remove-works : (user : UserId) (w : W) → (C.remove_kv_data user w).0 ≡ ok tt

module _ {W : Type 0} (C : ProfileClient W) (L : ProfileLaws C) where
  remembered-kept :
      (user : UserId) (q : HttpResult (Option Uri) × W) (o : Option Uri) (w' : W)
      → remembered C user q ≡ (ok o, w')
      → C.get_kv_data user w' ≡ (ok o, w')
  remembered-kept user (err e, w) o w' h = cc
  remembered-kept user (ok (some url), w) o w' h =
      let works : C.set_kv_data user url w ≡ (ok tt, (C.set_kv_data user url w).1) =
        cc (L.set-works user url w) in
      cc (L.get-set user url w (C.set_kv_data user url w).1 works)
  remembered-kept user (ok none, w) o w' h =
      let works : C.remove_kv_data user w ≡ (ok tt, (C.remove_kv_data user w).1) =
        cc (L.remove-works user w) in
      cc (L.get-remove user w (C.remove_kv_data user w).1 works)

  -- For a store that works, the avatar's URL that `get_avatar_url` answers, or its absence, is what
  -- `get_cached_avatar_url` answers afterwards for the same user, without a request.
  pub get_cached_avatar_url-get_avatar_url :
      (user : UserId) (o : Option Uri) (w w' : W)
      → C.user_id w ≡ some user
      → C.user_id w' ≡ some user
      → get_avatar_url C w ≡ (ok o, w')
      → get_cached_avatar_url C w' ≡ (ok o, w')
  unfolding get_cached_avatar_url get_avatar_url
  get_cached_avatar_url-get_avatar_url user o w w' u v h = rw v (
      remembered-kept user (C.send_get_avatar_url user (with_force_auth new_request_config) w) o w'
        (sym (ap (λ x. authenticated C x (asked_avatar C) w) u) ∙ h))
