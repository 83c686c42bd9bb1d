-- ===== src/Media/Cache.antt =====
-- When the content of media is asked for again (src/matrix/media.rs).
use matrix_goose.Prelude.{◌≡◌, ◌≢◌, refl, sym, ◌∙◌, ap, true, Option, none, some}
use matrix_goose.Exec.{Result, ok, err}
use matrix_goose.Error.{Error}
use matrix_goose.Media.{
  MediaSource, MediaThumbnailSize, thumbnail, MediaRequest, MediaEventContent, Content, MediaClient,
  MediaLaws, fetch, stored, fetched, looked_up, get_media_content, get_source, remove_source,
  get_thumbnail, remove_thumbnail, some_content,
}

module _ {W : Type 0} (M : MediaClient W) (L : MediaLaws M) where
  stored-again :
      (r : MediaRequest) (c d : Content) (w w' : W)
      → stored M d (M.add_media_content r d w) ≡ (ok c, w')
      → M.get_media_content r w' ≡ (ok (some c), w')
  stored-again r c d w w' h = go (M.add_media_content r d w) refl h
    where
      go :
          (q : Result Error (Unit {0}) × W)
          → M.add_media_content r d w ≡ q
          → ◌≡◌ {A = Result Error Content × W} (stored M d q) (ok c, w')
          → M.get_media_content r w' ≡ (ok (some c), w')
      go (ok u, v) e k = cc (L.get-add r d w v e)
      go (err x, v) e k = cc

  fetched-again :
      (r : MediaRequest) (c : Content) (q : Result Error Content × W) (w' : W)
      → fetched M r true q ≡ (ok c, w')
      → M.get_media_content r w' ≡ (ok (some c), w')
  fetched-again r c (err x, w) w' h = cc
  fetched-again r c (ok d, w) w' h = stored-again r c d w w' h

  looked_up-again :
      (r : MediaRequest) (c : Content) (w w' : W) (q : Result Error (Option Content) × W)
      → M.get_media_content r w ≡ q
      → looked_up M r true q ≡ (ok c, w')
      → M.get_media_content r w' ≡ (ok (some c), w')
  looked_up-again r c w w' (err x, v) e h = cc
  looked_up-again r c w w' (ok (some d), v) e h = cc (L.get-get r d w v e)
  looked_up-again r c w w' (ok none, v) e h = fetched-again r c (fetch M r.source r.format v) w' h

  -- Content that was asked for with the cache is handed out again without a request, and the same.
  pub get_media_content-again :
      (r : MediaRequest) (c : Content) (w w' : W)
      → get_media_content M r true w ≡ (ok c, w')
      → get_media_content M r true w' ≡ (ok c, w')
  unfolding get_media_content
  get_media_content-again r c w w' h =
      ap (looked_up M r true) (looked_up-again r c w w' (M.get_media_content r w) refl h)

  -- For content whose thumbnail is not the file itself, `remove_thumbnail` does not remove the
  -- thumbnail that `get_thumbnail` has put in the cache: it is still handed out from there.
  pub get_thumbnail-remove_thumbnail :
      (content : MediaEventContent) (size : MediaThumbnailSize) (s t : MediaSource) (c : Content)
      (w w' : W)
      → content.source ≡ some s
      → content.thumbnail_source ≡ some t
      → s ≢ t
      → M.get_media_content (record { source = t; format = thumbnail size }) w ≡ (ok (some c), w)
      → remove_thumbnail M content size w ≡ (ok tt, w')
      → get_thumbnail M content size true w' ≡ (ok (some c), w')
  unfolding get_thumbnail remove_thumbnail get_media_content
  get_thumbnail-remove_thumbnail content size s t c w w' e f n h k =
      let of : MediaSource → MediaRequest = λ x. record { source = x; format = thumbnail size } in
      let removed = sym (ap (λ o. remove_source M o (thumbnail size) w) e) ∙ k in
      let left =
        L.get-remove_other (of s) (of t) c w w' (λ q. n (ap (λ r. r.source) q)) removed h in
      ap (λ o. get_source M o (thumbnail size) true w') f
      ∙ ap (λ q. some_content M (looked_up M (of t) true q)) left
