-- ===== src/Client/Filter.antt =====
-- `get_or_upload_filter` of src/matrix/mod.rs. Parameters: the filters that the base client stores,
-- the user, and the upload, over a world `W`.
use matrix_goose.Prelude.{◌≡◌, refl, ap, Option, none, some, String}
use matrix_goose.Exec.{Result, ok, err}
use matrix_goose.Error.{Error, http, HttpResult, login_required}

pub record FilterStore (W Definition : Type 0) : Type 0 where
  pub get_filter : String → W → Result Error (Option String) × W
  pub user_id : W → Option String
  -- The answer is the identifier of the filter.
  pub upload : String → Definition → W → HttpResult String × W
  pub receive_filter_upload : String → String → W → Result Error (Unit {0}) × W

module _ {W Definition : Type 0} (F : FilterStore W Definition) where
  abbrev kept : String → Result Error (Unit {0}) × W → Result Error String × W
  kept id (ok u, w) = (ok id, w)
  kept id (err e, w) = (err e, w)

  abbrev uploaded : String → HttpResult String × W → Result Error String × W
  uploaded name (err e, w) = (err (http e), w)
  uploaded name (ok id, w) = kept id (F.receive_filter_upload name id w)

  abbrev upload_for : String → Definition → Option String → W → Result Error String × W
  upload_for name definition none w = (err login_required, w)
  upload_for name definition (some user) w = uploaded name (F.upload user definition w)

  abbrev found : String → Definition → Result Error (Option String) × W → Result Error String × W
  found name definition (err e, w) = (err e, w)
  found name definition (ok (some id), w) = (ok id, w)
  found name definition (ok none, w) = upload_for name definition (F.user_id w) w

  unfoldable pub get_or_upload_filter : String → Definition → W → Result Error String × W
  get_or_upload_filter name definition w = found name definition (F.get_filter name w)

-- The base client hands out the filter that it was told last, for as long as it is not told another.
pub record FilterLaws {W Definition : Type 0} (F : FilterStore W Definition) : Type 0 where
  pub get-get :
      (name id : String) (w w' : W)
      → F.get_filter name w ≡ (ok (some id), w')
      → F.get_filter name w' ≡ (ok (some id), w')
  pub get-receive :
      (name id : String) (w w' : W)
      → F.receive_filter_upload name id w ≡ (ok tt, w')
      → F.get_filter name w' ≡ (ok (some id), w')

module _ {W Definition : Type 0} (F : FilterStore W Definition) (L : FilterLaws F) where
  abbrev Stored : String → String → W → Type 0
  Stored name id w = F.get_filter name w ≡ (ok (some id), w)

  kept-Stored :
      (name id id' : String) (w w' : W) (q : Result Error (Unit {0}) × W)
      → F.receive_filter_upload name id' w ≡ q
      → kept F id' q ≡ (ok id, w')
      → Stored name id w'
  kept-Stored name id id' w w' (ok u, v) e h = cc (L.get-receive name id' w v e)
  kept-Stored name id id' w w' (err x, v) e h = cc

  uploaded-Stored :
      (name id : String) (w' : W) (q : HttpResult String × W)
      → uploaded F name q ≡ (ok id, w')
      → Stored name id w'
  uploaded-Stored name id w' (err x, v) h = cc
  uploaded-Stored name id w' (ok id', v) h = kept-Stored name id id' v w' _ refl h

  upload_for-Stored :
      (name id : String) (definition : Definition) (w w' : W) (user : Option String)
      → upload_for F name definition user w ≡ (ok id, w')
      → Stored name id w'
  upload_for-Stored name id definition w w' none h = cc
  upload_for-Stored name id definition w w' (some user) h = uploaded-Stored name id w' _ h

  found-Stored :
      (name id : String) (definition : Definition) (w w' : W) (q : Result Error (Option String) × W)
      → F.get_filter name w ≡ q
      → found F name definition q ≡ (ok id, w')
      → Stored name id w'
  found-Stored name id definition w w' (err x, v) e h = cc
  found-Stored name id definition w w' (ok (some i), v) e h = cc (L.get-get name i w v e)
  found-Stored name id definition w w' (ok none, v) e h =
      upload_for-Stored name id definition v w' (F.user_id v) h

  -- Once a filter of a name was answered, the name answers the same filter, with any definition and
  -- without an upload.
  pub get_or_upload_filter-again :
      (name id : String) (definition definition' : Definition) (w w' : W)
      → get_or_upload_filter F name definition w ≡ (ok id, w')
      → get_or_upload_filter F name definition' w' ≡ (ok id, w')
  unfolding get_or_upload_filter
  get_or_upload_filter-again name id definition definition' w w' h =
      ap (found F name definition') (found-Stored name id definition w w' _ refl h)
