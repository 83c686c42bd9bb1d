-- ===== src/Tests/Caches.antt =====
-- The cache of src/matrix/media.rs over a store in memory.
use matrix_goose.Prelude.{
  ℕ, ◌≡◌, refl, true, some, String, [], ◌∷◌, Eq, ◌==◌, eq_of_discrete, text_eq, num_eq, Bool-cases,
  inl, inr,
}
use matrix_goose.Map.{
  Map, lookup, insert, erase, lookup-insert_same, lookup-erase_same, lookup-erase_other,
}
use matrix_goose.Exec.{ok}
use matrix_goose.Media.{
  MediaSource, encrypted, plain, MediaThumbnailSize, file, thumbnail, scale, MediaRequest,
  MediaEventContent, Content, MediaClient, MediaLaws, get_media_content, fetch,
}
use matrix_goose.Media.Cache.{get_media_content-again}

-- A test with its law decides.
discrete_of {ℓ} : {A : Type ℓ} ⦃e : Eq A⦄ → Discrete A
discrete_of ⦃e⦄ s t = elim (Bool-cases (s == t)) [
  | inl h ↦ yes ((e.beq_iff s t).0 h)
  | inr h ↦ no (λ p. cc ((e.beq_iff s t).1 p))
]

String-discrete : Discrete String
String-discrete = discrete_of

num-discrete : Discrete ℕ
num-discrete = discrete_of

MediaRequest-discrete : Discrete MediaRequest
MediaRequest-discrete = hlevel (String-discrete, num-discrete)

abbrev uri_of : MediaSource → String
uri_of (plain uri) = uri
uri_of (encrypted uri) = uri

instance unfoldable request_eq : Eq MediaRequest
unfolding MediaRequest-discrete
request_eq = eq_of_discrete MediaRequest-discrete

abbrev Store : Type 0
Store = Map MediaRequest Content

-- Every file and every thumbnail of the server is empty.
abbrev memory : MediaClient Store
memory = record {
  get_media_content = λ r w. (ok (lookup r w), w);
  add_media_content = λ r c w. (ok tt, insert r c w);
  remove_media_content = λ r w. (ok tt, erase r w);
  send_content = λ uri w. (ok [], w);
  send_thumbnail = λ uri size w. (ok [], w);
}

memory-MediaLaws : MediaLaws memory
memory-MediaLaws = record {
  get-get = λ r c w w' h. cc;
  get-add = λ r c w w' h. cc (lookup-insert_same r c w);
  get-remove = λ r w w' h. cc (lookup-erase_same r w);
  get-remove_other = λ r r' c w w' n h k. cc (lookup-erase_other r' r w n);
}

abbrev picture : MediaRequest
picture = record { source = encrypted "mxc://a/b"; format = file }

get_media_content-again_example :
    get_media_content memory picture true (insert picture [] []) ≡ (ok [], insert picture [] [])
unfolding get_media_content fetch insert lookup
get_media_content-again_example =
    get_media_content-again memory memory-MediaLaws picture [] [] (insert picture [] []) refl

abbrev size : MediaThumbnailSize
size = record { method = scale; width = 32; height = 32 }

abbrev shown : MediaEventContent
shown = record { source = some (plain "mxc://a/b"); thumbnail_source = some (plain "mxc://a/t") }

abbrev kept : Store
kept = insert (record { source = plain "mxc://a/t"; format = thumbnail size }) (1 ∷ []) []
