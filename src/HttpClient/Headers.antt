-- ===== src/HttpClient/Headers.antt =====
-- The headers of an answer: `response_to_http_response` of src/matrix/http_client.rs. Parameter: what
-- the drained header map of `reqwest` yields, a name beside the first value of a header only.
use matrix_goose.Prelude.{◌≡◌, refl, Option, none, some, String, List, [], ◌∷◌, ◌++◌, map, text_eq}
use matrix_goose.Map.{Map, insert}

-- The body of the loop over the drained headers.
abbrev insert_header : Option String → String → Map String String → Map String String
insert_header none value headers = headers
insert_header (some name) value headers = insert name value headers

unfoldable insert_headers : List (Option String × String) → Map String String → Map String String
insert_headers [] headers = headers
insert_headers ((name, value) ∷ drained) headers =
    insert_headers drained (insert_header name value headers)

-- `response_to_http_response`, for an answer whose body can be read.
pub record HttpResponse (Body : Type 0) : Type 0 where
  pub status : String
  pub headers : Map String String
  pub body : Body

unfoldable response_to_http_response :
    {Body : Type 0}
    → String
    → List (Option String × String)
    → Option Body
    → Option (HttpResponse Body)
unfolding insert_headers
response_to_http_response status drained none = none
response_to_http_response status drained (some body) =
    some (record { status = status; headers = insert_headers drained []; body = body })

skip_unnamed :
    (values : List String) (drained : List (Option String × String)) (headers : Map String String)
    → insert_headers (map (λ v. (none, v)) values ++ drained) headers
      ≡ insert_headers drained headers
unfolding insert_headers
skip_unnamed [] drained headers = refl
skip_unnamed (v ∷ values) drained headers = skip_unnamed values drained headers

-- Of a header with several values only the first is kept.
first_value :
    (name first : String) (values : List String) (drained : List (Option String × String))
    (headers : Map String String)
    → insert_headers ((some name, first) ∷ (map (λ v. (none, v)) values ++ drained)) headers
      ≡ insert_headers drained (insert name first headers)
unfolding insert_headers
first_value name first values drained headers =
    skip_unnamed values drained (insert name first headers)
