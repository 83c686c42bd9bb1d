-- ===== src/HttpClient/Names.antt =====
-- The name under which Goose reports a request: the edits of the URL's text in `send_request` of
-- `HttpSend for reqwest::Client`, src/matrix/http_client.rs. Texts are lists of bytes; the
-- characters looked for are ASCII, so their positions are those of the source.
pub mod Grouping
use Prim.Native.Char.{code}
use mathlib.Core.Option
use matrix_goose.Prelude.{
  ℕ, zero, suc, ◌+◌, String, Bool, true, false, Option, none, some, List, [], ◌∷◌, ◌++◌, ◌==◌,
  num_eq, ◌&&◌, if◌then◌else◌, length, take, drop,
}

-- The bytes of an ASCII literal.
abbrev pub bytes : String → List ℕ
bytes String.[] = []
bytes (String.◌∷◌ c s) = code c ∷ bytes s

-- `str::find` of a character
unfoldable pub find : ℕ → List ℕ → Option ℕ
find c [] = none
find c (x ∷ xs) = if x == c then some 0 else Option.map suc (find c xs)

abbrev starts_with : List ℕ → List ℕ → Bool
starts_with [] s = true
starts_with (p ∷ ps) [] = false
starts_with (p ∷ ps) (x ∷ xs) = x == p && starts_with ps xs

-- `str::find` of a text that is not empty
unfoldable pub find_text : List ℕ → List ℕ → Option ℕ
find_text ps [] = none
find_text ps (x ∷ xs) = if starts_with ps (x ∷ xs) then some 0 else Option.map suc (find_text ps xs)

-- `if let Some(index) = name.find('?') { name.truncate(index); }`
unfoldable pub strip_query : List ℕ → List ℕ
strip_query name = elim (find b'?' name) [ none ↦ name | some i ↦ take i name ]

-- What follows the first `/`, with the `/`, or nothing.
abbrev after_slash : List ℕ → List ℕ
after_slash last = elim (find b'/' last) [ none ↦ [] | some j ↦ drop j last ]

-- An identifier, from its sigil up to the next `/` or the end, becomes `_`.
unfoldable pub mask : ℕ → List ℕ → List ℕ
mask c name = elim (find c name) [
  | none ↦ name
  | some i ↦ take i name ++ b'_' ∷ after_slash (drop i name)
]

-- A text that ends in `/` is kept, and what follows it becomes `_`.
unfoldable pub cut_after : List ℕ → List ℕ → List ℕ
cut_after ps name = elim (find_text ps name) [
  | none ↦ name
  | some i ↦ take (i + length ps) name ++ b'_' ∷ []
]

abbrev pub message_path : List ℕ
message_path = bytes "m.room.message/"

abbrev pub reaction_path : List ℕ
reaction_path = bytes "m.reaction/"

unfoldable pub endpoint_name : List ℕ → List ℕ
endpoint_name url =
    cut_after reaction_path
      (cut_after message_path (mask b'$' (mask b'@' (mask b'!' (strip_query url)))))
