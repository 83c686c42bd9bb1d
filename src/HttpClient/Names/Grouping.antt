-- ===== src/HttpClient/Names/Grouping.antt =====
-- What the reported names of src/matrix/http_client.rs have in common and what they leave out.
use matrix_goose.Prelude.{
  ℕ, zero, suc, ◌+◌, ◌≡◌, ◌≢◌, refl, none, some, List, [], ◌∷◌, ◌++◌, num_eq, arith, length, take,
  drop, ap, ◌∙◌, sym, take-append_length, drop-append_length, Option-cases, ◌⊎◌, inl, inr,
  append-nil, append_assoc,
}
use matrix_goose.HttpClient.Names.{
  find, find_text, strip_query, mask, cut_after, endpoint_name, after_slash, message_path,
  reaction_path,
}

-- The byte `c` does not occur.
abbrev pub Lacks : ℕ → List ℕ → Type 0
Lacks c [] = Unit
Lacks c (x ∷ xs) = (x ≢ c) × Lacks c xs

find-append : (c : ℕ) (p s : List ℕ) → Lacks c p → find c (p ++ c ∷ s) ≡ some (length p)
unfolding find
find-append c [] s l = ground arith
find-append c (x ∷ p) s l = ground (arith, find-append c p s l.1, l.0)

find_absent : (c : ℕ) (p : List ℕ) → Lacks c p → find c p ≡ none
unfolding find
find_absent c [] l = refl
find_absent c (x ∷ p) l = ground (arith, find_absent c p l.1, l.0)

Lacks-append : (c : ℕ) (p s : List ℕ) → Lacks c p → Lacks c s → Lacks c (p ++ s)
Lacks-append c [] s a b = b
Lacks-append c (x ∷ p) s a b = (a.0, Lacks-append c p s a.1 b)

Lacks-take : (c n : ℕ) (s : List ℕ) → Lacks c s → Lacks c (take n s)
Lacks-take c zero s l = tt
Lacks-take c (suc n) [] l = tt
Lacks-take c (suc n) (x ∷ s) l = (l.0, Lacks-take c n s l.1)

Lacks-drop : (c n : ℕ) (s : List ℕ) → Lacks c s → Lacks c (drop n s)
Lacks-drop c zero s l = l
Lacks-drop c (suc n) [] l = tt
Lacks-drop c (suc n) (x ∷ s) l = Lacks-drop c n s l.1

-- An identifier between its sigil and the next `/` is replaced by `_`.
mask_lem :
    (c : ℕ) (p w s : List ℕ)
    → c ≢ b'/'
    → Lacks c p
    → Lacks b'/' w
    → mask c (p ++ c ∷ (w ++ b'/' ∷ s)) ≡ p ++ b'_' ∷ (b'/' ∷ s)
unfolding mask
mask_lem c p w s ne a b =
    rw (find-append c p (w ++ b'/' ∷ s) a, mask)
      (rw (take-append_length p (c ∷ (w ++ b'/' ∷ s)), drop-append_length p (c ∷ (w ++ b'/' ∷ s)))
        (rw (find-append b'/' (c ∷ w) s (ne, b), after_slash)
          (rw (drop-append_length (c ∷ w) (b'/' ∷ s)))))

strip_query-append : (p s : List ℕ) → Lacks b'?' p → strip_query (p ++ s) ≡ p ++ strip_query s
unfolding strip_query find
strip_query-append [] s l = refl
strip_query-append (x ∷ p) s l = ground (arith, strip_query-append p s l.1, l.0)

strip_query-Lacks : (s : List ℕ) → Lacks b'?' (strip_query s)
unfolding strip_query find
strip_query-Lacks [] = tt
strip_query-Lacks (x ∷ s) = ground (arith, strip_query-Lacks s)

mask-Lacks : (c d : ℕ) (s : List ℕ) → d ≢ b'_' → Lacks d s → Lacks d (mask c s)
unfolding mask
mask-Lacks c d s ne l = elim (Option-cases (find c s)) [
  | inl e ↦ rw (e, mask) l
  | inr (i, e) ↦
      rw (e, mask)
        (Lacks-append d (take i s) _ (Lacks-take d i s l)
          ((λ q. ne (sym q)), tail i (Option-cases (find b'/' (drop i s)))))
]
  where
    tail :
        (i : ℕ)
        → (find b'/' (drop i s) ≡ none) ⊎ ((j : ℕ) × (find b'/' (drop i s) ≡ some j))
        → Lacks d (after_slash (drop i s))
    tail i (inl e) = rw (e, after_slash) tt
    tail i (inr (j, e)) = rw (e, after_slash) (Lacks-drop d j _ (Lacks-drop d i s l))

cut_after-Lacks : (ps s : List ℕ) (d : ℕ) → d ≢ b'_' → Lacks d s → Lacks d (cut_after ps s)
unfolding cut_after
cut_after-Lacks ps s d ne l = elim (Option-cases (find_text ps s)) [
  | inl e ↦ rw (e, cut_after) l
  | inr (i, e) ↦
      rw (e, cut_after)
        (Lacks-append d (take (i + length ps) s) _ (Lacks-take d (i + length ps) s l)
          ((λ q. ne (sym q)), tt))
]

-- No reported name has a query: none has a question mark, whatever the URL.
pub endpoint_name-Lacks : (url : List ℕ) → Lacks b'?' (endpoint_name url)
unfolding endpoint_name
endpoint_name-Lacks url = cut_after-Lacks reaction_path _ b'?' (omega arith) (
    cut_after-Lacks message_path _ b'?' (omega arith) (
      mask-Lacks b'$' b'?' _ (omega arith) (
        mask-Lacks b'@' b'?' _ (omega arith)
          (mask-Lacks b'!' b'?' _ (omega arith) (strip_query-Lacks url)))))

-- An identifier that nothing follows is replaced as well.
mask_end :
    (c : ℕ) (p w : List ℕ)
    → c ≢ b'/'
    → Lacks c p
    → Lacks b'/' w
    → mask c (p ++ c ∷ w) ≡ p ++ b'_' ∷ []
unfolding mask
mask_end c p w ne a b =
    rw (find-append c p w a, mask)
      (rw (take-append_length p (c ∷ w), drop-append_length p (c ∷ w))
        (rw (find_absent b'/' (c ∷ w) (ne, b), after_slash) refl))

strip_query-same : (p : List ℕ) → Lacks b'?' p → strip_query p ≡ p
unfolding strip_query find
strip_query-same [] l = refl
strip_query-same (x ∷ p) l = ground (arith, strip_query-same p l.1, l.0)

strip_query-cut : (p s : List ℕ) → Lacks b'?' p → strip_query (p ++ b'?' ∷ s) ≡ p
unfolding strip_query find
strip_query-cut [] s l = refl
strip_query-cut (x ∷ p) s l = ground (arith, strip_query-cut p s l.1, l.0)

-- What may follow an identifier in a URL: nothing, a `/` or a query.
pub data Rest : Type 0 where
  nothing : Rest
  path query : List ℕ → Rest

abbrev pub text_of : Rest → List ℕ
text_of nothing = []
text_of (path rest) = b'/' ∷ rest
text_of (query rest) = b'?' ∷ rest

-- What is reported of it.
abbrev pub kept_of : Rest → List ℕ
kept_of nothing = []
kept_of (path rest) = b'/' ∷ strip_query rest
kept_of (query rest) = []

mask-room :
    (base room : List ℕ) (rest : Rest)
    → Lacks b'?' base
    → Lacks b'!' base
    → Lacks b'?' room
    → Lacks b'/' room
    → mask b'!' (strip_query (base ++ b'!' ∷ (room ++ text_of rest))) ≡ base ++ b'_' ∷ kept_of rest
mask-room base room nothing q b l m =
    ap (mask b'!') (
      ap (λ t. strip_query (base ++ b'!' ∷ t)) (append-nil room)
      ∙ strip_query-same (base ++ b'!' ∷ room)
          (Lacks-append b'?' base (b'!' ∷ room) q (omega arith, l)))
    ∙ mask_end b'!' base room (omega arith) b m
mask-room base room (path rest) q b l m =
    ap (mask b'!') (
      strip_query-append base (b'!' ∷ (room ++ b'/' ∷ rest)) q
      ∙ ap (λ t. base ++ t)
          (strip_query-append (b'!' ∷ room) (b'/' ∷ rest) (omega arith, l)
            ∙ ap (λ t. b'!' ∷ (room ++ t)) (strip_query-append (b'/' ∷ []) rest (omega arith, tt))))
    ∙ mask_lem b'!' base room (strip_query rest) (omega arith) b m
mask-room base room (query rest) q b l m =
    ap (mask b'!') (
      ap strip_query (sym (append_assoc base (b'!' ∷ room) (b'?' ∷ rest)))
      ∙ strip_query-cut (base ++ b'!' ∷ room) rest
          (Lacks-append b'?' base (b'!' ∷ room) q (omega arith, l)))
    ∙ mask_end b'!' base room (omega arith) b m

-- Two URLs that differ in a room id alone are reported under one name: where the room id is followed
-- by a path, by a query or by nothing, has no `/` or `?` in it, and comes after no `!` and no `?`.
pub endpoint_name-room :
    (base room room' : List ℕ) (rest : Rest)
    → Lacks b'?' base
    → Lacks b'!' base
    → (Lacks b'?' room × Lacks b'/' room)
    → (Lacks b'?' room' × Lacks b'/' room')
    → endpoint_name (base ++ b'!' ∷ (room ++ text_of rest))
      ≡ endpoint_name (base ++ b'!' ∷ (room' ++ text_of rest))
unfolding endpoint_name
endpoint_name-room base room room' rest q b l l' =
    ap (λ n. cut_after reaction_path (cut_after message_path (mask b'$' (mask b'@' n))))
      (mask-room base room rest q b l.0 l.1 ∙ sym (mask-room base room' rest q b l'.0 l'.1))
