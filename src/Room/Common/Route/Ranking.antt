-- ===== src/Room/Common/Route/Ranking.antt =====
-- Counting the servers and sorting them (src/matrix/room/common.rs, `route`).
use matrix_goose.Prelude.{
  ℕ, ◌+◌, ◌%◌, ◌^◌, ◌≤◌, ◌≡◌, refl, ◌∙◌, ap, true, false, none, some, List, [], ◌∷◌, filter, length,
  leb, ◌==◌, text_eq, if◌then◌else◌, arith, Bool-cases, inl, inr,
}
use mathlib.Core.Option
use matrix_goose.Map.{Map, lookup, NodupKeys, lookup-insert, insert-NodupKeys}
use matrix_goose.Room.Common.Route.{ServerName, counted, counts, place, sort_by_count}

-- The members of a server.
abbrev pub population : ServerName → List ServerName → ℕ
population s ss = length (filter (λ t. t == s) ss)

abbrev pub count_of : ServerName → Map ServerName ℕ → ℕ
count_of s m = Option.get_or (lookup s m) 0

count_of-counted :
    (s t : ServerName) (m : Map ServerName ℕ)
    → count_of s (counted t m) ≡ (if t == s then (count_of s m + 1) % 2 ^ 32 else count_of s m)
unfolding counted
count_of-counted s t m =
    ground (arith, lookup-insert s t ((count_of t m + 1) % 2 ^ 32) m, text_eq.beq_iff t s)

-- The counts, from counts that are below the bound of a `u32`.
pub count_of-counts :
    (s : ServerName) (m : Map ServerName ℕ) (ss : List ServerName)
    → count_of s (counts m ss) % 2 ^ 32 ≡ (count_of s m + population s ss) % 2 ^ 32
unfolding counts
count_of-counts s m [] = omega arith
count_of-counts s m (t ∷ ss) = elim (Bool-cases (t == s)) [
  | inl e ↦ rw e (omega (arith, count_of-counts s (counted t m) ss, bumped e))
  | inr e ↦ rw e (omega (arith, count_of-counts s (counted t m) ss, kept e))
]
  where
    bumped : (t == s) ≡ true → count_of s (counted t m) ≡ (count_of s m + 1) % 2 ^ 32
    bumped e =
        count_of-counted s t m ∙ ap (λ b. if b then (count_of s m + 1) % 2 ^ 32 else count_of s m) e

    kept : (t == s) ≡ false → count_of s (counted t m) ≡ count_of s m
    kept e =
        count_of-counted s t m ∙ ap (λ b. if b then (count_of s m + 1) % 2 ^ 32 else count_of s m) e

pub counts-NodupKeys :
    (m : Map ServerName ℕ) (ss : List ServerName) → NodupKeys m → NodupKeys (counts m ss)
unfolding counts counted
counts-NodupKeys m [] h = h
counts-NodupKeys m (t ∷ ss) h = counts-NodupKeys (counted t m) ss (insert-NodupKeys t _ m h)

abbrev AtMost : ℕ → List (ServerName × ℕ) → Type 0
AtMost n [] = Unit
AtMost n ((s, k) ∷ xs) = (k ≤ n) × AtMost n xs

-- The largest count first.
abbrev pub Descending : List (ServerName × ℕ) → Type 0
Descending [] = Unit
Descending ((s, k) ∷ xs) = AtMost k xs × Descending xs

AtMost-le : (m n : ℕ) (xs : List (ServerName × ℕ)) → m ≤ n → AtMost m xs → AtMost n xs
AtMost-le m n [] l h = tt
AtMost-le m n ((s, k) ∷ xs) l (a, h) = (omega arith, AtMost-le m n xs l h)

AtMost-place :
    (n : ℕ) (x : ServerName × ℕ) (ys : List (ServerName × ℕ))
    → x.1 ≤ n
    → AtMost n ys
    → AtMost n (place x ys)
unfolding place
AtMost-place n x [] l h = (l, tt)
AtMost-place n x (y ∷ ys) l (a, h) = elim (Bool-cases (leb y.1 x.1)) [
  | inl e ↦ rw e (l, (a, h))
  | inr e ↦ rw e (a, AtMost-place n x ys l h)
]

Descending-place :
    (x : ServerName × ℕ) (ys : List (ServerName × ℕ)) → Descending ys → Descending (place x ys)
unfolding place
Descending-place x [] h = (tt, tt)
Descending-place x (y ∷ ys) (a, h) = elim (Bool-cases (leb y.1 x.1)) [
  | inl e ↦ rw e ((ground arith, AtMost-le y.1 x.1 ys (ground arith) a), (a, h))
  | inr e ↦ rw e (AtMost-place y.1 x ys (ground arith) a, Descending-place x ys h)
]

pub sort_by_count-Descending : (xs : List (ServerName × ℕ)) → Descending (sort_by_count xs)
unfolding sort_by_count
sort_by_count-Descending [] = tt
sort_by_count-Descending (x ∷ xs) =
    Descending-place x (sort_by_count xs) (sort_by_count-Descending xs)

lookup-place :
    (s : ServerName) (x : ServerName × ℕ) (ys : List (ServerName × ℕ))
    → lookup x.0 ys ≡ none
    → lookup s (place x ys) ≡ (if x.0 == s then some x.1 else lookup s ys)
unfolding place lookup
lookup-place s x [] h = refl
lookup-place s (k, n) ((j, m) ∷ ys) h =
    ground (
      arith,
      text_eq.beq_iff k s,
      text_eq.beq_iff j s,
      text_eq.beq_iff j k,
      lookup-place s (k, n) ys,
    )

pub lookup-sort_by_count :
    (s : ServerName) (xs : Map ServerName ℕ)
    → NodupKeys xs
    → lookup s (sort_by_count xs) ≡ lookup s xs
unfolding sort_by_count lookup
lookup-sort_by_count s [] h = refl
lookup-sort_by_count s (x ∷ xs) (f, h) =
    lookup-place s x (sort_by_count xs) (lookup-sort_by_count x.0 xs h ∙ f)
    ∙ ap (λ o. if x.0 == s then some x.1 else o) (lookup-sort_by_count s xs h)

NodupKeys-place :
    (x : ServerName × ℕ) (ys : Map ServerName ℕ)
    → lookup x.0 ys ≡ none
    → NodupKeys ys
    → NodupKeys (place x ys)
unfolding place lookup
NodupKeys-place x [] f h = (refl, tt)
NodupKeys-place (k, n) ((j, m) ∷ ys) f (g, h) = ground (
  arith,
  text_eq.beq_iff k j,
  text_eq.beq_iff j k,
  lookup-place j (k, n) ys,
  NodupKeys-place (k, n) ys,
)

pub sort_by_count-NodupKeys : (xs : Map ServerName ℕ) → NodupKeys xs → NodupKeys (sort_by_count xs)
unfolding sort_by_count
sort_by_count-NodupKeys [] h = tt
sort_by_count-NodupKeys (x ∷ xs) (f, h) =
    NodupKeys-place x (sort_by_count xs) (lookup-sort_by_count x.0 xs h ∙ f)
      (sort_by_count-NodupKeys xs h)
