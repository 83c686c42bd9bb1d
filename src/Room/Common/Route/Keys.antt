-- ===== src/Room/Common/Route/Keys.antt =====
-- Lists of servers and the keys of their counts, for the route of src/matrix/room/common.rs.
use matrix_goose.Prelude.{
  ℕ, zero, suc, ◌≤◌, ◌≡◌, refl, Bool, true, false, none, List, [], ◌∷◌, map, filter, any, take,
  length, leb, ◌==◌, text_eq, arith, Bool-cases, inl, inr, beq_refl,
}
use matrix_goose.Map.{Map, lookup, insert, NodupKeys}
use matrix_goose.Room.Common.Route.{ServerName, counted, counts, place, sort_by_count}

abbrev pub All {ℓ} : {A : Type ℓ} → (A → Type 0) → List A → Type 0
All P [] = Unit
All P (x ∷ xs) = P x × All P xs

abbrev pub Distinct : List ServerName → Type 0
Distinct [] = Unit
Distinct (s ∷ ss) = (any (λ t. t == s) ss ≡ false) × Distinct ss

pub length-take3 : {A : Type 0} (xs : List A) → length (take 3 xs) ≤ 3
length-take3 [] = omega arith
length-take3 (a ∷ []) = omega arith
length-take3 (a ∷ b ∷ []) = omega arith
length-take3 (a ∷ b ∷ c ∷ xs) = omega arith

pub All-take : {A : Type 0} (P : A → Type 0) (n : ℕ) (xs : List A) → All P xs → All P (take n xs)
All-take P zero xs h = tt
All-take P (suc n) [] h = tt
All-take P (suc n) (x ∷ xs) (p, h) = (p, All-take P n xs h)

pub any-take :
    (p : ServerName → Bool) (n : ℕ) (xs : List ServerName)
    → any p xs ≡ false
    → any p (take n xs) ≡ false
any-take p zero xs h = refl
any-take p (suc n) [] h = refl
any-take p (suc n) (x ∷ xs) h = ground (arith, any-take p n xs)

pub Distinct-take : (n : ℕ) (xs : List ServerName) → Distinct xs → Distinct (take n xs)
Distinct-take zero xs h = tt
Distinct-take (suc n) [] h = tt
Distinct-take (suc n) (x ∷ xs) (f, h) = (any-take (λ t. t == x) n xs f, Distinct-take n xs h)

abbrev pub keys : Map ServerName ℕ → List ServerName
keys m = map (λ e. e.0) m

pub any-keys :
    (s : ServerName) (m : Map ServerName ℕ) → lookup s m ≡ none → any (λ t. t == s) (keys m) ≡ false
unfolding lookup
any-keys s [] h = refl
any-keys s ((t, n) ∷ m) h = ground (arith, any-keys s m)

pub Distinct-keys : (m : Map ServerName ℕ) → NodupKeys m → Distinct (keys m)
Distinct-keys [] h = tt
Distinct-keys ((s, n) ∷ m) (f, h) = (any-keys s m f, Distinct-keys m h)

module _ (P : ServerName → Type 0) where
  pub keys-insert :
      (s : ServerName) (n : ℕ) (m : Map ServerName ℕ)
      → P s
      → All P (keys m)
      → All P (keys (insert s n m))
  unfolding insert
  keys-insert s n [] p h = (p, tt)
  keys-insert s n ((t, k) ∷ m) p (q, h) = elim (Bool-cases (t == s)) [
    | inl e ↦ rw e (q, h)
    | inr e ↦ rw e (q, keys-insert s n m p h)
  ]

  pub keys-counts :
      (m : Map ServerName ℕ) (ss : List ServerName)
      → All P (keys m)
      → All P ss
      → All P (keys (counts m ss))
  unfolding counts counted
  keys-counts m [] h u = h
  keys-counts m (s ∷ ss) h (p, u) = keys-counts (counted s m) ss (keys-insert s _ m p h) u

  pub keys-place :
      (x : ServerName × ℕ) (ys : Map ServerName ℕ)
      → P x.0
      → All P (keys ys)
      → All P (keys (place x ys))
  unfolding place
  keys-place x [] p h = (p, tt)
  keys-place (s, n) ((t, k) ∷ ys) p (q, h) = elim (Bool-cases (leb k n)) [
    | inl e ↦ rw e (p, (q, h))
    | inr e ↦ rw e (q, keys-place (s, n) ys p h)
  ]

  pub keys-sort : (m : Map ServerName ℕ) → All P (keys m) → All P (keys (sort_by_count m))
  unfolding sort_by_count
  keys-sort [] h = tt
  keys-sort ((s, n) ∷ m) (p, h) = keys-place (s, n) (sort_by_count m) p (keys-sort m h)

  pub All-filter : (d : ServerName → Bool) (ss : List ServerName) → All P ss → All P (filter d ss)
  All-filter d [] h = tt
  All-filter d (s ∷ ss) (p, h) = elim (Bool-cases (d s)) [
    | inl e ↦ rw e (p, All-filter d ss h)
    | inr e ↦ rw e (All-filter d ss h)
  ]

pub All-mono :
    (P Q : ServerName → Type 0) (ss : List ServerName)
    → ((s : ServerName) → P s → Q s)
    → All P ss
    → All Q ss
All-mono P Q [] f h = tt
All-mono P Q (s ∷ ss) f (p, h) = (f s p, All-mono P Q ss f h)

pub All-names : (ss : List ServerName) → All (λ s. any (λ t. t == s) ss ≡ true) ss
All-names [] = tt
All-names (s ∷ ss) = (
  ground (arith, beq_refl s),
  All-mono (λ x. any (λ t. t == x) ss ≡ true) (λ x. any (λ t. t == x) (s ∷ ss) ≡ true) ss
      (λ x h. ground arith) (All-names ss),
)
