-- ===== src/Room/Common/Route/Servers.antt =====
-- Which servers `route` answers (src/matrix/room/common.rs).
use matrix_goose.Prelude.{
  ℕ, ◌%◌, ◌^◌, ◌≤◌, ◌≡◌, refl, ap, subst, Bool, true, false, Option, none, some, List, [], ◌∷◌,
  ◌++◌, map, filter, any, take, length, ◌==◌, text_eq, if◌then◌else◌, arith, Bool-cases, inl, inr,
  beq_refl,
}
use mathlib.Core.Option
use matrix_goose.Map.{lookup, NodupKeys}
use matrix_goose.Room.Common.Route.{
  ServerName, Member, int_leb, best_from, max_server, differs, counts, others, ranked, option_list,
  servers_of, pos,
}
use matrix_goose.Room.Common.Route.Ranking.{
  population, count_of, count_of-counts, counts-NodupKeys, Descending, sort_by_count-Descending,
  lookup-sort_by_count, sort_by_count-NodupKeys,
}
use matrix_goose.Room.Common.Route.Power.{Tops, max_server-Tops}
use matrix_goose.Room.Common.Route.Keys.{
  All, Distinct, length-take3, All-take, Distinct-take, keys, Distinct-keys, All-names, keys-counts,
  keys-sort, All-filter,
}

abbrev pub names : List Member → List ServerName
names ms = map (λ m. m.server) ms

-- A server of one of the members.
abbrev pub IsServed : List Member → ServerName → Type 0
IsServed ms s = any (λ t. t == s) (names ms) ≡ true

best_from-IsServed : (m : Member) (ms : List Member) → IsServed (m ∷ ms) (best_from m ms).server
unfolding best_from
best_from-IsServed m [] = ground (arith, beq_refl m.server)
best_from-IsServed m (x ∷ xs) =
    go (int_leb m.power_level x.power_level) (λ y. best_from-IsServed y xs)
  where
    later : (s : ServerName) → IsServed (x ∷ xs) s → IsServed (m ∷ x ∷ xs) s
    later s h = ground arith

    skip : (s : ServerName) → IsServed (m ∷ xs) s → IsServed (m ∷ x ∷ xs) s
    skip s h = ground arith

    go :
        (b : Bool)
        → ((y : Member) → IsServed (y ∷ xs) (best_from y xs).server)
        → IsServed (m ∷ x ∷ xs) (best_from (if b then x else m) xs).server
    go true served = later (best_from x xs).server (served x)
    go false served = skip (best_from m xs).server (served m)

max_server-IsServed : (ms : List Member) (s : ServerName) → max_server ms ≡ some s → IsServed ms s
unfolding max_server
max_server-IsServed [] s h = cc
max_server-IsServed (m ∷ ms) s h =
    go (int_leb (pos 50) (best_from m ms).power_level) (best_from-IsServed m ms) h
  where
    go :
        (b : Bool)
        → IsServed (m ∷ ms) (best_from m ms).server
        → (if b then some (best_from m ms).server else none) ≡ some s
        → IsServed (m ∷ ms) s
    go true p k = subst (IsServed (m ∷ ms)) (ap (λ o. Option.get_or o s) k) p
    go false p k = cc

All-filter_self :
    (d : ServerName → Bool) (ss : List ServerName) → All (λ s. d s ≡ true) (filter d ss)
All-filter_self d [] = tt
All-filter_self d (s ∷ ss) = elim (Bool-cases (d s)) [
  | inl e ↦ rw e (e, All-filter_self d ss)
  | inr e ↦ rw e (All-filter_self d ss)
]

any-differs :
    (m : ServerName) (ss : List ServerName)
    → All (λ s. differs (some m) s ≡ true) ss
    → any (λ t. t == m) ss ≡ false
any-differs m [] h = refl
any-differs m (s ∷ ss) (d, h) =
    ground (arith, any-differs m ss h, text_eq.beq_iff m s, text_eq.beq_iff s m)

population-others :
    (o : Option ServerName) (s : ServerName) (ss : List ServerName)
    → population s (filter (differs o) ss) ≡ (if differs o s then population s ss else 0)
population-others none s [] = refl
population-others none s (t ∷ ss) = ground (arith, population-others none s ss)
population-others (some m) s [] = ground arith
population-others (some m) s (t ∷ ss) = ground (
  arith,
  population-others (some m) s ss,
  text_eq.beq_iff m s,
  text_eq.beq_iff m t,
  text_eq.beq_iff t s,
)

-- The server that the route starts with, if any, is left out.
abbrev pub left_population : Option ServerName → ServerName → List ServerName → ℕ
left_population none s ss = population s ss
left_population (some m) s ss = if m == s then 0 else population s ss

left_population_lem :
    (o : Option ServerName) (s : ServerName) (ss : List ServerName)
    → (if differs o s then population s ss else 0) ≡ left_population o s ss
left_population_lem none s ss = refl
left_population_lem (some m) s ss = elim (Bool-cases (m == s)) [
  | inl e ↦ rw e refl
  | inr e ↦ rw e refl
]

-- The members' servers but that of the most powerful one, ranked by their members.
abbrev pub Ranks : Option ServerName → List Member → ServerName → List (ServerName × ℕ) → Type 0
Ranks o ms s rank =
    Descending rank
    × NodupKeys rank
    × (count_of s rank % 2 ^ 32 ≡ left_population o s (names ms) % 2 ^ 32)

ranked-Ranks : (ms : List Member) (s : ServerName) → Ranks (max_server ms) ms s (ranked ms)
unfolding lookup
ranked-Ranks ms s =
    let m = counts [] (others ms) in
    let nodup = counts-NodupKeys [] (others ms) tt in
    (
      sort_by_count-Descending m,
      sort_by_count-NodupKeys m nodup,
      omega (
        arith,
        ap (λ o. Option.get_or o 0) (lookup-sort_by_count s m nodup),
        count_of-counts s [] (others ms),
        population-others (max_server ms) s (names ms),
        left_population_lem (max_server ms) s (names ms),
      ),
    )

-- A property of all servers that are counted holds of all that are ranked.
All-ranked :
    (P : ServerName → Type 0) (ms : List Member) → All P (others ms) → All P (keys (ranked ms))
All-ranked P ms h = keys-sort P (counts [] (others ms)) (keys-counts P [] (others ms) tt h)

Distinct-top :
    (o : Option ServerName) (ss : List ServerName)
    → All (λ s. differs o s ≡ true) ss
    → Distinct ss
    → Distinct (option_list o ++ ss)
Distinct-top none ss h d = d
Distinct-top (some m) ss h d = (any-differs m ss h, d)

All-top :
    (P : ServerName → Type 0) (o : Option ServerName) (ss : List ServerName)
    → ((s : ServerName) → o ≡ some s → P s)
    → All P ss
    → All P (option_list o ++ ss)
All-top P none ss f h = h
All-top P (some m) ss f h = (f m refl, h)

-- The answer for the members that the filter leaves, as to one server.
abbrev pub Routes : List Member → ServerName → List ServerName → Type 0
Routes ms s servers =
    (length servers ≤ 3)
    × Distinct servers
    × All (IsServed ms) servers
    × ((top : Option ServerName) × (rank : List (ServerName × ℕ)) × Tops ms top
        × (servers ≡ take 3 (option_list top ++ keys rank))
        × Ranks top ms s rank)

pub servers_of-Routes : (ms : List Member) (s : ServerName) → Routes ms s (servers_of ms)
unfolding servers_of
servers_of-Routes ms s = (
  length-take3 all,
  Distinct-take 3 all (
      Distinct-top (max_server ms) (keys (ranked ms))
        (All-ranked (λ x. differs (max_server ms) x ≡ true) ms
          (All-filter_self (differs (max_server ms)) (names ms)))
        (Distinct-keys (ranked ms) (ranked-Ranks ms s).1)),
  All-take (IsServed ms) 3 all (
      All-top (IsServed ms) (max_server ms) (keys (ranked ms)) (max_server-IsServed ms) (
        All-ranked (IsServed ms) ms
          (All-filter (IsServed ms) (differs (max_server ms)) (names ms) (All-names (names ms))))),
  (max_server ms, ranked ms, max_server-Tops ms, refl, ranked-Ranks ms s),
)
  where
    all : List ServerName
    all = option_list (max_server ms) ++ keys (ranked ms)
