-- ===== src/Room/Common/Route/Power.antt =====
-- The most powerful member of a room, for the route of src/matrix/room/common.rs.
use matrix_goose.Prelude.{
  ◌≤◌, ◌<◌, ◌≡◌, refl, Bool, true, false, Option, none, some, List, [], ◌∷◌, ◌⊎◌, inl, inr, arith,
  if◌then◌else◌,
}
use matrix_goose.Room.Common.Route.{
  ℤ, pos, negsuc, int_leb, ServerName, Member, best_from, max_server,
}

-- The order of the levels.
abbrev pub AtMost : ℤ → ℤ → Type 0
AtMost (pos a) (pos b) = a ≤ b
AtMost (pos a) (negsuc b) = ⊥
AtMost (negsuc a) (pos b) = Unit
AtMost (negsuc a) (negsuc b) = b ≤ a

-- The level is below 50.
abbrev pub IsWeak : ℤ → Type 0
IsWeak (pos a) = a < 50
IsWeak (negsuc a) = Unit

int_leb-AtMost : (x y : ℤ) → int_leb x y ≡ true → AtMost x y
int_leb-AtMost (pos a) (pos b) h = ground (arith, h)
int_leb-AtMost (pos a) (negsuc b) h = cc
int_leb-AtMost (negsuc a) (pos b) h = tt
int_leb-AtMost (negsuc a) (negsuc b) h = ground (arith, h)

int_leb-AtMost_flip : (x y : ℤ) → int_leb x y ≡ false → AtMost y x
int_leb-AtMost_flip (pos a) (pos b) h = ground (arith, h)
int_leb-AtMost_flip (pos a) (negsuc b) h = tt
int_leb-AtMost_flip (negsuc a) (pos b) h = cc
int_leb-AtMost_flip (negsuc a) (negsuc b) h = ground (arith, h)

AtMost-trans : (x y z : ℤ) → AtMost x y → AtMost y z → AtMost x z
AtMost-trans (pos a) (pos b) (pos c) h k = omega arith
AtMost-trans (pos a) (pos b) (negsuc c) h k = k
AtMost-trans (pos a) (negsuc b) z h k = absurd h
AtMost-trans (negsuc a) y (pos c) h k = tt
AtMost-trans (negsuc a) (pos b) (negsuc c) h k = absurd k
AtMost-trans (negsuc a) (negsuc b) (negsuc c) h k = omega arith

AtMost-refl : (x : ℤ) → AtMost x x
AtMost-refl (pos a) = omega arith
AtMost-refl (negsuc a) = omega arith

int_leb-IsWeak : (x : ℤ) → int_leb (pos 50) x ≡ false → IsWeak x
int_leb-IsWeak (pos a) h = ground (arith, h)
int_leb-IsWeak (negsuc a) h = tt

AtMost-IsWeak : (x y : ℤ) → AtMost x y → IsWeak y → IsWeak x
AtMost-IsWeak (pos a) (pos b) h k = omega arith
AtMost-IsWeak (pos a) (negsuc b) h k = absurd h
AtMost-IsWeak (negsuc a) y h k = tt

abbrev pub Has : Member → List Member → Type 0
Has m [] = ⊥
Has m (x ∷ xs) = (m ≡ x) ⊎ Has m xs

abbrev pub AllAtMost : ℤ → List Member → Type 0
AllAtMost l [] = Unit
AllAtMost l (x ∷ xs) = AtMost x.power_level l × AllAtMost l xs

abbrev pub AllWeak : List Member → Type 0
AllWeak [] = Unit
AllWeak (x ∷ xs) = IsWeak x.power_level × AllWeak xs

-- The server of a member with at least 50 and the highest level, or none if all have less than 50.
abbrev pub Tops : List Member → Option ServerName → Type 0
Tops ms none = AllWeak ms
Tops ms (some s) =
    (m : Member) × Has m ms
    × (m.server ≡ s)
    × AtMost (pos 50) m.power_level
    × AllAtMost m.power_level ms

AllAtMost-AllWeak : (l : ℤ) (ms : List Member) → AllAtMost l ms → IsWeak l → AllWeak ms
AllAtMost-AllWeak l [] h k = tt
AllAtMost-AllWeak l (x ∷ xs) (a, h) k =
    (AtMost-IsWeak x.power_level l a k, AllAtMost-AllWeak l xs h k)

-- One of the members, at least as powerful as each.
abbrev Most : Member → List Member → Type 0
Most m ms = Has m ms × AllAtMost m.power_level ms

Most-skip :
    (b m x : Member) (xs : List Member)
    → AtMost x.power_level m.power_level
    → Most b (m ∷ xs)
    → Most b (m ∷ x ∷ xs)
Most-skip b m x xs l (inl e, (a, h)) =
    (inl e, (a, (AtMost-trans x.power_level m.power_level b.power_level l a, h)))
Most-skip b m x xs l (inr e, (a, h)) =
    (inr (inr e), (a, (AtMost-trans x.power_level m.power_level b.power_level l a, h)))

Most-take :
    (b m x : Member) (xs : List Member)
    → AtMost m.power_level x.power_level
    → Most b (x ∷ xs)
    → Most b (m ∷ x ∷ xs)
Most-take b m x xs l (e, (a, h)) =
    (inr e, (AtMost-trans m.power_level x.power_level b.power_level l a, (a, h)))

best_from-Most : (m : Member) (ms : List Member) → Most (best_from m ms) (m ∷ ms)
unfolding best_from
best_from-Most m [] = (inl refl, (AtMost-refl m.power_level, tt))
best_from-Most m (x ∷ xs) = go (int_leb m.power_level x.power_level) refl (λ y. best_from-Most y xs)
  where
    go :
        (b : Bool)
        → int_leb m.power_level x.power_level ≡ b
        → ((y : Member) → Most (best_from y xs) (y ∷ xs))
        → Most (best_from (if b then x else m) xs) (m ∷ x ∷ xs)
    go true e rec =
        Most-take (best_from x xs) m x xs (int_leb-AtMost m.power_level x.power_level e) (rec x)
    go false e rec =
        Most-skip (best_from m xs) m x xs (int_leb-AtMost_flip m.power_level x.power_level e)
          (rec m)

pub max_server-Tops : (ms : List Member) → Tops ms (max_server ms)
unfolding max_server
max_server-Tops [] = tt
max_server-Tops (m ∷ ms) = go (int_leb (pos 50) b.power_level) refl
  where
    b : Member
    b = best_from m ms

    go :
        (c : Bool)
        → int_leb (pos 50) b.power_level ≡ c
        → Tops (m ∷ ms) (if c then some b.server else none)
    go true e =
        let (h, a) = best_from-Most m ms in (b, h, refl, int_leb-AtMost (pos 50) b.power_level e, a)
    go false e =
        AllAtMost-AllWeak b.power_level (m ∷ ms) (best_from-Most m ms).1
          (int_leb-IsWeak b.power_level e)
