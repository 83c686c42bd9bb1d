-- ===== src/Room/Common/Route.antt =====
-- `route` and the permalinks of src/matrix/room/common.rs. Parameters: the state event of the
-- servers that are allowed, and the joined members. `sort_unstable_by` leaves the order of equal
-- counts open; here they keep the order of the map.
pub mod Ranking
pub mod Keys
pub mod Power
pub mod Servers
use matrix_goose.Prelude.{
  ℕ, ◌+◌, ◌%◌, ◌^◌, Bool, true, false, not, ◌&&◌, Option, none, some, String, List, [], ◌∷◌, ◌++◌,
  map, filter, take, leb, ◌==◌, text_eq, if◌then◌else◌,
}
use mathlib.Core.Option
use matrix_goose.Map.{Map, lookup, insert}
use matrix_goose.Exec.{Result, ok, err}
use matrix_goose.Error.{Error}

-- A power level, an `i64`.
pub data ℤ : Type 0 where
  pos negsuc : ℕ → ℤ

abbrev pub int_leb : ℤ → ℤ → Bool
int_leb (pos a) (pos b) = leb a b
int_leb (pos a) (negsuc b) = false
int_leb (negsuc a) (pos b) = true
int_leb (negsuc a) (negsuc b) = leb b a

abbrev pub ServerName : Type 0
ServerName = String

-- A joined member: the server of its identifier, and its power level.
pub record Member : Type 0 where
  pub server : ServerName
  pub is_ip_literal : Bool
  pub power_level : ℤ

-- The filter of the members, for the predicate of the servers that are allowed.
unfoldable pub eligible : (ServerName → Bool) → List Member → List Member
eligible is_allowed = filter (λ m. is_allowed m.server && not m.is_ip_literal)

-- `max_by_key`, which takes the last of equal ones.
unfoldable pub best_from : Member → List Member → Member
best_from m [] = m
best_from m (x ∷ xs) = best_from (if int_leb m.power_level x.power_level then x else m) xs

abbrev pub best : List Member → Option Member
best [] = none
best (m ∷ ms) = some (best_from m ms)

abbrev pub if_powerful : Option Member → Option ServerName
if_powerful none = none
if_powerful (some m) = if int_leb (pos 50) m.power_level then some m.server else none

-- The server of the most powerful member, if it has enough power.
unfoldable pub max_server : List Member → Option ServerName
unfolding best_from
max_server ms = if_powerful (best ms)

abbrev pub differs : Option ServerName → ServerName → Bool
differs none s = true
differs (some m) s = not (m == s)

-- `*servers.entry(server).or_default() += 1`, on a `u32`
unfoldable pub counted : ServerName → Map ServerName ℕ → Map ServerName ℕ
counted s m = insert s ((Option.get_or (lookup s m) 0 + 1) % 2 ^ 32) m

unfoldable pub counts : Map ServerName ℕ → List ServerName → Map ServerName ℕ
counts m [] = m
counts m (s ∷ ss) = counts (counted s m) ss

unfoldable pub place : ServerName × ℕ → List (ServerName × ℕ) → List (ServerName × ℕ)
place x [] = x ∷ []
place x (y ∷ ys) = let rest = place x ys in if leb y.1 x.1 then x ∷ y ∷ ys else y ∷ rest

-- `sort_unstable_by`, the largest count first
unfoldable pub sort_by_count : List (ServerName × ℕ) → List (ServerName × ℕ)
sort_by_count [] = []
sort_by_count (x ∷ xs) = place x (sort_by_count xs)

abbrev pub others : List Member → List ServerName
others ms = filter (differs (max_server ms)) (map (λ m. m.server) ms)

abbrev pub ranked : List Member → List (ServerName × ℕ)
ranked ms = sort_by_count (counts [] (others ms))

abbrev pub option_list : Option ServerName → List ServerName
option_list none = []
option_list (some s) = s ∷ []

-- The servers of the members that the filter leaves.
unfoldable pub servers_of : List Member → List ServerName
unfolding max_server sort_by_count place counts counted
servers_of ms = take 3 (option_list (max_server ms) ++ map (λ e. e.0) (ranked ms))

pub record RouteStore (W : Type 0) : Type 1 where
  pub Raw : Type 0
  pub Acl : Type 0
  pub acl_event : W → Result Error (Option Raw) × W
  -- The event, deserialised and not redacted.
  pub original : Raw → Option Acl
  pub is_allowed : Acl → ServerName → Bool
  pub joined_members : W → Result Error (List Member) × W
  pub room_id : String
  pub canonical_alias : W → Option String
  pub alt_aliases : W → List String

-- `Vec::pop`
abbrev pub last : List String → Option String
last [] = none
last (a ∷ []) = some a
last (a ∷ b ∷ more) = last (b ∷ more)

-- What a link names: an alias, or a room with servers, for an event or not.
pub data Link : Type 0 where
  of_alias : String → Link
  of_room : String → List ServerName → Link
  of_event : String → String → List ServerName → Link

module _ {W : Type 0} (S : RouteStore W) where
  abbrev pub allowed : Option S.Acl → ServerName → Bool
  allowed none s = true
  allowed (some a) s = S.is_allowed a s

  abbrev pub acl_of : Option S.Raw → Option S.Acl
  acl_of none = none
  acl_of (some raw) = S.original raw

  abbrev pub routed :
      Option S.Acl → Result Error (List Member) × W → Result Error (List ServerName) × W
  routed acl (err e, w) = (err e, w)
  routed acl (ok ms, w) = (ok (servers_of (eligible (allowed acl) ms)), w)

  abbrev pub with_acl : Result Error (Option S.Raw) × W → Result Error (List ServerName) × W
  with_acl (err e, w) = (err e, w)
  with_acl (ok o, w) = routed (acl_of o) (S.joined_members w)

  unfoldable pub route : W → Result Error (List ServerName) × W
  unfolding servers_of eligible
  route w = with_acl (S.acl_event w)

  abbrev pub via :
      (List ServerName → Link) → Result Error (List ServerName) × W → Result Error Link × W
  via f (err e, w) = (err e, w)
  via f (ok ss, w) = (ok (f ss), w)

  abbrev pub alias_or : Option String → Option String → Option String
  alias_or (some a) o = some a
  alias_or none o = o

  abbrev pub linked : Option String → W → Result Error Link × W
  linked (some a) w = (ok (of_alias a), w)
  linked none w = via (of_room S.room_id) (route w)

  -- `matrix_to_permalink`, and `matrix_permalink`, which puts the same into a URI
  unfoldable pub permalink : W → Result Error Link × W
  permalink w = linked (alias_or (S.canonical_alias w) (last (S.alt_aliases w))) w

  -- `matrix_to_event_permalink`, and `matrix_event_permalink`
  unfoldable pub event_permalink : String → W → Result Error Link × W
  event_permalink event w = via (of_event S.room_id event) (route w)
