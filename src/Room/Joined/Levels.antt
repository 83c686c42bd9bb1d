-- ===== src/Room/Joined/Levels.antt =====
-- `update_power_levels` of src/matrix/room/joined.rs. Levels are a type with an equality.
use matrix_goose.Prelude.{
  ◌≡◌, refl, sym, ◌∙◌, ap, Bool, true, false, Option, none, some, String, List, [], ◌∷◌, Eq, ◌==◌,
  text_eq, if◌then◌else◌, inl, inr, Bool-cases,
}
use mathlib.Core.Option
use matrix_goose.Map.{Map, lookup, insert, erase, lookup-insert, lookup-erase}
use matrix_goose.Exec.{Result, ok, err}
use matrix_goose.Error.{Error, serde_json, insufficient_data}
use matrix_goose.Account.{UserId}

-- `RoomPowerLevels`: what is changed here, and the rest.
pub record PowerLevels (Level Rest : Type 0) : Type 0 where
  pub users : Map UserId Level
  pub users_default : Level
  pub rest : Rest

-- The level that the last update of a user sets, or another.
abbrev pub updated : {Level : Type 0} → UserId → List (UserId × Level) → Level → Level
updated user [] level = level
updated user ((u, l) ∷ updates) level = updated user updates (if u == user then l else level)

module _ {Level Rest : Type 0} ⦃e : Eq Level⦄ where
  -- `for (user_id, new_level) in updates`
  unfoldable pub set_level : UserId → Level → PowerLevels Level Rest → PowerLevels Level Rest
  set_level user level p =
      if level == p.users_default
      then record p { users = erase user p.users }
      else record p { users = insert user level p.users }

  unfoldable pub set_levels :
      List (UserId × Level) → PowerLevels Level Rest → PowerLevels Level Rest
  set_levels [] p = p
  set_levels ((user, level) ∷ updates) p = set_levels updates (set_level user level p)

  -- The level that a user has.
  abbrev pub level_of : UserId → PowerLevels Level Rest → Level
  level_of user p = Option.get_or (lookup user p.users) p.users_default

  level_of-set_level :
      (user u : UserId) (l : Level) (p : PowerLevels Level Rest)
      → level_of user (set_level u l p) ≡ (if u == user then l else level_of user p)
  unfolding set_level
  level_of-set_level user u l p = elim (Bool-cases (l == p.users_default)) [
    | inl d ↦
        rw (d, lookup-erase user u p.users) (erased (u == user) ((e.beq_iff l p.users_default).0 d))
    | inr d ↦ rw (d, lookup-insert user u l p.users) (inserted (u == user))
  ]
    where
      erased :
          (b : Bool)
          → l ≡ p.users_default
          → Option.get_or (if b then none else lookup user p.users) p.users_default
            ≡ (if b then l else level_of user p)
      erased true same = sym same
      erased false same = refl

      inserted :
          (b : Bool)
          → Option.get_or (if b then some l else lookup user p.users) p.users_default
            ≡ (if b then l else level_of user p)
      inserted true = refl
      inserted false = refl

  -- After the updates each user has the level that the last update for it sets, and its previous one
  -- if there is none: taking the entry of a user away where the level is the default, and writing it
  -- otherwise, comes to the same as setting the level.
  pub level_of-set_levels :
      (user : UserId) (updates : List (UserId × Level)) (p : PowerLevels Level Rest)
      → level_of user (set_levels updates p) ≡ updated user updates (level_of user p)
  unfolding set_levels
  level_of-set_levels user [] p = refl
  level_of-set_levels user ((u, l) ∷ updates) p =
      level_of-set_levels user updates (set_level u l p)
      ∙ ap (updated user updates) (level_of-set_level user u l p)

-- The state event of the room, and the sending of a new one.
pub record LevelStore (W Level Rest : Type 0) : Type 1 where
  pub Raw : Type 0
  -- `get_state_event_static`
  pub stored : W → Result Error (Option Raw) × W
  pub deserialize : Raw → Option (PowerLevels Level Rest)
  -- `send_state_event`
  pub send_levels : PowerLevels Level Rest → W → Result Error String × W

module _ {W Level Rest : Type 0} ⦃e : Eq Level⦄ (S : LevelStore W Level Rest) where
  abbrev pub parsed :
      List (UserId × Level) → Option (PowerLevels Level Rest) → W → Result Error String × W
  parsed updates none w = (err serde_json, w)
  parsed updates (some p) w = S.send_levels (set_levels updates p) w

  abbrev pub read :
      List (UserId × Level) → Result Error (Option S.Raw) × W → Result Error String × W
  read updates (err x, w) = (err x, w)
  read updates (ok none, w) = (err insufficient_data, w)
  read updates (ok (some raw), w) = parsed updates (S.deserialize raw) w

  unfoldable pub update_power_levels : List (UserId × Level) → W → Result Error String × W
  update_power_levels updates w = read updates (S.stored w)
