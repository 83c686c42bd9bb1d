-- ===== src/Account/Rules.antt =====
-- `push_rules` of src/matrix/account.rs: the rules that are stored, or the server's default ones.
use matrix_goose.Prelude.{Option, none, some}
use matrix_goose.Exec.{Result, ok, err}
use matrix_goose.Error.{Error}
use matrix_goose.Account.{UserId, AccountData}

module _ {W Ruleset : Type 0} (A : AccountData W Ruleset) (server_default : UserId → Ruleset) where
  -- `unwrap_or_else(...)`; `none` is the panic of `expect`.
  abbrev pub or_default : Option Ruleset → Option UserId → Option Ruleset
  or_default (some r) user = some r
  or_default none (some user) = some (server_default user)
  or_default none none = none

  -- `and_then(...)`: rules that cannot be read count as none.
  abbrev pub readable_rules : Option A.Raw → Option Ruleset
  readable_rules none = none
  readable_rules (some raw) = A.deserialize raw

  abbrev pub as_result : Option Ruleset → Option (Result Error Ruleset)
  as_result none = none
  as_result (some r) = some (ok r)

  abbrev pub rules_of : Result Error (Option A.Raw) × W → Option (Result Error Ruleset) × W
  rules_of (err e, w) = (some (err e), w)
  rules_of (ok o, w) = (as_result (or_default (readable_rules o) (A.user_id w)), w)

  unfoldable pub push_rules : W → Option (Result Error Ruleset) × W
  push_rules w = rules_of (A.stored w)
