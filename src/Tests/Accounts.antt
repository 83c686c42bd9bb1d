-- ===== src/Tests/Accounts.antt =====
-- Direct chats of src/matrix/account.rs and src/matrix/room/common.rs.
use matrix_goose.Prelude.{◌≡◌, refl, [], ◌∷◌, text_eq}
use matrix_goose.Map.{lookup}
use matrix_goose.Account.{Direct, mark_members, unmark}
use matrix_goose.Account.Direct.{unmark-mark_members}

abbrev some_chats : Direct
some_chats = ("@a", "!x" ∷ []) ∷ []

unmark-mark_members_example :
    lookup "@a" (unmark "!y" (mark_members "!y" ("@a" ∷ "@b" ∷ []) some_chats))
    ≡ lookup "@a" some_chats
unfolding lookup
unmark-mark_members_example =
    unmark-mark_members "@a" "!y" ("@a" ∷ "@b" ∷ []) some_chats (refl, tt) refl (λ p. cc)
