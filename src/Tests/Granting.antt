-- ===== src/Tests/Granting.antt =====
-- Grants as `validateGrants` of go/logic/inspect.go reads them.
use ghost_source_code_readin.Base.{[], false, ok, refl, true, ◌∷◌, ◌≡◌}
use ghost_source_code_readin.Text.{Text, contains, has_prefix, txt}
use ghost_source_code_readin.Context.Validate.{contains_all_from, string_contains_all}
use ghost_source_code_readin.Logic.Inspector.Grants.{
  all_privileges, are_enough, escape_underscores, grants_database, read_grant, read_grants,
  validate_grants,
}
use ghost_source_code_readin.Logic.Inspector.Grants.Order.{validate_grants-order}
use mathlib.Core.List.{Permᴰ}

abbrev replication : Text
replication = txt "GRANT SUPER, REPLICATION SLAVE ON *.* TO 'u'"

abbrev all_on_my_db : Text
all_on_my_db = txt "GRANT ALL PRIVILEGES ON `my\\_db`.* TO 'u'"

abbrev my_db : Text
my_db = txt "my_db"

enough :
    validate_grants {E = Text} my_db (ok (replication ∷ all_on_my_db ∷ [])) false ≡ (ok tt, true)
unfolding validate_grants read_grants read_grant grants_database all_privileges escape_underscores
    are_enough string_contains_all contains_all_from contains has_prefix txt
enough = refl

validate_grants-order_example :
    validate_grants {E = Text} my_db (ok (replication ∷ all_on_my_db ∷ [])) false
    ≡ validate_grants my_db (ok (all_on_my_db ∷ replication ∷ [])) false
validate_grants-order_example =
    validate_grants-order my_db (replication ∷ all_on_my_db ∷ []) (all_on_my_db ∷ replication ∷ [])
      false (Permᴰ.swap refl refl)
