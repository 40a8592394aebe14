-- ===== src/Logic/Inspector/Grants.antt =====
-- go/logic/inspect.go, `validateGrants`, on the answer of the server: the grants of the user.
pub mod Order
use ghost_source_code_readin.Base.{
  Bool, List, Result, [], err, false, if◌then◌else◌, ok, true, ◌&&◌, ◌++◌, ◌==◌, ◌||◌, ◌∷◌,
}
use ghost_source_code_readin.Text.{Text, contains, txt}
use ghost_source_code_readin.Context.Validate.{string_contains_all}

-- What the loop has found.
pub record FoundGrants : Type 0 where
  pub found_all : Bool
  pub found_super : Bool
  pub found_replication_client : Bool
  pub found_replication_slave : Bool
  pub found_db_all : Bool

pub data GrantError (E : Type 0) : Type 0 where
  grants_failed : E → GrantError E
  insufficient_privileges : GrantError E

-- `strings.Replace(name, "_", "\\_", -1)`
unfoldable pub escape_underscores : Text → Text
escape_underscores [] = []
escape_underscores (c ∷ cs) =
    if c == b'_' then 92 ∷ c ∷ escape_underscores cs else c ∷ escape_underscores cs

-- A text, then ` ON ` and the name of a database in backquotes, then `.*`.
abbrev on_database : Text → Text → Text
on_database before name = before ++ (txt " ON `" ++ (name ++ txt "`.*"))

-- The privileges that together are as good as all.
unfoldable pub all_privileges : List Text
all_privileges =
    txt "ALTER"
    ∷ txt "CREATE"
    ∷ txt "DELETE"
    ∷ txt "DROP"
    ∷ txt "INDEX"
    ∷ txt "INSERT"
    ∷ txt "LOCK TABLES"
    ∷ txt "SELECT"
    ∷ txt "TRIGGER"
    ∷ txt "UPDATE"
    ∷ []

abbrev on_everything : Text → Text → Bool
on_everything privilege grant = contains grant privilege && contains grant (txt " ON *.*")

-- The four conditions under which `foundDBAll` is set.
unfoldable pub grants_database : Text → Text → Bool
unfolding all_privileges escape_underscores
grants_database name grant =
    contains grant (on_database (txt "GRANT ALL PRIVILEGES") name)
    || (contains grant (on_database (txt "GRANT ALL PRIVILEGES") (escape_underscores name))
        || (string_contains_all grant (all_privileges ++ txt " ON *.*" ∷ [])
            || string_contains_all grant (all_privileges ++ on_database [] name ∷ [])))

-- A round of the loop.
unfoldable pub read_grant : Text → Text → FoundGrants → FoundGrants
unfolding grants_database
read_grant name grant f = record {
  found_all = contains grant (txt "GRANT ALL PRIVILEGES ON *.*") || f.found_all;
  found_super = on_everything (txt "SUPER") grant || f.found_super;
  found_replication_client =
      on_everything (txt "REPLICATION CLIENT") grant || f.found_replication_client;
  found_replication_slave =
      on_everything (txt "REPLICATION SLAVE") grant || f.found_replication_slave;
  found_db_all = grants_database name grant || f.found_db_all;
}

unfoldable pub read_grants : Text → List Text → FoundGrants → FoundGrants
unfolding read_grant
read_grants name [] f = f
read_grants name (g ∷ gs) f = read_grants name gs (read_grant name g f)

abbrev pub nothing_found : FoundGrants
nothing_found = record {
  found_all = false;
  found_super = false;
  found_replication_client = false;
  found_replication_slave = false;
  found_db_all = false;
}

unfoldable pub are_enough : FoundGrants → Bool
are_enough f =
    f.found_all
    || ((f.found_super && (f.found_replication_slave && f.found_db_all))
        || (f.found_replication_client && (f.found_replication_slave && f.found_db_all)))

-- What is returned, and `HasSuperPrivilege`.
abbrev judged : {E : Type 0} → FoundGrants → Result (GrantError E) (Unit {0}) × Bool
judged f = ((if are_enough f then ok tt else err insufficient_privileges), f.found_super)

-- `validateGrants`, of the name of the database and of `HasSuperPrivilege` before.
unfoldable pub validate_grants :
    {E : Type 0} → Text → Result E (List Text) → Bool → Result (GrantError E) (Unit {0}) × Bool
unfolding read_grants are_enough
validate_grants name (err e) has_super = (err (grants_failed e), has_super)
validate_grants name (ok grants) has_super = judged (read_grants name grants nothing_found)
