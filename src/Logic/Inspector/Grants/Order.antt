-- ===== src/Logic/Inspector/Grants/Order.antt =====
-- The order of the grants, for `validateGrants` of go/logic/inspect.go: a Go map has no order.
use ghost_source_code_readin.Base.{Bool, List, ap, false, ok, refl, true, ◌||◌, ◌∙◌, ◌≡◌}
use ghost_source_code_readin.Text.{Text}
use ghost_source_code_readin.Logic.Inspector.Grants.{
  FoundGrants, read_grant, read_grants, validate_grants, judged, nothing_found,
}
use mathlib.Core.List.{Permᴰ}

or_swap : (a b c : Bool) → (a || (b || c)) ≡ (b || (a || c))
or_swap true true c = refl
or_swap true false c = refl
or_swap false true c = refl
or_swap false false c = refl

found_swap :
    (a0 a1 a2 a3 a4 b0 b1 b2 b3 b4 : Bool) (f : FoundGrants)
    → ◌≡◌ {A = FoundGrants}
        (record {
          found_all = a0 || (b0 || f.found_all);
          found_super = a1 || (b1 || f.found_super);
          found_replication_client = a2 || (b2 || f.found_replication_client);
          found_replication_slave = a3 || (b3 || f.found_replication_slave);
          found_db_all = a4 || (b4 || f.found_db_all);
        })
        (record {
          found_all = b0 || (a0 || f.found_all);
          found_super = b1 || (a1 || f.found_super);
          found_replication_client = b2 || (a2 || f.found_replication_client);
          found_replication_slave = b3 || (a3 || f.found_replication_slave);
          found_db_all = b4 || (a4 || f.found_db_all);
        })
found_swap a0 a1 a2 a3 a4 b0 b1 b2 b3 b4 f = rw (
  or_swap a0 b0 f.found_all,
  or_swap a1 b1 f.found_super,
  or_swap a2 b2 f.found_replication_client,
  or_swap a3 b3 f.found_replication_slave,
  or_swap a4 b4 f.found_db_all,
)

read_grant-swap :
    (name a b : Text) (f : FoundGrants)
    → read_grant name a (read_grant name b f) ≡ read_grant name b (read_grant name a f)
unfolding read_grant
read_grant-swap name a b f = found_swap _ _ _ _ _ _ _ _ _ _ f

read_grants-Perm :
    (name : Text) {gs hs : List Text} (p : Permᴰ gs hs) (f : FoundGrants)
    → read_grants name gs f ≡ read_grants name hs f
unfolding read_grants
read_grants-Perm name Permᴰ.nil f = refl
read_grants-Perm name (Permᴰ.cons {l₁ = gs} same p) f =
    ap (λ g. read_grants name gs (read_grant name g f)) same ∙ read_grants-Perm name p _
read_grants-Perm name (Permᴰ.swap {a} {b} {a'} {b'} {l} same other) f = ap (read_grants name l) (
    ap (λ x. read_grant name x (read_grant name a f)) other
    ∙ ap (λ y. read_grant name a' (read_grant name y f)) same
    ∙ read_grant-swap name a' b' f)
read_grants-Perm name (Permᴰ.trans p q) f = read_grants-Perm name p f ∙ read_grants-Perm name q f

-- The order in which the server and the map give the grants does not matter: to what is returned, nor
-- to whether the user is taken to have the SUPER privilege.
pub validate_grants-order :
    {E : Type 0} (name : Text) (gs hs : List Text) (has_super : Bool)
    → Permᴰ gs hs
    → validate_grants {E = E} name (ok gs) has_super ≡ validate_grants name (ok hs) has_super
unfolding validate_grants
validate_grants-order name gs hs has_super p = ap judged (read_grants-Perm name p nothing_found)
