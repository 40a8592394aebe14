-- ===== src/Logic/Operations.antt =====
-- go/logic: functions that return an error, one after the other, each only where the one before it
-- returned nil.
use ghost_source_code_readin.Base.{Bool, true, false, Option, none, some, ◌≡◌, refl}
use ghost_source_code_readin.Logic.Migrator.{Operation}

infixr 4 ◌>>>◌
module _ {ℓ κ} {E : Type ℓ} {S : Type κ} where
  abbrev pub continue_with : Option E × S → Operation E S → Option E × S
  continue_with (some e, s) next = (some e, s)
  continue_with (none, s) next = next s

  -- `if err := op(); err != nil { return err }`, and then the rest.
  abbrev pub ◌>>>◌ : Operation E S → Operation E S → Operation E S
  ◌>>>◌ op next s = continue_with (op s) next

  -- `return nil`
  abbrev pub succeed : Operation E S
  succeed s = (none, s)

  abbrev pub fail_with : E → Operation E S
  fail_with e s = (some e, s)

  abbrev pub modify : (S → S) → Operation E S
  modify f s = (none, f s)

  -- `op()`, with what it returns not looked at.
  abbrev pub ignoring : Operation E S → Operation E S
  ignoring op s = (none, (op s).1)

  abbrev pub only_if : Bool → Operation E S → Operation E S
  only_if true op = op
  only_if false op = succeed

  pub continue_with-none :
      (r : Option E × S) (next : Operation E S) {t : S}
      → continue_with r next ≡ (none, t)
      → (r.0 ≡ none) × (next r.1 ≡ (none, t))
  continue_with-none (some e, s) next h = absurd cc
  continue_with-none (none, s) next h = (refl, h)
