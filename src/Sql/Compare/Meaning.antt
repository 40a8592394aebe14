-- ===== src/Sql/Compare/Meaning.antt =====
-- What the built comparisons mean to the server: conditions of SQL as a data type, their text, the
-- arguments that their placeholders take from left to right, and their value on a row.
pub mod Render
pub mod Lexicographic
use ghost_source_code_readin.Base.{
  Bool, true, false, ◌&&◌, ◌||◌, List, [], ◌∷◌, ◌++◌, map, ◌≢◌, All,
}
use ghost_source_code_readin.Text.{Text, txt}
use ghost_source_code_readin.Sql.Value.{Value}
use ghost_source_code_readin.Sql.Compare.{Sign, equals, comparison_text, parens}

pub data Cond : Type 0 where
  leaf : Text → Text → Value → Sign → Cond
  nested : Cond → Cond
  both both_upper either : Cond → Cond → Cond

unfoldable pub render : Cond → Text
render (leaf column token arg sign) = comparison_text column token sign
render (nested c) = parens (render c)
render (both c d) = render c ++ (txt " and " ++ render d)
render (both_upper c d) = render c ++ (txt " AND " ++ render d)
render (either c d) = render c ++ (txt " or " ++ render d)

unfoldable pub args_of : Cond → List Value
args_of (leaf column token arg sign) = arg ∷ []
args_of (nested c) = args_of c
args_of (both c d) = args_of c ++ args_of d
args_of (both_upper c d) = args_of c ++ args_of d
args_of (either c d) = args_of c ++ args_of d

-- How the server compares two values: a function of the sign.
abbrev pub Comparison : Type 0
Comparison = Sign → Value → Value → Bool

module _ (holds : Comparison) (row : Text → Value) where
  -- The value of a condition on a row.
  unfoldable pub eval : Cond → Bool
  eval (leaf column token arg sign) = holds sign (row column) arg
  eval (nested c) = eval c
  eval (both c d) = eval c && eval d
  eval (both_upper c d) = eval c && eval d
  eval (either c d) = eval c || eval d

-- A key column, the token that stands for its value, and the value.
pub record Part : Type 0 where
  pub column : Text
  pub token : Text
  pub arg : Value

abbrev pub columns_of : List Part → List Text
columns_of = map (λ (p : Part). p.column)

abbrev pub tokens_of : List Part → List Text
tokens_of = map (λ (p : Part). p.token)

abbrev pub values_of : List Part → List Value
values_of = map (λ (p : Part). p.arg)

pub record IsNamed (p : Part) : Type 0 where
  pub column_given : p.column ≢ []
  pub token_given : p.token ≢ []

abbrev pub leaf_of : Sign → Part → Cond
leaf_of sign p = leaf p.column p.token p.arg sign

unfoldable pub both_all : Cond → List Cond → Cond
both_all c [] = c
both_all c (d ∷ ds) = both c (both_all d ds)

unfoldable pub either_all : Cond → List Cond → Cond
either_all c [] = c
either_all c (d ∷ ds) = either c (either_all d ds)

-- Every key column equals its value.
unfoldable pub equal_key : Part → List Part → Cond
unfolding both_all
equal_key p ps = nested (both_all (leaf_of equals p) (map (leaf_of equals) ps))

-- The columns before `p` are equal, and `p` compares.
unfoldable pub item : Sign → List Part → Part → Cond
unfolding equal_key
item sign [] p = leaf_of sign p
item sign (q ∷ qs) p = nested (both_upper (equal_key q qs) (leaf_of sign p))

unfoldable pub items : Sign → List Part → List Part → List Cond
unfolding item
items sign done [] = []
items sign done (p ∷ ps) = item sign done p ∷ items sign (done ++ p ∷ []) ps

abbrev pub last_item : Bool → Part → List Part → List Cond
last_item true p ps = equal_key p ps ∷ []
last_item false p ps = []

-- The condition of a range comparison: the items, and for `<=` and `>=` the equality of all columns.
unfoldable pub range_cond : Sign → Bool → Part → List Part → Cond
unfolding item items either_all
range_cond sign inclusive p ps =
    nested (either_all (item sign [] p) (items sign (p ∷ []) ps ++ last_item inclusive p ps))
