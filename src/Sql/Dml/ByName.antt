-- ===== src/Sql/Dml/ByName.antt =====
-- Which value of the row a statement's argument is.
use ghost_source_code_readin.Base.{ℕ, ◌≡◌, refl, some, List, [], ◌∷◌, map, All, get_elem?, get_or}
use ghost_source_code_readin.Text.{Text}
use ghost_source_code_readin.Sql.Value.{Column, Value, null, Encodings, convert_arg}
use ghost_source_code_readin.Sql.Columns.{new_column_list}
use ghost_source_code_readin.Sql.Columns.Ordinals.{Distinct, new_column_list-ordinal}
use ghost_source_code_readin.Sql.Dml.{column_args}

-- A column together with the position at which the table has a column of that name.
abbrev pub Placed : List Text → Column × ℕ → Type 0
Placed table_names (c, j) = get_elem? table_names j ≡ some c.name

-- If the table's columns have different names, and each chosen column is one of them, then the
-- arguments of the chosen columns are the values of the row at the places of those columns in the
-- table, each converted by its column, in the order of the choice.
pub column_args_by_name :
    (e : Encodings) (table_names : List Text) (args : List Value) (chosen : List (Column × ℕ))
    → Distinct table_names
    → All (Placed table_names) chosen
    → column_args e
        (new_column_list table_names).ordinals
        args
        (map (λ (p : Column × ℕ). p.0) chosen)
      ≡ map (λ (p : Column × ℕ). convert_arg e p.0 (get_or args p.1 null)) chosen
unfolding column_args
column_args_by_name e table_names args [] d h = refl
column_args_by_name e table_names args ((c, j) ∷ chosen) d h = rw (
  new_column_list-ordinal table_names j c.name d h.0,
  column_args_by_name e table_names args chosen d h.1,
)
