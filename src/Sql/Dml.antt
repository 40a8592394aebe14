-- ===== src/Sql/Dml.antt =====
-- go/sql/builder.go: the statements that apply an intercepted event to the ghost table.
pub mod Bind
pub mod ByName
pub mod Placeholders
use ghost_source_code_readin.Base.{
  ℕ, Bool, true, false, not, Option, none, some, List, [], ◌∷◌, ◌++◌, map, String, length, get_or,
  ◌==◌, if◌then◌else◌, ok, err, ◌>>=◌, ◌>>◌, fail_if, Result,
}
use ghost_source_code_readin.Base.Dict.{Dict, lookup}
use ghost_source_code_readin.Text.{Text, txt, join, concat}
use ghost_source_code_readin.Sql.Value.{Column, Value, null, Encodings, convert_arg}
use ghost_source_code_readin.Sql.Columns.{ColumnList, names, is_subset_of}
use ghost_source_code_readin.Sql.Compare.{
  Build, args_count, not_subset, unique_not_subset, no_shared_columns, no_unique_key_columns,
  escape_name, build_columns_prepared_values, build_equals_prepared_comparison,
  build_set_prepared_clause,
}

-- `tableColumns.Ordinals[name]`: 0 for a name that is not there.
abbrev pub ordinal_of : Option ℕ → ℕ
ordinal_of none = 0
ordinal_of (some i) = i

-- The loop that takes the arguments of some columns out of a row. The row is as long as the table
-- has columns, so that no ordinal lies behind its end; `null` stands for the index panic.
unfoldable pub column_args : Encodings → Dict ℕ → List Value → List Column → List Value
column_args e ordinals args [] = []
column_args e ordinals args (c ∷ cs) =
    convert_arg e c (get_or args (ordinal_of (lookup c.name ordinals)) null)
    ∷ column_args e ordinals args cs

-- The format string of the statement.
unfoldable pub delete_statement : (d t equals_comparison : Text) → Text
unfolding concat
delete_statement d t equals_comparison = concat (
    txt "\n\t\t\tdelete /* gh-ost "
    ∷ d
    ∷ txt "."
    ∷ t
    ∷ txt " */\n\t\t\t\tfrom\n\t\t\t\t\t"
    ∷ d
    ∷ txt "."
    ∷ t
    ∷ txt "\n\t\t\t\twhere\n\t\t\t\t\t"
    ∷ equals_comparison
    ∷ txt "\n\t\t"
    ∷ [])

-- `BuildDMLDeleteQuery`
unfoldable pub build_dml_delete_query :
    Encodings
    → (database table : Text) (table_columns unique_key_columns : ColumnList) (args : List Value)
    → Build (Text × List Value)
build_dml_delete_query e database table table_columns unique_key_columns args = do
  fail_if (not (length args == length table_columns.columns)) args_count
  fail_if (length unique_key_columns.columns == 0) no_unique_key_columns
  let unique_key_args = column_args e table_columns.ordinals args unique_key_columns.columns
  let d = escape_name database
  let t = escape_name table
  equals_comparison ← build_equals_prepared_comparison (names unique_key_columns)
  ok (delete_statement d t equals_comparison, unique_key_args)

-- The format string of the statement.
unfoldable pub insert_statement : (d t names_listing values_listing : Text) → Text
unfolding concat
insert_statement d t names_listing values_listing = concat (
    txt "\n\t\t\treplace /* gh-ost "
    ∷ d
    ∷ txt "."
    ∷ t
    ∷ txt " */ into\n\t\t\t\t"
    ∷ d
    ∷ txt "."
    ∷ t
    ∷ txt "\n\t\t\t\t\t("
    ∷ names_listing
    ∷ txt ")\n\t\t\t\tvalues\n\t\t\t\t\t("
    ∷ values_listing
    ∷ txt ")\n\t\t"
    ∷ [])

-- `BuildDMLInsertQuery`
unfoldable pub build_dml_insert_query :
    Encodings
    → (database table : Text)
    → (table_columns shared_columns mapped_shared_columns : ColumnList) (args : List Value)
    → Build (Text × List Value)
build_dml_insert_query e database table table_columns shared_columns mapped_shared_columns args = do
  fail_if (not (length args == length table_columns.columns)) args_count
  fail_if (not (is_subset_of shared_columns table_columns)) not_subset
  fail_if (length shared_columns.columns == 0) no_shared_columns
  let d = escape_name database
  let t = escape_name table
  let shared_args = column_args e table_columns.ordinals args shared_columns.columns
  ok (
    insert_statement d t (join (map escape_name (names mapped_shared_columns)) (txt ", "))
        (join (build_columns_prepared_values mapped_shared_columns) (txt ", ")),
    shared_args,
  )

-- The error of the `set` clause is overwritten, and that of the comparison is dropped: a failure
-- leaves an empty text.
abbrev pub text_or_empty : Build Text → Text
text_or_empty (ok t) = t
text_or_empty (err e) = []

-- The format string of the statement.
unfoldable pub update_statement : (d t set_clause equals_comparison : Text) → Text
unfolding concat
update_statement d t set_clause equals_comparison = concat (
    txt "\n \t\t\tupdate /* gh-ost "
    ∷ d
    ∷ txt "."
    ∷ t
    ∷ txt " */\n \t\t\t\t\t"
    ∷ d
    ∷ txt "."
    ∷ t
    ∷ txt "\n\t\t\t\tset\n\t\t\t\t\t"
    ∷ set_clause
    ∷ txt "\n\t\t\t\twhere\n \t\t\t\t\t"
    ∷ equals_comparison
    ∷ txt "\n \t\t"
    ∷ [])

-- `BuildDMLUpdateQuery`: the text, the shared arguments and the unique key's arguments.
unfoldable pub build_dml_update_query :
    Encodings
    → (database table : Text)
    → (table_columns shared_columns mapped_shared_columns unique_key_columns : ColumnList)
    → (value_args where_args : List Value) → Build (Text × List Value × List Value)
build_dml_update_query e database table table_columns shared_columns mapped_shared_columns
      unique_key_columns value_args where_args =
    do
      fail_if (not (length value_args == length table_columns.columns)) args_count
      fail_if (not (length where_args == length table_columns.columns)) args_count
      fail_if (not (is_subset_of shared_columns table_columns)) not_subset
      fail_if (not (is_subset_of unique_key_columns shared_columns)) unique_not_subset
      fail_if (length shared_columns.columns == 0) no_shared_columns
      fail_if (length unique_key_columns.columns == 0) no_unique_key_columns
      let d = escape_name database
      let t = escape_name table
      let shared_args = column_args e table_columns.ordinals value_args shared_columns.columns
      let unique_key_args =
          column_args e table_columns.ordinals where_args unique_key_columns.columns
      ok (
        update_statement d t (text_or_empty (build_set_prepared_clause mapped_shared_columns))
            (text_or_empty (build_equals_prepared_comparison (names unique_key_columns))),
        shared_args,
        unique_key_args,
      )
