-- ===== src/Sql/Compare.antt =====
-- go/sql/builder.go: names, placeholders, and comparisons of columns with values.
pub mod Meaning
pub mod Placeholders
use ghost_source_code_readin.Base.{
  ℕ, zero, suc, Bool, true, false, ◌&&◌, not, Option, none, some, List, [], ◌∷◌, ◌++◌, map, String,
  length, ◌==◌, if◌then◌else◌, Result, ok, err, ◌>>=◌, ◌>>◌, fail_if,
}
use ghost_source_code_readin.Text.{Text, txt, join, is_empty}
use ghost_source_code_readin.Text.Unquote.{unquote}
use ghost_source_code_readin.Sql.Value.{Column, ColumnType, json, Value}
use ghost_source_code_readin.Sql.Columns.{ColumnList, names}

pub data Sign : Type 0 where
  less less_or_equals equals greater_or_equals greater not_equals : Sign

unfoldable pub sign_text : Sign → Text
sign_text less = txt "<"
sign_text less_or_equals = txt "<="
sign_text equals = txt "="
sign_text greater_or_equals = txt ">="
sign_text greater = txt ">"
sign_text not_equals = txt "!="

-- The errors of the builder, each with the numbers of its message.
pub data BuildError : Type 0 where
  empty_column empty_value : BuildError
  no_columns no_shared_columns no_unique_key_columns : BuildError
  columns_values columns_args : ℕ → ℕ → BuildError
  args_count not_subset unique_not_subset : BuildError

abbrev pub Build : Type 0 → Type 0
Build = Result BuildError

abbrev pub unquoted_or : Text → Option Text → Text
unquoted_or name none = name
unquoted_or name (some unquoted) = unquoted

-- `EscapeName`
unfoldable pub escape_name : Text → Text
escape_name name = txt "`" ++ (unquoted_or name (unquote name) ++ txt "`")

abbrev pub is_json : ColumnType → Bool
is_json json = true
is_json _ = false

-- `convert_tz(?, '<zone>', '+00:00')`
unfoldable pub convert_tz : Text → Text
convert_tz zone = txt "convert_tz(?, '" ++ (zone ++ txt "', '+00:00')")

abbrev pub prepared_token : Option Text → Bool → Text
prepared_token (some zone) is_json = convert_tz zone
prepared_token none true = txt "convert(? using utf8mb4)"
prepared_token none false = txt "?"

unfoldable pub column_token : Column → Text
column_token c = prepared_token c.timezone_conversion (is_json c.column_type)

-- `buildColumnsPreparedValues`
unfoldable pub build_columns_prepared_values : ColumnList → List Text
unfolding column_token
build_columns_prepared_values l = map column_token l.columns

-- `buildPreparedValues`
unfoldable pub build_prepared_values : ℕ → List Text
build_prepared_values zero = []
build_prepared_values (suc n) = txt "?" ∷ build_prepared_values n

unfoldable pub comparison_text : Text → Text → Sign → Text
unfolding sign_text
comparison_text column value sign =
    txt "("
    ++ (escape_name column ++ (txt " " ++ (sign_text sign ++ (txt " " ++ (value ++ txt ")")))))

-- `BuildValueComparison`
unfoldable pub build_value_comparison : Text → Text → Sign → Build Text
build_value_comparison column value sign = do
  fail_if (is_empty column) empty_column
  fail_if (is_empty value) empty_value
  ok (comparison_text column value sign)

-- The loop of `BuildEqualsComparison`.
unfoldable pub equals_comparisons : List Text → List Text → Build (List Text)
equals_comparisons [] values = ok []
equals_comparisons (c ∷ cs) [] = ok []
equals_comparisons (c ∷ cs) (v ∷ vs) = do
  comparison ← build_value_comparison c v equals
  rest ← equals_comparisons cs vs
  ok (comparison ∷ rest)

abbrev pub parens : Text → Text
parens t = txt "(" ++ (t ++ txt ")")

-- `BuildEqualsComparison`
unfoldable pub build_equals_comparison : List Text → List Text → Build Text
unfolding equals_comparisons
build_equals_comparison columns values = do
  fail_if (length columns == 0) no_columns
  fail_if (not (length columns == length values)) (columns_values (length columns) (length values))
  comparisons ← equals_comparisons columns values
  ok (parens (join comparisons (txt " and ")))

-- `BuildEqualsPreparedComparison`
unfoldable pub build_equals_prepared_comparison : List Text → Build Text
unfolding build_equals_comparison build_prepared_values
build_equals_prepared_comparison columns =
    build_equals_comparison columns (build_prepared_values (length columns))

unfoldable pub set_token : Column → Text
unfolding column_token
set_token c = escape_name c.name ++ (txt "=" ++ column_token c)

-- `BuildSetPreparedClause`
unfoldable pub build_set_prepared_clause : ColumnList → Build Text
unfolding set_token
build_set_prepared_clause l = do
  fail_if (length l.columns == 0) no_columns
  ok (join (map set_token l.columns) (txt ", "))

abbrev pub strict_sign : Sign → Sign
strict_sign less_or_equals = less
strict_sign greater_or_equals = greater
strict_sign s = s

abbrev pub includes_equals : Sign → Bool
includes_equals less_or_equals = true
includes_equals greater_or_equals = true
includes_equals s = false

-- One round of the loop of `BuildRangeComparison`: `done` and `done_values` are `columns[0:i]` and
-- `values[0:i]`.
unfoldable pub range_item : List Text → List Text → Text → Build Text
range_item [] done_values range_comparison = ok range_comparison
range_item (c ∷ cs) done_values range_comparison = do
  equalities ← build_equals_comparison (c ∷ cs) done_values
  ok (parens (equalities ++ (txt " AND " ++ range_comparison)))

-- The loop: the comparisons, and the arguments that they take in their order.
unfoldable pub range_items :
    Sign
    → List Text
    → List Text
    → List Value
    → List Text
    → List Text
    → List Value
    → Build (List Text × List Value)
unfolding range_item
range_items sign done done_values done_args [] values args = ok ([], [])
range_items sign done done_values done_args (c ∷ cs) [] args = ok ([], [])
range_items sign done done_values done_args (c ∷ cs) (v ∷ vs) [] = ok ([], [])
range_items sign done done_values done_args (c ∷ cs) (v ∷ vs) (a ∷ more) = do
  range_comparison ← build_value_comparison c v sign
  comparison ← range_item done done_values range_comparison
  rest ← range_items sign (done ++ c ∷ []) (done_values ++ v ∷ []) (done_args ++ a ∷ []) cs vs more
  ok (comparison ∷ rest.0, (done_args ++ a ∷ []) ++ rest.1)

-- What follows the loop. A failure of the last comparison returns no text and no error.
unfoldable pub close_range :
    Bool → List Text → List Text → List Value → List Text × List Value → Build (Text × List Value)
close_range false columns values args (comparisons, exploded) =
    ok (parens (join comparisons (txt " or ")), exploded)
close_range true columns values args (comparisons, exploded) =
    elim (build_equals_comparison columns values) [
      | err e ↦ ok ([], exploded)
      | ok comparison ↦
          ok (parens (join (comparisons ++ comparison ∷ []) (txt " or ")), exploded ++ args)
    ]

-- `BuildRangeComparison`
unfoldable pub build_range_comparison :
    List Text → List Text → List Value → Sign → Build (Text × List Value)
unfolding range_items close_range
build_range_comparison columns values args sign = do
  fail_if (length columns == 0) no_columns
  fail_if (not (length columns == length values)) (columns_values (length columns) (length values))
  fail_if (not (length columns == length args)) (columns_args (length columns) (length args))
  items ← range_items (strict_sign sign) [] [] [] columns values args
  close_range (includes_equals sign) columns values args items

-- `BuildRangePreparedComparison`
unfoldable pub build_range_prepared_comparison :
    ColumnList → List Value → Sign → Build (Text × List Value)
unfolding build_range_comparison build_columns_prepared_values names
build_range_prepared_comparison columns args sign =
    build_range_comparison (names columns) (build_columns_prepared_values columns) args sign
