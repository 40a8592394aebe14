-- ===== src/Sql/Queries.antt =====
-- go/sql/builder.go: the statements of row copy. They copy a range into the ghost table, find the
-- end of the next range, and find the least and the greatest key.
use ghost_source_code_readin.Base.{
  Bool, true, false, List, [], ◌∷◌, ◌++◌, map, length, ◌==◌, ok, ◌>>=◌, ◌>>◌, fail_if,
}
use ghost_source_code_readin.Base.Int.{ℤ, pos, ◌-ℤ◌}
use ghost_source_code_readin.Text.{Text, txt, join, concat}
use ghost_source_code_readin.Text.Decimal.{itoa_int}
use ghost_source_code_readin.Sql.Value.{Column, ColumnType, enum, Value}
use ghost_source_code_readin.Sql.Columns.{ColumnList, names}
use ghost_source_code_readin.Sql.Compare.{
  Sign, less_or_equals, greater_or_equals, greater, Build, no_columns, no_shared_columns,
  escape_name, build_columns_prepared_values, build_range_comparison,
  build_range_prepared_comparison,
}

abbrev pub start_sign : Bool → Sign
start_sign true = greater_or_equals
start_sign false = greater

abbrev transactional_clause : Bool → Text
transactional_clause true = txt "lock in share mode"
transactional_clause false = []

-- The format string of the statement.
unfoldable pub range_insert_statement :
    (d o g mapped_listing shared_listing key start_comparison end_comparison clause : Text) → Text
unfolding concat
range_insert_statement d o g mapped_listing shared_listing key start_comparison end_comparison
      clause =
    concat (
      txt "\n      insert /* gh-ost "
      ∷ d
      ∷ txt "."
      ∷ o
      ∷ txt " */ ignore into "
      ∷ d
      ∷ txt "."
      ∷ g
      ∷ txt " ("
      ∷ mapped_listing
      ∷ txt ")\n      (select "
      ∷ shared_listing
      ∷ txt " from "
      ∷ d
      ∷ txt "."
      ∷ o
      ∷ txt " force index ("
      ∷ key
      ∷ txt ")\n        where ("
      ∷ start_comparison
      ∷ txt " and "
      ∷ end_comparison
      ∷ txt ") "
      ∷ clause
      ∷ txt "\n      )\n    "
      ∷ [])

-- `BuildRangeInsertQuery`
unfoldable pub build_range_insert_query :
    (database original ghost : Text) (shared mapped : List Text) (unique_key : Text)
    → (key_columns : ColumnList) (start_values end_values : List Text)
      (start_args end_args : List Value)
    → (include_start transactional : Bool) → Build (Text × List Value)
build_range_insert_query database original ghost shared mapped unique_key key_columns start_values
      end_values start_args end_args include_start transactional =
    do
      fail_if (length shared == 0) no_shared_columns
      start ←
          build_range_comparison (names key_columns) start_values start_args
            (start_sign include_start)
      end ← build_range_comparison (names key_columns) end_values end_args less_or_equals
      let d = escape_name database
      let o = escape_name original
      let g = escape_name ghost
      ok (
        range_insert_statement d o g (join (map escape_name mapped) (txt ", "))
            (join (map escape_name shared) (txt ", ")) (escape_name unique_key) start.0 end.0
            (transactional_clause transactional),
        start.1 ++ end.1,
      )

-- `BuildRangeInsertPreparedQuery`
unfoldable pub build_range_insert_prepared_query :
    (database original ghost : Text) (shared mapped : List Text) (unique_key : Text)
    → (key_columns : ColumnList) (start_args end_args : List Value)
      (include_start transactional : Bool)
    → Build (Text × List Value)
unfolding build_range_insert_query
build_range_insert_prepared_query database original ghost shared mapped unique_key key_columns
      start_args end_args include_start transactional =
    build_range_insert_query database original ghost shared mapped unique_key key_columns
      (build_columns_prepared_values key_columns) (build_columns_prepared_values key_columns)
      start_args end_args include_start transactional

abbrev order_name : ColumnType → Text → Text
order_name enum name = txt "concat(" ++ (name ++ txt ")")
order_name _ name = name

-- One entry of an `order by`: an enum is ordered by its text.
unfoldable pub order_token : Text → Column → Text
order_token direction c = order_name c.column_type (escape_name c.name) ++ (txt " " ++ direction)

abbrev order_by : Text → ColumnList → Text
order_by direction l = join (map (order_token direction) l.columns) (txt ", ")

abbrev escaped_names : ColumnList → Text
escaped_names l = join (map (λ (c : Column). escape_name c.name) l.columns) (txt ", ")

-- The format string of the statement.
unfoldable pub offset_statement :
    (d t hint listing start_comparison end_comparison ascending offset : Text) → Text
unfolding concat
offset_statement d t hint listing start_comparison end_comparison ascending offset = concat (
    txt "\n\t\t\t\tselect  /* gh-ost "
    ∷ d
    ∷ txt "."
    ∷ t
    ∷ txt " "
    ∷ hint
    ∷ txt " */\n\t\t\t\t\t\t"
    ∷ listing
    ∷ txt "\n\t\t\t\t\tfrom\n\t\t\t\t\t\t"
    ∷ d
    ∷ txt "."
    ∷ t
    ∷ txt "\n\t\t\t\t\twhere "
    ∷ start_comparison
    ∷ txt " and "
    ∷ end_comparison
    ∷ txt "\n\t\t\t\t\torder by\n\t\t\t\t\t\t"
    ∷ ascending
    ∷ txt "\n\t\t\t\t\tlimit 1\n\t\t\t\t\toffset "
    ∷ offset
    ∷ txt "\n    "
    ∷ [])

-- `BuildUniqueKeyRangeEndPreparedQueryViaOffset`
unfoldable pub build_range_end_via_offset :
    (database table : Text) (key_columns : ColumnList) (start_args end_args : List Value)
    → (chunk_size : ℤ) (include_start : Bool) (hint : Text) → Build (Text × List Value)
unfolding order_token
build_range_end_via_offset database table key_columns start_args end_args chunk_size include_start
      hint =
    do
      fail_if (length key_columns.columns == 0) no_columns
      start ← build_range_prepared_comparison key_columns start_args (start_sign include_start)
      end ← build_range_prepared_comparison key_columns end_args less_or_equals
      let d = escape_name database
      let t = escape_name table
      ok (
        offset_statement d t hint (escaped_names key_columns) start.0 end.0
            (order_by (txt "asc") key_columns) (itoa_int (chunk_size -ℤ pos 1)),
        start.1 ++ end.1,
      )

-- The format string of the statement.
unfoldable pub temptable_statement :
    (d t hint listing start_comparison end_comparison ascending limit descending : Text) → Text
unfolding concat
temptable_statement d t hint listing start_comparison end_comparison ascending limit descending =
    concat (
      txt "\n      select /* gh-ost "
      ∷ d
      ∷ txt "."
      ∷ t
      ∷ txt " "
      ∷ hint
      ∷ txt " */ "
      ∷ listing
      ∷ txt "\n\t\t\t\tfrom (\n\t\t\t\t\tselect\n\t\t\t\t\t\t\t"
      ∷ listing
      ∷ txt "\n\t\t\t\t\t\tfrom\n\t\t\t\t\t\t\t"
      ∷ d
      ∷ txt "."
      ∷ t
      ∷ txt "\n\t\t\t\t\t\twhere "
      ∷ start_comparison
      ∷ txt " and "
      ∷ end_comparison
      ∷ txt "\n\t\t\t\t\t\torder by\n\t\t\t\t\t\t\t"
      ∷ ascending
      ∷ txt "\n\t\t\t\t\t\tlimit "
      ∷ limit
      ∷ txt "\n\t\t\t\t) select_osc_chunk\n\t\t\torder by\n\t\t\t\t"
      ∷ descending
      ∷ txt "\n\t\t\tlimit 1\n    "
      ∷ [])

-- `BuildUniqueKeyRangeEndPreparedQueryViaTemptable`
unfoldable pub build_range_end_via_temptable :
    (database table : Text) (key_columns : ColumnList) (start_args end_args : List Value)
    → (chunk_size : ℤ) (include_start : Bool) (hint : Text) → Build (Text × List Value)
unfolding order_token
build_range_end_via_temptable database table key_columns start_args end_args chunk_size
      include_start hint =
    do
      fail_if (length key_columns.columns == 0) no_columns
      start ← build_range_prepared_comparison key_columns start_args (start_sign include_start)
      end ← build_range_prepared_comparison key_columns end_args less_or_equals
      let d = escape_name database
      let t = escape_name table
      ok (
        temptable_statement d t hint (escaped_names key_columns) start.0 end.0
            (order_by (txt "asc") key_columns) (itoa_int chunk_size)
            (order_by (txt "desc") key_columns),
        start.1 ++ end.1,
      )

-- `buildUniqueKeyMinMaxValuesPreparedQuery`
unfoldable pub build_min_max_query :
    (database table : Text) (key_columns : ColumnList) (order : Text) → Build Text
unfolding order_token
build_min_max_query database table key_columns order = do
  fail_if (length key_columns.columns == 0) no_columns
  let d = escape_name database
  let t = escape_name table
  ok (
      concat (
        txt "\n      select /* gh-ost "
        ∷ d
        ∷ txt "."
        ∷ t
        ∷ txt " */ "
        ∷ escaped_names key_columns
        ∷ txt "\n\t\t\t\tfrom\n\t\t\t\t\t"
        ∷ d
        ∷ txt "."
        ∷ t
        ∷ txt "\n\t\t\t\torder by\n\t\t\t\t\t"
        ∷ order_by order key_columns
        ∷ txt "\n\t\t\t\tlimit 1\n    "
        ∷ []))

-- `BuildUniqueKeyMinValuesPreparedQuery`
unfoldable pub build_min_values_query :
    (database table : Text) (key_columns : ColumnList) → Build Text
unfolding build_min_max_query
build_min_values_query database table key_columns =
    build_min_max_query database table key_columns (txt "asc")

-- `BuildUniqueKeyMaxValuesPreparedQuery`
unfoldable pub build_max_values_query :
    (database table : Text) (key_columns : ColumnList) → Build Text
unfolding build_min_max_query
build_max_values_query database table key_columns =
    build_min_max_query database table key_columns (txt "desc")
