-- ===== src/Sql/Dml/Placeholders.antt =====
-- The statements of the three kinds of events have one placeholder for each of their arguments.
use mathlib.Core.List.{map-map}
use ghost_source_code_readin.Base.{
  ℕ, suc, ◌+◌, ◌<◌, ◌≡◌, true, false, List, ◌∷◌, map, arith, All, ok, length, ◌==◌, sym, ap, ◌∙◌,
}
use ghost_source_code_readin.Base.Dict.{Dict}
use ghost_source_code_readin.Text.{Text, txt, join}
use ghost_source_code_readin.Sql.Value.{Column, Value, Encodings}
use ghost_source_code_readin.Sql.Columns.{ColumnList, names, is_subset_of}
use ghost_source_code_readin.Sql.Compare.{
  escape_name, set_token, column_token, build_columns_prepared_values, build_set_prepared_clause,
}
use ghost_source_code_readin.Sql.Compare.Placeholders.{marks, marks-append}
use ghost_source_code_readin.Sql.Dml.{
  column_args, delete_statement, insert_statement, update_statement, build_dml_delete_query,
  build_dml_insert_query, build_dml_update_query,
}
use ghost_source_code_readin.Sql.Dml.Bind.{
  PlainName, IsPlain, marks-set_token, marks-column_token, marks_tokens, key_comparison,
  length-column_args,
}

same_test : (a b : ℕ) → a ≡ b → (a == b) ≡ true
same_test a b h = ground arith

some_test : (n : ℕ) → (suc n == 0) ≡ false
some_test n = ground arith

marks-delete_statement :
    (d t c : Text) → marks d ≡ 0 → marks t ≡ 0 → marks (delete_statement d t c) ≡ marks c
unfolding delete_statement
marks-delete_statement d t c hd ht = simp marks-append (unfold marks txt in omega arith)

marks-insert_statement :
    (d t n v : Text)
    → marks d ≡ 0
    → marks t ≡ 0
    → marks n ≡ 0
    → marks (insert_statement d t n v) ≡ marks v
unfolding insert_statement
marks-insert_statement d t n v hd ht hn = simp marks-append (unfold marks txt in omega arith)

marks-update_statement :
    (d t s c : Text)
    → marks d ≡ 0
    → marks t ≡ 0
    → marks (update_statement d t s c) ≡ marks s + marks c
unfolding update_statement
marks-update_statement d t s c hd ht = simp marks-append (unfold marks txt in omega arith)

marks-names :
    (l : ColumnList)
    → All IsPlain l.columns
    → marks (join (map escape_name (names l)) (txt ", ")) ≡ 0
unfolding names
marks-names l h = go l.columns h
  where
    go :
        (cs : List Column)
        → All IsPlain cs
        → marks (join (map escape_name (map (λ (c : Column). c.name) cs)) (txt ", ")) ≡ 0
    go cs h =
        ap (λ ts. marks (join ts (txt ", "))) (map-map escape_name (λ (c : Column). c.name) cs)
        ∙ marks_tokens (λ c. escape_name c.name) 0 (λ c p. p.name_plain) cs h
        ∙ omega arith

marks_values :
    (l : ColumnList)
    → All IsPlain l.columns
    → marks (join (build_columns_prepared_values l) (txt ", ")) ≡ length l.columns
unfolding build_columns_prepared_values
marks_values l h = marks_tokens column_token 1 marks-column_token l.columns h ∙ omega arith

set_clause :
    (l : ColumnList)
    → All IsPlain l.columns
    → 0 < length l.columns
    → (t : Text) × (build_set_prepared_clause l ≡ ok t) × (marks t ≡ length l.columns)
unfolding build_set_prepared_clause
set_clause l h some_columns = (
  join (map set_token l.columns) (txt ", "),
  ground arith,
  marks_tokens set_token 1 marks-set_token l.columns h ∙ omega arith,
)

module _ (e : Encodings) (database table : Text) (table_columns : ColumnList) where
  -- For a row with as many values as the table has columns, and a unique key of at least one column,
  -- where the names are given and have no question mark: the delete statement is built, its
  -- arguments are the values of the unique key's columns, and it has as many placeholders.
  delete_placeholders :
      (key : Column) (keys : List Column) (ordinals : Dict ℕ) (args : List Value)
      → PlainName database
      → PlainName table
      → All IsPlain (key ∷ keys)
      → length args ≡ length table_columns.columns
      → (q : Text) × (build_dml_delete_query e database table table_columns
            (record { columns = key ∷ keys; ordinals = ordinals })
            args
          ≡ ok (q, column_args e table_columns.ordinals args (key ∷ keys)))
        × (marks q ≡ length (column_args e table_columns.ordinals args (key ∷ keys)))
  unfolding build_dml_delete_query names
  delete_placeholders key keys ordinals args d t plain same =
      let (comparison, built, counted) = key_comparison key keys plain in
      (
        delete_statement (escape_name database) (escape_name table) comparison,
        rw (same_test _ _ same, some_test (length keys), built),
        marks-delete_statement _ _ comparison d t
            ∙ counted
            ∙ sym (length-column_args e table_columns.ordinals args (key ∷ keys)),
      )

  -- For a row with as many values as the table has columns, and at least one shared column, all of
  -- them among the table's and as many as the mapped ones, where the names and time zones have no
  -- question mark and the mapped names are not empty: the insert statement is built, its arguments are the values of the shared
  -- columns, and it has as many placeholders.
  pub insert_placeholders :
      (shared : Column) (more : List Column) (ordinals : Dict ℕ) (mapped : ColumnList)
      → (args : List Value) → PlainName database
      → PlainName table
      → All IsPlain mapped.columns
      → length mapped.columns ≡ length (shared ∷ more)
      → is_subset_of (record { columns = shared ∷ more; ordinals = ordinals }) table_columns ≡ true
      → length args ≡ length table_columns.columns
      → (q : Text) × (build_dml_insert_query e database table table_columns
            (record { columns = shared ∷ more; ordinals = ordinals })
            mapped
            args
          ≡ ok (q, column_args e table_columns.ordinals args (shared ∷ more)))
        × (marks q ≡ length (column_args e table_columns.ordinals args (shared ∷ more)))
  unfolding build_dml_insert_query
  insert_placeholders shared more ordinals mapped args d t plain same subset count =
      let listing = join (map escape_name (names mapped)) (txt ", ") in
      let values = join (build_columns_prepared_values mapped) (txt ", ") in
      (
        insert_statement (escape_name database) (escape_name table) listing values,
        rw (same_test _ _ count, subset, some_test (length more)),
        marks-insert_statement _ _ listing values d t (marks-names mapped plain)
            ∙ marks_values mapped plain
            ∙ same
            ∙ sym (length-column_args e table_columns.ordinals args (shared ∷ more)),
      )

  -- For two rows, the new one and the one to look up, each with as many values as the table has
  -- columns; at least one shared column, all of them among the table's and as many as the mapped ones;
  -- and a unique key of at least one column, all of them among the shared ones; where the names of the
  -- database, of the table, of the mapped columns and of the key's columns, and the time zones of those
  -- columns, have no question mark and the names of those columns are not empty: the update statement
  -- is built, its arguments are the new row's values of the shared columns and then the other row's values of the
  -- key's columns, and it has as many placeholders as there are arguments of both.
  pub update_placeholders :
      (shared : Column) (more : List Column) (ordinals : Dict ℕ) (mapped : ColumnList)
      → (key : Column) (keys : List Column) (key_ordinals : Dict ℕ)
        (value_args where_args : List Value)
      → PlainName database
      → PlainName table
      → All IsPlain mapped.columns
      → length mapped.columns ≡ length (shared ∷ more)
      → All IsPlain (key ∷ keys)
      → is_subset_of (record { columns = shared ∷ more; ordinals = ordinals }) table_columns ≡ true
      → is_subset_of
          (record { columns = key ∷ keys; ordinals = key_ordinals })
          (record { columns = shared ∷ more; ordinals = ordinals })
        ≡ true
      → length value_args ≡ length table_columns.columns
      → length where_args ≡ length table_columns.columns
      → (q : Text) × (build_dml_update_query e database table table_columns
            (record { columns = shared ∷ more; ordinals = ordinals })
            mapped
            (record { columns = key ∷ keys; ordinals = key_ordinals })
            value_args
            where_args
          ≡ ok (
            q,
            column_args e table_columns.ordinals value_args (shared ∷ more),
            column_args e table_columns.ordinals where_args (key ∷ keys),
          ))
        × (marks q
            ≡ length (column_args e table_columns.ordinals value_args (shared ∷ more))
              + length (column_args e table_columns.ordinals where_args (key ∷ keys)))
  unfolding build_dml_update_query names
  update_placeholders shared more ordinals mapped key keys key_ordinals value_args where_args d t
        plain same key_plain subset key_subset count where_count =
      let (comparison, built, counted) = key_comparison key keys key_plain in
      let (clause, set_built, set_counted) = set_clause mapped plain (ground arith) in
      (
        update_statement (escape_name database) (escape_name table) clause comparison,
        rw (
          same_test _ _ count,
          same_test _ _ where_count,
          subset,
          key_subset,
          some_test (length more),
          some_test (length keys),
          set_built,
          built,
        ),
        marks-update_statement _ _ clause comparison d t
            ∙ omega (
              arith,
              counted,
              set_counted,
              length-column_args e table_columns.ordinals value_args (shared ∷ more),
              length-column_args e table_columns.ordinals where_args (key ∷ keys),
            ),
      )
