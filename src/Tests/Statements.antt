-- ===== src/Tests/Statements.antt =====
-- Runs of go/sql at concrete inputs.
use ghost_source_code_readin.Base.{
  ℕ, ◌+◌, ◌≡◌, ◌≢◌, ap, refl, List, [], ◌∷◌, true, none, some, ok, arith, length, map, get_or,
}
use ghost_source_code_readin.Base.Int.{pos}
use ghost_source_code_readin.Base.Dict.{lookup}
use ghost_source_code_readin.Text.{Text, txt, text_eq}
use ghost_source_code_readin.Text.Unquote.{unquote}
use ghost_source_code_readin.Sql.Value.{
  Value, null, int8, int64, Column, unknown, Encodings, convert_arg,
}
use ghost_source_code_readin.Sql.Value.Convert.{
  convert_arg_restores, tiny, describes_tiny, signed, width, carried, number_of,
}
use ghost_source_code_readin.Sql.Columns.{ColumnList, new_column_list, is_subset_of}
use ghost_source_code_readin.Sql.Compare.{build_range_comparison, greater, escape_name}
use ghost_source_code_readin.Sql.Compare.Meaning.{
  Part, Cond, Comparison, columns_of, tokens_of, values_of, render, args_of, eval,
}
use ghost_source_code_readin.Sql.Compare.Meaning.Lexicographic.{build_range_meaning, key_compare}
use ghost_source_code_readin.Sql.Compare.Placeholders.{marks}
use ghost_source_code_readin.Sql.Dml.{column_args, build_dml_insert_query, build_dml_update_query}
use ghost_source_code_readin.Sql.Dml.Bind.{IsPlain}
use ghost_source_code_readin.Sql.Dml.ByName.{column_args_by_name}
use ghost_source_code_readin.Sql.Dml.Placeholders.{insert_placeholders, update_placeholders}

abbrev ascii : Encodings
ascii = record { windows1252 = λ t. t; gbk = λ t. t }

abbrev part_a : Part
part_a = record { column = 97 ∷ []; token = 63 ∷ []; arg = int64 (pos 5) }

abbrev part_b : Part
part_b = record { column = 98 ∷ []; token = 63 ∷ []; arg = int64 (pos 7) }

build_range_meaning_example :
    (c : Cond) × (build_range_comparison
        (columns_of (part_a ∷ part_b ∷ []))
        (tokens_of (part_a ∷ part_b ∷ []))
        (values_of (part_a ∷ part_b ∷ []))
        greater
      ≡ ok (render c, args_of c))
    × ((holds : Comparison) (row : Text → Value)
        → eval holds row c ≡ key_compare holds row greater (part_a ∷ part_b ∷ []))
build_range_meaning_example = build_range_meaning greater part_a (part_b ∷ []) (
  record { column_given = λ e. cc; token_given = λ e. cc },
  (record { column_given = λ e. cc; token_given = λ e. cc }, tt),
)

abbrev column_a : Column
column_a = record {
  name = 97 ∷ [];
  is_unsigned = true;
  charset = [];
  column_type = unknown;
  timezone_conversion = none;
}

abbrev column_b : Column
column_b = record column_a { name = 98 ∷ [] }

convert_arg_restores_example :
    number_of (convert_arg ascii column_a (carried tiny (signed (width tiny) 200))) ≡ some 200
unfolding width
convert_arg_restores_example =
    convert_arg_restores ascii column_a tiny 200 refl (describes_tiny unknown) (omega arith)

abbrev two_names : List Text
two_names = (97 ∷ []) ∷ (98 ∷ []) ∷ []

abbrev head_of : Text → ℕ
head_of [] = 0
head_of (c ∷ t) = c

abbrev name_a : Text
name_a = 97 ∷ []

abbrev name_b : Text
name_b = 98 ∷ []

heads : head_of name_a ≢ head_of name_b
heads = omega arith

a_not_b : name_a ≢ name_b
a_not_b e = heads (ap head_of e)

column_args_by_name_example :
    column_args ascii
      (new_column_list two_names).ordinals
      (int64 (pos 5) ∷ int64 (pos 7) ∷ [])
      (map (λ (p : Column × ℕ). p.0) ((column_b, 1) ∷ []))
    ≡ map
        (λ (p : Column × ℕ).
          convert_arg ascii p.0 (get_or (int64 (pos 5) ∷ int64 (pos 7) ∷ []) p.1 null))
        ((column_b, 1) ∷ [])
column_args_by_name_example =
    column_args_by_name ascii two_names (int64 (pos 5) ∷ int64 (pos 7) ∷ []) ((column_b, 1) ∷ [])
      ((a_not_b, tt), (tt, tt)) (refl, tt)

-- A table with the columns `a` and `b`, of which `a` is the key.
abbrev table_columns : ColumnList
table_columns = record {
  columns = column_a ∷ column_b ∷ [];
  ordinals = (97 ∷ [], 0) ∷ (98 ∷ [], 1) ∷ [];
}

abbrev row : List Value
row = int8 (pos 5) ∷ int8 (pos 7) ∷ []

column_a-IsPlain : IsPlain column_a
unfolding marks escape_name unquote txt
column_a-IsPlain = record { name_given = λ e. cc; name_plain = refl; zone_plain = tt }

column_b-IsPlain : IsPlain column_b
unfolding marks escape_name unquote txt
column_b-IsPlain = record { name_given = λ e. cc; name_plain = refl; zone_plain = tt }

insert_placeholders_example :
    (q : Text) × (build_dml_insert_query ascii
        (100 ∷ [])
        (116 ∷ [])
        table_columns
        (record { columns = column_a ∷ column_b ∷ []; ordinals = table_columns.ordinals })
        table_columns
        row
      ≡ ok (q, column_args ascii table_columns.ordinals row (column_a ∷ column_b ∷ [])))
    × (marks q ≡ length (column_args ascii table_columns.ordinals row (column_a ∷ column_b ∷ [])))
unfolding marks escape_name unquote txt is_subset_of lookup text_eq
insert_placeholders_example =
    insert_placeholders ascii (100 ∷ []) (116 ∷ []) table_columns column_a (column_b ∷ [])
      table_columns.ordinals table_columns row refl refl (column_a-IsPlain, (column_b-IsPlain, tt))
      refl refl refl

update_placeholders_example :
    (q : Text) × (build_dml_update_query ascii
        (100 ∷ [])
        (116 ∷ [])
        table_columns
        (record { columns = column_a ∷ column_b ∷ []; ordinals = table_columns.ordinals })
        table_columns
        (record { columns = column_a ∷ []; ordinals = (97 ∷ [], 0) ∷ [] })
        row
        row
      ≡ ok (
        q,
        column_args ascii table_columns.ordinals row (column_a ∷ column_b ∷ []),
        column_args ascii table_columns.ordinals row (column_a ∷ []),
      ))
    × (marks q
        ≡ length (column_args ascii table_columns.ordinals row (column_a ∷ column_b ∷ []))
          + length (column_args ascii table_columns.ordinals row (column_a ∷ [])))
unfolding marks escape_name unquote txt is_subset_of lookup text_eq
update_placeholders_example =
    update_placeholders ascii (100 ∷ []) (116 ∷ []) table_columns column_a (column_b ∷ [])
      table_columns.ordinals table_columns column_a [] ((97 ∷ [], 0) ∷ []) row row refl refl
      (column_a-IsPlain, (column_b-IsPlain, tt)) refl (column_a-IsPlain, tt) refl refl refl refl
