-- ===== src/Sql/Columns.antt =====
-- go/sql/types.go: columns, the map from names to ordinals, column lists and unique keys.
pub mod Ordinals
use ghost_source_code_readin.Base.{
  ℕ, ◌+◌, Bool, true, false, ◌&&◌, Option, none, some, List, [], ◌∷◌, map, length, get_elem?, set,
  if◌then◌else◌,
}
use ghost_source_code_readin.Base.Dict.{Dict, lookup, insert, is_some}
use ghost_source_code_readin.Text.{Text, txt, text_eq, split, join}
use ghost_source_code_readin.Sql.Value.{Column, ColumnType, unknown}

unfoldable pub new_column : Text → Column
new_column n = record {
  name = n;
  is_unsigned = false;
  charset = [];
  column_type = unknown;
  timezone_conversion = none;
}

-- `NewColumns`
unfoldable pub new_columns : List Text → List Column
unfolding new_column
new_columns names = map new_column names

-- `ParseColumns`
unfoldable pub parse_columns : Text → List Column
unfolding new_columns
parse_columns names = new_columns (split names b',')

-- The loop of `NewColumnsMap`: `i` is the ordinal of the next column.
unfoldable pub columns_map_from : ℕ → List Column → Dict ℕ → Dict ℕ
columns_map_from i [] m = m
columns_map_from i (c ∷ cs) m = columns_map_from (i + 1) cs (insert c.name i m)

-- `NewColumnsMap`
unfoldable pub new_columns_map : List Column → Dict ℕ
unfolding columns_map_from
new_columns_map columns = columns_map_from 0 columns []

pub record ColumnList : Type 0 where
  pub columns : List Column
  pub ordinals : Dict ℕ

-- `NewColumnList`
unfoldable pub new_column_list : List Text → ColumnList
unfolding new_columns new_columns_map
new_column_list names = record {
  columns = new_columns names;
  ordinals = new_columns_map (new_columns names);
}

-- `ParseColumnList`
unfoldable pub parse_column_list : Text → ColumnList
unfolding parse_columns new_columns_map
parse_column_list names = record {
  columns = parse_columns names;
  ordinals = new_columns_map (parse_columns names);
}

-- `Names`
unfoldable pub names : ColumnList → List Text
names l = map (λ (c : Column). c.name) l.columns

-- `GetColumn`; `none` is the nil pointer. An ordinal beyond the columns would be an index panic.
unfoldable pub get_column : ColumnList → Text → Option Column
get_column l name = elim (lookup name l.ordinals) [ none ↦ none | some i ↦ get_elem? l.columns i ]

-- A write through the pointer that `GetColumn` returns; `none` is the nil dereference.
unfoldable pub update_column : ColumnList → Text → (Column → Column) → Option ColumnList
update_column l name f = elim (lookup name l.ordinals) [
  | none ↦ none
  | some i ↦ elim (get_elem? l.columns i) [
    | none ↦ none
    | some c ↦ some (record l { columns = set l.columns i (f c) })
  ]
]

unfoldable pub set_unsigned : ColumnList → Text → Option ColumnList
unfolding update_column
set_unsigned l name = update_column l name (λ c. record c { is_unsigned = true })

unfoldable pub set_charset : ColumnList → Text → Text → Option ColumnList
unfolding update_column
set_charset l name s = update_column l name (λ c. record c { charset = s })

unfoldable pub set_column_type : ColumnList → Text → ColumnType → Option ColumnList
unfolding update_column
set_column_type l name t = update_column l name (λ c. record c { column_type = t })

unfoldable pub set_convert_datetime_to_timestamp : ColumnList → Text → Text → Option ColumnList
unfolding update_column
set_convert_datetime_to_timestamp l name zone =
    update_column l name (λ c. record c { timezone_conversion = some zone })

-- `HasTimezoneConversion`; `none` is the nil dereference.
unfoldable pub has_timezone_conversion : ColumnList → Text → Option Bool
unfolding get_column
has_timezone_conversion l name = elim (get_column l name) [
  | none ↦ none
  | some c ↦ some (is_some c.timezone_conversion)
]

-- `ColumnList.String`
unfoldable pub column_list_string : ColumnList → Text
unfolding names join
column_list_string l = join (names l) (txt ",")

unfoldable pub texts_eq : List Text → List Text → Bool
texts_eq [] [] = true
texts_eq [] (t ∷ ts) = false
texts_eq (s ∷ ss) [] = false
texts_eq (s ∷ ss) (t ∷ ts) = text_eq s t && texts_eq ss ts

-- `EqualsByNames`
unfoldable pub equals_by_names : ColumnList → ColumnList → Bool
unfolding texts_eq names
equals_by_names l m = texts_eq (names l) (names m)

unfoldable pub all_in : List Column → Dict ℕ → Bool
all_in [] ordinals = true
all_in (c ∷ cs) ordinals =
    let rest = all_in cs ordinals in if is_some (lookup c.name ordinals) then rest else false

-- `IsSubsetOf`
unfoldable pub is_subset_of : ColumnList → ColumnList → Bool
unfolding all_in
is_subset_of l other = all_in l.columns other.ordinals

pub record UniqueKey : Type 0 where
  pub key_name : Text
  pub key_columns : ColumnList
  pub has_nullable : Bool
  pub is_auto_increment : Bool

-- `IsPrimary`
unfoldable pub is_primary : UniqueKey → Bool
is_primary k = text_eq k.key_name (txt "PRIMARY")
