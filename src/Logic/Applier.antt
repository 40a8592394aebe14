-- ===== src/Logic/Applier.antt =====
-- go/logic/applier.go: the changes of rows, applied to the ghost table. The database is a parameter of
-- what executes statements (`Applier.Apply`).
pub mod Apply
pub mod Rewrite
pub mod Range
pub mod Tables
use ghost_source_code_readin.Base.{
  ℕ, Bool, true, false, not, Option, none, some, List, [], ◌∷◌, ◌++◌, length, get_elem?, ◌==◌,
  if◌then◌else◌, Result, ok, err, ◌>>=◌,
}
use ghost_source_code_readin.Base.Int.{ℤ, pos, negsuc}
use ghost_source_code_readin.Base.Dict.{lookup}
use ghost_source_code_readin.Text.{Text, txt, text_eq}
use ghost_source_code_readin.Mysql.Coordinates.{int_eq}
use ghost_source_code_readin.Sql.Value.{
  Value, null, str, bytes, int8, int16, int32, int64, int, uint8, uint16, uint32, uint, opaque,
  Column, Encodings,
}
use ghost_source_code_readin.Sql.Columns.{ColumnList}
use ghost_source_code_readin.Sql.Compare.{BuildError, Build}
use ghost_source_code_readin.Sql.Dml.{
  ordinal_of, build_dml_delete_query, build_dml_insert_query, build_dml_update_query,
}
use ghost_source_code_readin.Binlog.{
  BinlogDmlEvent, EventDml, not_dml, insert_dml, update_dml, delete_dml,
}

-- Errors, and the panics of the source: values that are nil, an index out of range, and the comparison
-- of two slices.
pub data ApplyError : Type 0 where
  build_failed : BuildError → ApplyError
  unknown_dml : EventDml → ApplyError
  execution_failed : Text → ApplyError
  nil_values index_out_of_range uncomparable : ApplyError

-- What the statements are built from.
pub record Plan : Type 0 where
  pub encodings : Encodings
  pub ghost_table_name : Text
  pub original_table_columns : ColumnList
  pub shared_columns : ColumnList
  pub mapped_shared_columns : ColumnList
  pub unique_key_columns : ColumnList

-- `dmlBuildResult`: a query, its arguments and the number of rows that it adds, or an error.
abbrev pub DmlBuildResult : Type 0
DmlBuildResult = Result ApplyError (Text × List Value × ℤ)

-- `new != where`, of two interfaces.
unfoldable pub value_differs : Value → Value → Result ApplyError Bool
value_differs null null = ok false
value_differs (str s) (str t) = ok (not (text_eq s t))
value_differs (bytes s) (bytes t) = err uncomparable
value_differs (int8 i) (int8 j) = ok (not (int_eq i j))
value_differs (int16 i) (int16 j) = ok (not (int_eq i j))
value_differs (int32 i) (int32 j) = ok (not (int_eq i j))
value_differs (int64 i) (int64 j) = ok (not (int_eq i j))
value_differs (int i) (int j) = ok (not (int_eq i j))
value_differs (uint8 i) (uint8 j) = ok (not (i == j))
value_differs (uint16 i) (uint16 j) = ok (not (i == j))
value_differs (uint32 i) (uint32 j) = ok (not (i == j))
value_differs (uint i) (uint j) = ok (not (i == j))
value_differs (opaque i) (opaque j) = ok (not (i == j))
value_differs _ _ = ok true

abbrev pub or_panic {ℓ} : {A : Type ℓ} → ApplyError → Option A → Result ApplyError A
or_panic e none = err e
or_panic e (some a) = ok a

-- The loop over the columns of the unique key.
unfoldable pub any_column_differs :
    ColumnList → (where_values new_values : List Value) → List Column → Result ApplyError Bool
unfolding value_differs
any_column_differs table where_values new_values [] = ok false
any_column_differs table where_values new_values (c ∷ cs) = do
  let i = ordinal_of (lookup c.name table.ordinals)
  w ← or_panic index_out_of_range (get_elem? where_values i)
  n ← or_panic index_out_of_range (get_elem? new_values i)
  differs ← value_differs n w
  if differs then ok true else any_column_differs table where_values new_values cs

-- `updateModifiesUniqueKeyColumns`
unfoldable pub update_modifies_unique_key_columns : Plan → BinlogDmlEvent → Result ApplyError Bool
unfolding any_column_differs
update_modifies_unique_key_columns p e = do
  w ← or_panic nil_values e.where_column_values
  n ← or_panic nil_values e.new_column_values
  any_column_differs p.original_table_columns w n p.unique_key_columns.columns

abbrev built_as : ℤ → Build (Text × List Value) → DmlBuildResult
built_as delta (err e) = err (build_failed e)
built_as delta (ok (query, args)) = ok (query, args, delta)

abbrev built_update : Build (Text × List Value × List Value) → DmlBuildResult
built_update (err e) = err (build_failed e)
built_update (ok (query, shared_args, unique_key_args)) =
    ok (query, shared_args ++ unique_key_args, pos 0)

abbrev delete_where : Plan → BinlogDmlEvent → Option (List Value) → DmlBuildResult
delete_where p e none = err nil_values
delete_where p e (some w) = built_as (negsuc 0) (
    build_dml_delete_query p.encodings e.database_name p.ghost_table_name p.original_table_columns
      p.unique_key_columns w)

-- The case of `DeleteDML`.
unfoldable pub build_delete : Plan → BinlogDmlEvent → DmlBuildResult
build_delete p e = delete_where p e e.where_column_values

abbrev insert_new : Plan → BinlogDmlEvent → Option (List Value) → DmlBuildResult
insert_new p e none = err nil_values
insert_new p e (some n) = built_as (pos 1) (
    build_dml_insert_query p.encodings e.database_name p.ghost_table_name p.original_table_columns
      p.shared_columns p.mapped_shared_columns n)

-- The case of `InsertDML`.
unfoldable pub build_insert : Plan → BinlogDmlEvent → DmlBuildResult
build_insert p e = insert_new p e e.new_column_values

abbrev update_where : Plan → BinlogDmlEvent → (w n : Option (List Value)) → DmlBuildResult
update_where p e none n = err nil_values
update_where p e (some w) none = err nil_values
update_where p e (some w) (some n) = built_update (
    build_dml_update_query p.encodings e.database_name p.ghost_table_name p.original_table_columns
      p.shared_columns p.mapped_shared_columns p.unique_key_columns n w)

-- The case of `UpdateDML` that keeps the unique key.
unfoldable pub build_update : Plan → BinlogDmlEvent → DmlBuildResult
build_update p e = update_where p e e.where_column_values e.new_column_values

-- An update that changes the unique key is a delete and an insert; the source writes the kind of each
-- into the event, which is left as an insert.
abbrev update_results :
    Plan → BinlogDmlEvent → Result ApplyError Bool → List DmlBuildResult × BinlogDmlEvent
update_results p e (err x) = (err x ∷ [], e)
update_results p e (ok true) =
    (build_delete p e ∷ build_insert p e ∷ [], record e { dml = insert_dml })
update_results p e (ok false) = (build_update p e ∷ [], e)

abbrev results_of : Plan → BinlogDmlEvent → EventDml → List DmlBuildResult × BinlogDmlEvent
results_of p e delete_dml = (build_delete p e ∷ [], e)
results_of p e insert_dml = (build_insert p e ∷ [], e)
results_of p e update_dml = update_results p e (update_modifies_unique_key_columns p e)
results_of p e not_dml = (err (unknown_dml not_dml) ∷ [], e)

-- `buildDMLEventQuery`: the results, and the event as the call leaves it.
unfoldable pub build_dml_event_query : Plan → BinlogDmlEvent → List DmlBuildResult × BinlogDmlEvent
unfolding build_delete build_insert build_update update_modifies_unique_key_columns
build_dml_event_query p e = results_of p e e.dml
