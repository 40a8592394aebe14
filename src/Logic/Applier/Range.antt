-- ===== src/Logic/Applier/Range.antt =====
-- go/logic/applier.go: the ranges of the row copy. A query's rows, each of which is scanned or fails to
-- be, are a parameter, and so is the transaction of a chunk.
pub mod Contiguous
use ghost_source_code_readin.Base.{
  Bool, true, false, Option, none, some, List, [], ◌∷◌, ◌++◌, if◌then◌else◌, Result, ok, err, ◌>>=◌,
}
use ghost_source_code_readin.Base.Int.{ℤ, pos}
use ghost_source_code_readin.Text.{Text, txt}
use ghost_source_code_readin.Text.Decimal.{itoa_int}
use ghost_source_code_readin.Mysql.Coordinates.{int_eq}
use ghost_source_code_readin.Sql.Value.{Value}
use ghost_source_code_readin.Sql.Columns.{ColumnList, names}
use ghost_source_code_readin.Sql.Compare.{Build, BuildError}
use ghost_source_code_readin.Sql.Queries.{
  build_range_end_via_offset, build_range_end_via_temptable, build_min_values_query,
  build_max_values_query, build_range_insert_prepared_query,
}
use ghost_source_code_readin.Logic.Applier.Apply.{session_query}

-- `nil_range` is the nil dereference of values that were not read.
pub data CopyError : Type 0 where
  statement_failed : BuildError → CopyError
  query_failed : Text → CopyError
  nil_range : CopyError

pub record CopyPlan : Type 0 where
  pub database_name : Text
  pub original_table_name : Text
  pub ghost_table : Text
  pub key_name : Text
  pub key_columns : ColumnList
  pub shared_columns : ColumnList
  pub mapped_shared_columns : ColumnList
  pub chunk_size : ℤ
  pub transactional : Bool
  pub skip_strict_mode : Bool
  pub applier_time_zone : Text

-- The values are pointers, of which `none` is nil.
pub record CopyState : Type 0 where
  pub range_min : Option (List Value)
  pub range_max : Option (List Value)
  pub iteration_min : Option (List Value)
  pub iteration_max : Option (List Value)
  pub iteration : ℤ

abbrev pub Rows : Type 0
Rows = List (Result Text (List Value))

abbrev from_build {ℓ} : {A : Type ℓ} → Result BuildError A → Result CopyError A
from_build (err e) = err (statement_failed e)
from_build (ok a) = ok a

abbrev from_query {ℓ} : {A : Type ℓ} → Result Text A → Result CopyError A
from_query (err e) = err (query_failed e)
from_query (ok a) = ok a

abbrev not_nil : Option (List Value) → Result CopyError (List Value)
not_nil none = err nil_range
not_nil (some v) = ok v

-- The loop over the rows: the last one, if there is any.
unfoldable pub last_row : Option (List Value) → Rows → Result Text (Option (List Value))
last_row row [] = ok row
last_row row (err e ∷ rows) = err e
last_row row (ok r ∷ rows) = last_row (some r) rows

abbrev or_else : Option (List Value) → Option (List Value) → Option (List Value)
or_else none v = v
or_else (some w) v = some w

-- Where the next chunk begins: at the end of the one before, or at the least key.
unfoldable pub next_start : CopyState → Option (List Value)
next_start s = or_else s.iteration_max s.range_min

module _ (query : Text → List Value → Result Text Rows) where
  -- `ReadMigrationMinValues`
  unfoldable pub read_migration_min_values : CopyPlan → CopyState → Result CopyError CopyState
  unfolding last_row
  read_migration_min_values p s = do
    q ← from_build (build_min_values_query p.database_name p.original_table_name p.key_columns)
    rows ← from_query (query q [])
    row ← from_query (last_row s.range_min rows)
    ok (record s { range_min = row })

  -- `ReadMigrationMaxValues`
  unfoldable pub read_migration_max_values : CopyPlan → CopyState → Result CopyError CopyState
  unfolding last_row
  read_migration_max_values p s = do
    q ← from_build (build_max_values_query p.database_name p.original_table_name p.key_columns)
    rows ← from_query (query q [])
    row ← from_query (last_row s.range_max rows)
    ok (record s { range_max = row })

  -- `ReadMigrationRangeValues`
  unfoldable pub read_migration_range_values : CopyPlan → CopyState → Result CopyError CopyState
  unfolding read_migration_min_values read_migration_max_values
  read_migration_range_values p s = read_migration_min_values p s >>= read_migration_max_values p

  -- One round of the loop: the last row that the query gives, if any.
  unfoldable pub range_end_round :
      Build (Text × List Value) → Result CopyError (Option (List Value))
  unfolding last_row
  range_end_round statement = do
    q ← from_build statement
    rows ← from_query (query q.0 q.1)
    from_query (last_row none rows)

  abbrev or_round :
      Result CopyError (Option (List Value))
      → Result CopyError (Option (List Value))
      → Result CopyError (Option (List Value))
  or_round (err e) second = err e
  or_round (ok none) second = second
  or_round (ok (some row)) second = ok (some row)

  -- The two rounds: the query by offset, and the one by a temporary table where it gives no row.
  unfoldable pub range_end :
      CopyPlan
      → CopyState
      → (start_values end_values : List Value) → Result CopyError (Option (List Value))
  unfolding range_end_round
  range_end p s start_values end_values =
      let include_start = int_eq s.iteration (pos 0) in
      let hint = txt "iteration:" ++ itoa_int s.iteration in
      or_round
        (range_end_round (
          build_range_end_via_offset p.database_name p.original_table_name p.key_columns
            start_values end_values p.chunk_size include_start hint))
        (range_end_round (
          build_range_end_via_temptable p.database_name p.original_table_name p.key_columns
            start_values end_values p.chunk_size include_start hint))

  abbrev found_end :
      CopyState → Result CopyError (Option (List Value)) → Result CopyError Bool × CopyState
  found_end s (err e) = (err e, s)
  found_end s (ok none) = (ok false, s)
  found_end s (ok (some row)) = (ok true, record s { iteration_max = some row })

  -- `CalculateNextIterationRangeEndValues`: whether there is a further range, and the state.
  unfoldable pub calculate_next_iteration_range_end_values :
      CopyPlan → CopyState → Result CopyError Bool × CopyState
  unfolding next_start range_end
  calculate_next_iteration_range_end_values p s =
      let moved = record s { iteration_min = next_start s } in
      let found = do
        start_values ← not_nil moved.iteration_min
        end_values ← not_nil moved.range_max
        range_end p moved start_values end_values
      in found_end moved found

-- The statement of a chunk.
unfoldable pub iteration_insert_statement :
    CopyPlan → CopyState → Result CopyError (Text × List Value)
iteration_insert_statement p s = do
  start_values ← not_nil s.iteration_min
  end_values ← not_nil s.iteration_max
  from_build (
      build_range_insert_prepared_query p.database_name p.original_table_name p.ghost_table
        (names p.shared_columns) (names p.mapped_shared_columns) p.key_name p.key_columns
        start_values end_values (int_eq s.iteration (pos 0)) p.transactional)

abbrev insert_committed {ℓ} :
    {Db : Type ℓ} → ℤ → Result Text (Unit {0}) × Db → Result CopyError ℤ × Db
insert_committed affected (err e, db) = (err (query_failed e), db)
insert_committed affected (ok done, db) = (ok affected, db)

-- An error before the commit rolls the transaction back.
abbrev insert_then {ℓ} :
    {Db : Type ℓ}
    → (Db → Db → Result Text (Unit {0}) × Db)
    → Db
    → Result CopyError (Db × ℤ)
    → Result CopyError ℤ × Db
insert_then commit db (err e) = (err e, db)
insert_then commit db (ok (seen, affected)) = insert_committed affected (commit db seen)

module _ {ℓ} {Db : Type ℓ} (begin : Db → Result Text Db)
    (commit : (committed seen : Db) → Result Text (Unit {0}) × Db)
    (exec : Text → List Value → Db → Result Text (Db × ℤ)) where
  -- `ApplyIterationInsertQuery`: the number of rows affected, and what is committed, which a commit that
  -- fails decides, too.
  unfoldable pub apply_iteration_insert_query : CopyPlan → CopyState → Db → Result CopyError ℤ × Db
  unfolding iteration_insert_statement session_query
  apply_iteration_insert_query p s db =
      let run = do
        statement ← iteration_insert_statement p s
        started ← from_query (begin db)
        prepared ←
            from_query (exec (session_query p.skip_strict_mode p.applier_time_zone) [] started)
        from_query (exec statement.0 statement.1 prepared.0)
      in insert_then commit db run
