-- ===== src/Logic/RowCopy/Applied.antt =====
-- The calls of `iterateChunks` of go/logic/migrator.go that the applier answers, as go/logic/applier.go
-- does, on the ranges of the context and the database.
use ghost_source_code_readin.Base.{List, Result}
use ghost_source_code_readin.Base.Int.{pos, wrap64, ℤ, ◌+ℤ◌}
use ghost_source_code_readin.Text.{Text}
use ghost_source_code_readin.Sql.Value.{Value}
use ghost_source_code_readin.Logic.Applier.Range.{
  CopyError, CopyPlan, CopyState, Rows, apply_iteration_insert_query,
  calculate_next_iteration_range_end_values,
}
use ghost_source_code_readin.Logic.RowCopy.{ChunkOps}

module _ {Db : Type 0} (query : Db → Text → List Value → Result Text Rows)
    (begin : Db → Result Text Db) (commit : (committed seen : Db) → Result Text (Unit {0}) × Db)
    (exec : Text → List Value → Db → Result Text (Db × ℤ)) where
  unfoldable pub applier_chunks : CopyPlan → ChunkOps CopyError (CopyState × Db)
  applier_chunks p = record {
    calculate_range = λ s.
        let (r, t) = calculate_next_iteration_range_end_values (query s.1) p s.0 in (r, (t, s.1));
    insert_range = λ s.
        let (r, db) = apply_iteration_insert_query begin commit exec p s.0 s.1 in (r, (s.0, db));
    count_iteration = λ s. (record s.0 { iteration = wrap64 (s.0.iteration +ℤ pos 1) }, s.1);
  }
