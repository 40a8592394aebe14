-- ===== src/Tests/Applying.antt =====
-- Runs of go/logic/applier.go at concrete inputs.
use ghost_source_code_readin.Base.{
  ℕ, suc, ◌≡◌, refl, true, false, [], ◌∷◌, none, some, ok, err, length, if◌then◌else◌,
}
use ghost_source_code_readin.Base.Int.{pos, ◌+ℤ◌, wrap64}
use ghost_source_code_readin.Base.Dict.{lookup}
use ghost_source_code_readin.Text.{txt, text_eq}
use ghost_source_code_readin.Sql.Value.{int8, Column, unknown}
use ghost_source_code_readin.Sql.Columns.{ColumnList, is_subset_of}
use ghost_source_code_readin.Sql.Dml.{build_dml_insert_query}
use ghost_source_code_readin.Binlog.{BinlogDmlEvent, insert_dml, update_dml}
use ghost_source_code_readin.Logic.Applier.{
  Plan, execution_failed, build_delete, build_insert, build_dml_event_query,
  update_modifies_unique_key_columns, any_column_differs, value_differs,
}
use ghost_source_code_readin.Logic.Applier.Rewrite.{build_dml_event_query-twice}
use ghost_source_code_readin.Logic.Applier.Apply.{
  begin_transaction, commit_transaction, exec_statement, rollback, session_query, Database,
  Counters, exec_results, exec_events, apply_dml_event_queries,
}
use ghost_source_code_readin.Logic.Applier.Apply.Delta.{sum_rows_added}
use ghost_source_code_readin.Logic.Applier.Apply.Atomic.{
  Undone, session_of, statements_run, apply_dml_event_queries-all_or_nothing,
  apply_dml_event_queries-counts,
}

abbrev column_a : Column
column_a = record {
  name = 97 ∷ [];
  is_unsigned = false;
  charset = [];
  column_type = unknown;
  timezone_conversion = none;
}

-- A table with one column, which is its key.
abbrev columns : ColumnList
columns = record { columns = column_a ∷ []; ordinals = (97 ∷ [], 0) ∷ [] }

abbrev plan : Plan
plan = record {
  encodings = record { windows1252 = λ t. t; gbk = λ t. t };
  ghost_table_name = 103 ∷ [];
  original_table_columns = columns;
  shared_columns = columns;
  mapped_shared_columns = columns;
  unique_key_columns = columns;
}

abbrev insertion : BinlogDmlEvent
insertion = record {
  database_name = 100 ∷ [];
  table_name = 116 ∷ [];
  dml = insert_dml;
  where_column_values = none;
  new_column_values = some (int8 (pos 2) ∷ []);
}

-- An update that changes the key.
abbrev key_change : BinlogDmlEvent
key_change = record insertion { dml = update_dml; where_column_values = some (int8 (pos 1) ∷ []) }

build_dml_event_query-twice_example :
    ((build_dml_event_query plan key_change).0
      ≡ build_delete plan key_change ∷ build_insert plan key_change ∷ [])
    × ((build_dml_event_query plan (build_dml_event_query plan key_change).1).0
        ≡ build_insert plan key_change ∷ [])
unfolding update_modifies_unique_key_columns any_column_differs value_differs lookup text_eq
build_dml_event_query-twice_example = build_dml_event_query-twice plan key_change refl refl

-- A database that counts statements, and one of the same kind that cannot commit.
abbrev counting : Database ℕ
counting = record {
  begin = λ d. ok d;
  exec = λ q args d. (ok tt, suc d);
  commit = λ d seen. (ok tt, seen);
}

abbrev uncommitting : Database ℕ
uncommitting = record counting { commit = λ d seen. (err [], d) }

abbrev zero_counters : Counters
zero_counters = record {
  total_dml_events_applied = pos 0;
  rows_delta_estimate = pos 0;
  count_table_rows = true;
}

apply_dml_event_queries-all_or_nothing_example :
    ((apply_dml_event_queries uncommitting plan false 7 zero_counters (insertion ∷ [])).counters
      ≡ zero_counters)
    × Undone uncommitting 7
        (statements_run uncommitting plan
          (session_query false (txt "+00:00"))
          (insertion ∷ [])
          (begin_transaction uncommitting (session_of uncommitting 7)).1)
        (apply_dml_event_queries uncommitting plan false 7 zero_counters (insertion ∷ [])).session
unfolding apply_dml_event_queries exec_events exec_results build_dml_event_query build_insert
    build_dml_insert_query is_subset_of lookup text_eq begin_transaction exec_statement rollback
    commit_transaction session_query
apply_dml_event_queries-all_or_nothing_example =
    apply_dml_event_queries-all_or_nothing uncommitting plan false 7 zero_counters (insertion ∷ [])
      (execution_failed []) refl

apply_dml_event_queries-counts_example :
    ((apply_dml_event_queries counting plan false 7 zero_counters
        (insertion ∷ [])).counters.total_dml_events_applied
      ≡ wrap64 (pos 0 +ℤ pos (length (insertion ∷ []))))
    × ((apply_dml_event_queries counting plan false 7 zero_counters
          (insertion ∷ [])).counters.rows_delta_estimate
        ≡ (if true then wrap64 (pos 0 +ℤ sum_rows_added (insertion ∷ [])) else pos 0))
unfolding apply_dml_event_queries exec_events exec_results build_dml_event_query build_insert
    build_dml_insert_query is_subset_of lookup text_eq begin_transaction exec_statement rollback
    commit_transaction session_query
apply_dml_event_queries-counts_example =
    apply_dml_event_queries-counts counting plan false 7 zero_counters (insertion ∷ []) refl
