-- ===== src/Tests/Streaming.antt =====
-- Runs of go/binlog, and of the streamer, the inspector and the row copy, at concrete inputs.
use ghost_source_code_readin.Base.{
  ℕ, ◌≡◌, refl, true, false, List, [], ◌∷◌, none, some, ok, map, Result,
}
use ghost_source_code_readin.Base.Int.{pos}
use ghost_source_code_readin.Base.Dict.{is_some}
use ghost_source_code_readin.Text.{
  Text, txt, text_eq, text_lt, to_lower, split, trim_space, trim_left, trim_right,
}
use ghost_source_code_readin.Sql.Value.{Value, int8, Column, unknown}
use ghost_source_code_readin.Sql.Columns.{ColumnList}
use ghost_source_code_readin.Sql.Columns.{names}
use ghost_source_code_readin.Sql.Compare.{
  build_range_prepared_comparison, build_range_comparison, build_columns_prepared_values,
  range_items, range_item, close_range, build_value_comparison, build_equals_comparison,
  equals_comparisons, column_token,
}
use ghost_source_code_readin.Sql.Queries.{build_range_end_via_offset}
use ghost_source_code_readin.Mysql.Coordinates.{
  BinlogCoordinates, binary_log, smaller_than, smaller_than_or_equals,
}
use ghost_source_code_readin.Binlog.{BinlogDmlEvent, update_dml, to_event_dml}
use ghost_source_code_readin.Binlog.Reader.{Reader, RowsEvent, handle_rows_event, entry_of}
use ghost_source_code_readin.Binlog.Reader.Once.{handle_rows_event-once, handle_rows_event-pairs}
use ghost_source_code_readin.Logic.Streamer.{BinlogEventListener}
use ghost_source_code_readin.Logic.Applier.Range.{
  CopyPlan, CopyState, Rows, next_start, range_end, range_end_round, last_row,
  calculate_next_iteration_range_end_values,
}
use ghost_source_code_readin.Logic.Applier.Range.Contiguous.{
  calculate_next_iteration_range_end_values-contiguous,
}

abbrev place : BinlogCoordinates
place = record { log_file = 98 ∷ []; log_pos = pos 9; log_type = binary_log }

-- A reader that has handled the rows up to position 4.
abbrev reader : Reader
reader = record {
  current_coordinates = place;
  last_applied_rows_event_hint = record place { log_pos = pos 4 };
}

abbrev row_1 : List Value
row_1 = int8 (pos 1) ∷ []

abbrev row_2 : List Value
row_2 = int8 (pos 2) ∷ []

-- An update of a row, with the type's name in bytes: `update`.
abbrev update : RowsEvent
update = record {
  event_type = 117 ∷ 112 ∷ 100 ∷ 97 ∷ 116 ∷ 101 ∷ [];
  schema = 100 ∷ [];
  table = 116 ∷ [];
  rows = row_1 ∷ row_2 ∷ [];
}

is_update : to_event_dml update.event_type ≡ update_dml
unfolding to_event_dml split trim_space trim_left trim_right to_lower text_eq txt
is_update = refl

is_new :
    smaller_than_or_equals reader.current_coordinates reader.last_applied_rows_event_hint ≡ false
unfolding smaller_than_or_equals smaller_than text_lt text_eq
is_new = refl

handle_rows_event-pairs_example : handle_rows_event reader update ≡ record {
  error = none;
  sent =
      map
        (λ (p : List Value × List Value). entry_of place update update_dml (some p.0) (some p.1))
        ((row_1, row_2) ∷ []);
  reader = record reader { last_applied_rows_event_hint = place };
}
handle_rows_event-pairs_example =
    handle_rows_event-pairs reader update ((row_1, row_2) ∷ []) is_new is_update refl

handled : (handle_rows_event reader update).error ≡ none
handled = rw (handle_rows_event-pairs reader update ((row_1, row_2) ∷ []) is_new is_update) refl

handle_rows_event-once_example :
    handle_rows_event (handle_rows_event reader update).reader update
    ≡ record { error = none; sent = []; reader = (handle_rows_event reader update).reader }
handle_rows_event-once_example = handle_rows_event-once reader update handled

abbrev event : BinlogDmlEvent
event = record {
  database_name = 68 ∷ [];
  table_name = 116 ∷ [];
  dml = update_dml;
  where_column_values = none;
  new_column_values = none;
}

abbrev listener : BinlogEventListener ℕ
listener = record {
  async = true;
  listener_database = 100 ∷ [];
  listener_table = 116 ∷ [];
  on_dml_event = 5;
}

abbrev originals : List Text
originals = (97 ∷ []) ∷ (98 ∷ []) ∷ []

abbrev key_column : Column
key_column = record {
  name = 97 ∷ [];
  is_unsigned = false;
  charset = [];
  column_type = unknown;
  timezone_conversion = none;
}

abbrev key : ColumnList
key = record { columns = key_column ∷ []; ordinals = (97 ∷ [], 0) ∷ [] }

abbrev pub plan : CopyPlan
plan = record {
  database_name = 100 ∷ [];
  original_table_name = 116 ∷ [];
  ghost_table = 103 ∷ [];
  key_name = 107 ∷ [];
  key_columns = key;
  shared_columns = key;
  mapped_shared_columns = key;
  chunk_size = pos 1000;
  transactional = true;
  skip_strict_mode = false;
  applier_time_zone = [];
}

-- Before the first chunk of the keys from 1 to 2.
abbrev pub start : CopyState
start = record {
  range_min = some row_1;
  range_max = some row_2;
  iteration_min = none;
  iteration_max = none;
  iteration = pos 0;
}

-- Every query gives the row of the key 2.
abbrev pub answer : Text → List Value → Result Text Rows
answer q args = ok (ok row_2 ∷ [])

finds_more : (calculate_next_iteration_range_end_values answer plan start).0 ≡ ok true
unfolding calculate_next_iteration_range_end_values next_start range_end range_end_round last_row
    build_range_end_via_offset build_range_prepared_comparison build_range_comparison names
    build_columns_prepared_values range_items range_item close_range build_value_comparison
    build_equals_comparison equals_comparisons column_token txt
finds_more = refl

calculate_next_iteration_range_end_values-contiguous_example :
    (is_some (calculate_next_iteration_range_end_values answer plan start).1.iteration_max ≡ true)
    × ((calculate_next_iteration_range_end_values answer plan
          (calculate_next_iteration_range_end_values answer plan start).1).1.iteration_min
        ≡ (calculate_next_iteration_range_end_values answer plan start).1.iteration_max)
calculate_next_iteration_range_end_values-contiguous_example =
    calculate_next_iteration_range_end_values-contiguous answer plan start finds_more
